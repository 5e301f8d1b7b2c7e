-- ===== src/Frontmatter.antt =====
-- coppermind/frontmatter.py: cutting a note into its YAML block and its body. The mapping that the
-- block holds, and the writers of a note, are in the modules below.
pub mod Yaml
pub mod Write
pub mod Search
pub mod Split
pub mod Fence
pub mod Compose
pub mod Splice
pub mod Append
mod Examples
use coppermind.Base.{
  ◌≡◌, refl, ℕ, ◌+◌, ◌-◌, Bool, true, false, not, ◌&&◌, ◌||◌, Option, none, some, List, [], ◌∷◌,
  ◌++◌, length, take, drop, any, ◌==◌, if◌then◌else◌,
}
pub use coppermind.Base.Attempt.{raises, ok, ◌>>=◌, >>=-eq-ok}
use coppermind.Base.Attempt.{Attempt}
use coppermind.Base.Texts.{Text, codes, eqb, elem, rstrip, lstrip, starts_with}
use coppermind.Base.Lines.{splitlines}

abbrev pub delimiter : Text
delimiter = b'-' ∷ b'-' ∷ b'-' ∷ []

-- FrontmatterError by its category: those that this module names, and a parser's own.
pub data Category : Type 0 where
  unterminated_block not_a_mapping unsupported_line_endings unparseable : Category

abbrev pub Outcome {ℓ} : Type ℓ → Type ℓ
Outcome Value = Attempt Category Value

-- The characters of str.rstrip("\r\n").
abbrev pub is_crlf : ℕ → Bool
is_crlf c = c == 13 || c == 10

abbrev pub is_cr : ℕ → Bool
is_cr c = c == 13

-- line.rstrip("\r\n") == DELIMITER
unfoldable pub is_delimiter : Text → Bool
unfolding rstrip
is_delimiter line = eqb (rstrip is_crlf line) delimiter

pub find_from : ℕ → List Text → Option ℕ
find_from offset [] = none
find_from offset (line ∷ lines) =
    let rest = find_from (offset + length line) lines in
    if is_delimiter line then some offset else rest

unfoldable pub find_closing_delimiter : Text → Option ℕ
unfolding find_from splitlines is_delimiter
find_closing_delimiter text = find_from 0 (splitlines text)

-- text.removeprefix("\n")
abbrev pub remove_feed : Text → Text
remove_feed [] = []
remove_feed (c ∷ s) = if c == 10 then s else c ∷ s

-- text.split("\n", 1)[1] if "\n" in text else ""
unfoldable pub after_feed : Text → Text
after_feed [] = []
after_feed (c ∷ s) = if c == 10 then s else after_feed s

-- rest[:1] in {"\n", "\r"}
abbrev pub opens_line : Text → Bool
opens_line [] = false
opens_line (c ∷ s) = c == 10 || c == 13

-- What `_split` returns. `none` stands for its negative opening length: no frontmatter at all.
pub record Parts : Type 0 where
  pub block : Text
  pub body : Text
  pub opening_length : Option ℕ

-- `_split` behind its opening line, `rest` being what stands there.
unfoldable pub split_rest : Text → ℕ → Outcome Parts
unfolding find_closing_delimiter after_feed
split_rest rest opening = elim (find_closing_delimiter rest) [
  | none ↦ raises unterminated_block
  | some end ↦ ok (record {
    block = take end rest;
    body = after_feed (drop end rest);
    opening_length = some opening;
  })
]

unfoldable pub split_parts : Text → Outcome Parts
unfolding split_rest lstrip starts_with
split_parts text =
    let rest = drop (length delimiter) text in
    let inner = remove_feed (lstrip is_cr rest) in
    let plain : Parts = record { block = []; body = text; opening_length = none } in
    if not (starts_with delimiter text)
    then ok plain
    else if not (opens_line rest)
    then ok plain
    else split_rest inner (length text - length inner)

unfoldable pub split : Text → Outcome (Text × Text)
unfolding split_parts
split text = do parts ← split_parts text; ok (parts.block, parts.body)

-- text.startswith(("\n", "\r\n"))
abbrev pub starts_ending : Text → Bool
starts_ending [] = false
starts_ending (c ∷ []) = c == 10
starts_ending (c ∷ d ∷ s) = c == 10 || (c == 13 && d == 10)

-- text in ("\n", "\r\n")
abbrev pub is_ending : Text → Bool
is_ending s = eqb s (10 ∷ []) || eqb s (13 ∷ 10 ∷ [])

abbrev pub is_nonempty : Text → Bool
is_nonempty [] = false
is_nonempty (c ∷ s) = true

-- `_readable_block`: the block, the body and the two offsets at which the writers splice.
pub record Readable : Type 0 where
  pub block : Text
  pub body : Text
  pub offsets : Option (ℕ × ℕ)

pub readable_from : Text → Parts → ℕ → Option ℕ → Outcome Readable
readable_from text parts opening none = raises unterminated_block
readable_from text parts opening (some closing) =
    let after_closing = drop (opening + closing + length delimiter) text in
    if not (is_ending (drop (length delimiter) (take opening text)))
      || (is_nonempty after_closing && not (starts_ending after_closing))
    then raises unsupported_line_endings
    else ok (record { block = parts.block; body = parts.body; offsets = some (opening, closing) })

unfoldable pub readable_parts : Text → Parts → Outcome Readable
unfolding readable_from find_closing_delimiter
readable_parts text parts = elim parts.opening_length [
  | none ↦ ok (record { block = parts.block; body = parts.body; offsets = none })
  | some opening ↦ readable_from text parts opening (find_closing_delimiter (drop opening text))
]

unfoldable pub readable_block : Text → Outcome Readable
unfolding split_parts readable_parts
readable_block text = do parts ← split_parts text; readable_parts text parts

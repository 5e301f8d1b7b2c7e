-- ===== src/Frontmatter/Write.antt =====
-- coppermind/frontmatter.py: reading the mapping of a note (`parse`) and the writers (`compose`,
-- `patch`, `fill_missing`).
pub mod Styled
pub mod Changes
pub mod Fill
use coppermind.Base.{
  ℕ, ◌+◌, Bool, false, ◌||◌, Option, none, some, List, [], ◌∷◌, ◌++◌, length, take, drop, ◌==◌,
  if◌then◌else◌,
}
use coppermind.Base.Texts.{Text, eqb, is_empty, strip, rstrip, is_space}
use coppermind.Base.Dict.{Dict, insert, remove, has_key}
use coppermind.Frontmatter.{
  Outcome, ok, raises, ◌>>=◌, not_a_mapping, unparseable, delimiter, split, Readable,
  readable_block,
}
use coppermind.Frontmatter.Yaml.{
  Yaml, Style, house_style, Loaded, null, other, mapping, guessed, index_error, yaml_error,
  indent_like, yaml_scalar, yaml_mapping,
}

-- block.replace("\n", ending)
unfoldable pub replace_feeds : Text → Text → Text
replace_feeds ending [] = []
replace_feeds ending (c ∷ s) =
    if c == 10 then ending ++ replace_feeds ending s else c ∷ replace_feeds ending s

-- text.endswith("\n")
unfoldable pub ends_with_feed : Text → Bool
ends_with_feed [] = false
ends_with_feed (c ∷ []) = c == 10
ends_with_feed (c ∷ d ∷ s) = ends_with_feed (d ∷ s)

abbrev is_blank : ℕ → Bool
is_blank c = c == b' ' || c == 9

-- One line under `_ITEM_WITH_NO_VALUE.sub(r"\1 x", …)`.
lend_value : Text → Text
lend_value line =
    if eqb (strip is_blank line) (b'-' ∷ [])
    then rstrip is_blank line ++ (b' ' ∷ b'x' ∷ [])
    else line

-- The same over a block: the pattern's line ends are line feeds alone.
lend_from : Text → Text → Text
lend_from line [] = lend_value line
lend_from line (c ∷ s) =
    if c == 10 then lend_value line ++ (10 ∷ lend_from [] s) else lend_from (line ++ (c ∷ [])) s

unfoldable pub lend_values : Text → Text
unfolding lend_from lend_value strip
lend_values block = lend_from [] block

module _ (y : Yaml) where
  open y use {Value, Comments, load, guess_indent, dump}

  -- What the module calls a frontmatter mapping: a plain dict, or one that the loader made, whose
  -- comments go back into a dump.
  pub record Front : Type 0 where
    pub entries : Dict Value
    pub comments : Option Comments

  abbrev pub plain : Dict Value → Front
  plain entries = record { entries = entries; comments = none }

  -- `_mapping`
  unfoldable pub as_mapping : Loaded Value Comments → Outcome Front
  as_mapping null = ok (plain [])
  as_mapping other = raises not_a_mapping
  as_mapping (mapping entries comments) =
      ok (record { entries = entries; comments = some comments })

  unfoldable pub parse_block : Text → Outcome Front
  unfolding as_mapping strip
  parse_block block =
      if is_empty (strip is_space block)
      then ok (plain [])
      else elim (load block) [ none ↦ raises unparseable | some loaded ↦ as_mapping loaded ]

  unfoldable pub parse : Text → Outcome (Front × Text)
  unfolding parse_block
  parse text = do (block, body) ← split text; front ← parse_block block; ok (front, body)

  -- `_indent_of`
  indent_of : Text → Option ℕ × Option ℕ
  indent_of block = elim (guess_indent block) [
    | guessed _ indent offset ↦ (indent, offset)
    | _ ↦ (none, none)
  ]

  unfoldable pub load_guessing_indent : Text → Outcome (Loaded Value Comments × Option ℕ × Option ℕ)
  unfolding indent_of
  load_guessing_indent block = elim (guess_indent block) [
    | guessed loaded indent offset ↦ ok (loaded, indent, offset)
    | yaml_error ↦ raises unparseable
    | index_error ↦ elim (load block) [
      | none ↦ raises unparseable
      | some loaded ↦
          let (indent, offset) = indent_of (lend_values block) in ok (loaded, indent, offset)
    ]
  ]

  dump_entries : Style → Option Comments → Dict Value → Text
  dump_entries st (some c) m = dump st (some c) m
  dump_entries st none m = dump st none (yaml_mapping y m)

  -- `_dump`
  unfoldable pub dump_front : Style → Front → Text
  unfolding dump_entries
  dump_front st front = elim front.entries [
    | [] ↦ []
    | e ∷ es ↦ dump_entries st front.comments (e ∷ es)
  ]

  -- The block with the line feed that `_compose` sees to.
  abbrev pub closed : Text → Text
  closed block = if ends_with_feed block then block else block ++ (10 ∷ [])

  abbrev pub wrap : Text → Text → Text
  wrap block body = delimiter ++ (10 ∷ (closed block ++ (delimiter ++ (10 ∷ body))))

  -- `_compose`
  unfoldable pub compose_styled : Style → Front → Text → Text
  compose_styled st front body =
      let block = dump_front st front in if is_empty block then body else wrap block body

  unfoldable pub compose : Dict Value → Text → Text
  unfolding compose_styled
  compose frontmatter body = compose_styled house_style (plain frontmatter) body

  pop_all : List Text → Dict Value → Dict Value
  pop_all [] m = m
  pop_all (key ∷ unset) m = pop_all unset (remove key m)

  set_all : Dict Value → Dict Value → Dict Value
  set_all [] m = m
  set_all ((key, value) ∷ changes) m = set_all changes (insert key (yaml_scalar y key value) m)

  -- The two loops of `_patched`.
  unfoldable pub apply_changes : Dict Value → List Text → Dict Value → Dict Value
  unfolding pop_all set_all
  apply_changes changes unset m = set_all changes (pop_all unset m)

  -- The mapping of a block, and the style to write it back in.
  unfoldable pub load_styled : Text → Outcome (Front × Style)
  unfolding load_guessing_indent strip
  load_styled block = if is_empty (strip is_space block) then ok (plain [], house_style) else do
    (loaded, indent, offset) ← load_guessing_indent block
    front ← as_mapping loaded
    ok (front, indent_like house_style indent offset)

  -- `_patched`
  unfoldable pub patched : Text → Text → Dict Value → List Text → Outcome Text
  unfolding load_styled
  patched block body changes unset = do
    (front, st) ← load_styled block
    ok (
        compose_styled st (record front { entries = apply_changes changes unset front.entries })
          body)

  unfoldable pub patch : Text → Dict Value → List Text → Outcome Text
  unfolding patched
  patch text changes unset = do (block, body) ← split text; patched block body changes unset

  -- {key: value for key, value in changes.items() if key not in frontmatter}
  unfoldable pub missing_from : Dict Value → Dict Value → Dict Value
  missing_from m [] = []
  missing_from m ((key, value) ∷ changes) =
      let rest = missing_from m changes in if has_key key m then rest else (key, value) ∷ rest

  -- The splice that ends `_appended`.
  unfoldable pub splice : Text → Style → ℕ → ℕ → Dict Value → Text
  splice text st opening closing [] = text
  splice text st opening closing (e ∷ es) =
      let ending = drop (length delimiter) (take opening text) in
      let fragment = replace_feeds ending (dump_front st (plain (e ∷ es))) in
      take (opening + closing) text ++ (fragment ++ drop (opening + closing) text)

  -- `_appended`
  unfoldable pub appended : Text → Dict Value → Readable → Outcome Text
  unfolding load_styled
  appended text changes found = elim found.offsets [
    | none ↦ ok (compose changes found.body)
    | some (opening, closing) ↦ do
      (front, st) ← load_styled found.block
      ok (splice text st opening closing (missing_from front.entries changes))
  ]

  has_any : Dict Value → Dict Value → Bool
  has_any m [] = false
  has_any m ((key, value) ∷ changes) = has_key key m || has_any m changes

  -- any(key in _parse_block(block) for key in changes), which parses nothing for no changes
  unfoldable pub any_present : Text → Dict Value → Outcome Bool
  unfolding has_any
  any_present block [] = ok false
  any_present block (e ∷ es) = do front ← parse_block block; ok (has_any front.entries (e ∷ es))

  fill_found : Text → Dict Value → Readable → Outcome Text
  fill_found text changes found = elim found.offsets [
    | none ↦ appended text changes found
    | some offsets ↦ do
      present ← any_present found.block changes
      if present then patched found.block found.body changes [] else appended text changes found
  ]

  unfoldable pub fill_missing : Text → Dict Value → Outcome Text
  unfolding fill_found
  fill_missing text changes = do found ← readable_block text; fill_found text changes found

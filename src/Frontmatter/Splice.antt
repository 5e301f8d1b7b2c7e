-- ===== src/Frontmatter/Splice.antt =====
-- Where `_readable_block` of coppermind/frontmatter.py lets the writers splice, and what
-- `fill_missing` leaves of a note that it adds keys to.
use coppermind.Base.{
  ℕ, ◌+◌, ◌≡◌, refl, sym, ap, subst, ◌∙◌, ◌⊎◌, inl, inr, true, false, ◌&&◌, not, none, some, [],
  ◌∷◌, ◌++◌, length, length-append, take, drop, take-append_length, drop-append_length, All, ◌==◌,
  Bool-cases, Option-cases, append_assoc, arith,
}
use coppermind.Base.Texts.{Text, starts_with}
use coppermind.Base.Lines.{splitlines, Boundary}
use coppermind.Frontmatter.{
  Outcome, delimiter, ok, >>=-eq-ok, is_delimiter, find_closing_delimiter, after_feed, Parts,
  split_rest, split_parts, split, Readable, readable_from, readable_parts, readable_block,
  is_ending, starts_ending, is_nonempty,
}
use coppermind.Frontmatter.Search.{starts_with-take}
use coppermind.Frontmatter.Split.{
  find_closing-Closed, no_block, block_at, Opening-of, split_rest-opening_length,
}
use coppermind.Frontmatter.Fence.{Ending, at_end, feed, crlf}

-- A note that a writer may splice into: its opening line, its block, the closing delimiter and what
-- stands behind it, with the two offsets at which the block starts and is closed.
pub record Located (text : Text) (found : Readable) (opening closing : ℕ) : Type 0 where
  pub ending : Text
  pub tail : Text
  pub whole : text ≡ (delimiter ++ ending) ++ (found.block ++ (delimiter ++ tail))
  pub opens : length (delimiter ++ ending) ≡ opening
  pub closes : length found.block ≡ closing
  pub ends : (found.block ≡ []) ⊎ Boundary found.block (delimiter ++ tail)
  pub clean : All (λ l. is_delimiter l ≡ false) (splitlines found.block)
  pub behind : Ending tail
  pub body : after_feed tail ≡ found.body
  pub line_end : is_ending ending ≡ true

Ending-of : (tail : Text) → (is_nonempty tail && not (starts_ending tail)) ≡ false → Ending tail
Ending-of [] h = at_end
Ending-of (c ∷ []) h = let e : c ≡ 10 = ground arith in rw e (feed [])
Ending-of (c ∷ d ∷ s) h = elim (Bool-cases (c == 10)) [
  | inl e ↦ let e' : c ≡ 10 = ground arith in rw e' (feed (d ∷ s))
  | inr e ↦ let e' : c ≡ 13 = ground arith in let f : d ≡ 10 = ground arith in rw (e', f) (crlf s)
]

checked_fields :
    (block body : Text) (k end : ℕ) (found : Readable) (a b : ℕ)
    → Path
        (Outcome Readable)
        (ok (record { block = block; body = body; offsets = some (k, end) }))
        (ok found)
    → found.offsets ≡ some (a, b)
    → (found.block ≡ block) × (found.body ≡ body) × (k ≡ a) × (end ≡ b)
checked_fields block body k end found a b h o = ground arith

-- The checks of `_readable_block`, passed.
record Checked (text : Text) (parts : Parts) (k end : ℕ) (found : Readable) (a b : ℕ) : Type 0 where
  fields : (found.block ≡ parts.block) × (found.body ≡ parts.body) × (k ≡ a) × (end ≡ b)
  line_end : is_ending (drop 3 (take k text)) ≡ true
  behind :
      (is_nonempty (drop (k + end + 3) text) && not (starts_ending (drop (k + end + 3) text)))
      ≡ false

readable_from-Checked :
    (text : Text) (parts : Parts) (k end : ℕ) (found : Readable) (a b : ℕ)
    → readable_from text parts k (some end) ≡ ok found
    → found.offsets ≡ some (a, b)
    → Checked text parts k end found a b
unfolding readable_from
readable_from-Checked text parts k end found a b h o =
    elim (Bool-cases (is_ending (drop 3 (take k text)))) [
      | inr e ↦ cc (rw (e, readable_from) at h)
      | inl e ↦
          elim (Bool-cases (
            is_nonempty (drop (k + end + 3) text)
            && not (starts_ending (drop (k + end + 3) text)))) [
              | inl f ↦ cc (rw (e, f, readable_from) at h)
              | inr f ↦ record {
                fields =
                    checked_fields parts.block parts.body k end found a b
                      (rw (e, f, readable_from) at h) o;
                line_end = e;
                behind = f;
              }
            ]
    ]

pub drop-append_at :
    (xs ys text : Text) (n : ℕ) → text ≡ xs ++ ys → length xs ≡ n → drop n text ≡ ys
drop-append_at xs ys text n h e =
    ap (λ m. drop m text) (sym e) ∙ ap (drop (length xs)) h ∙ drop-append_length xs ys

pub take-append_at :
    (xs ys text : Text) (n : ℕ) → text ≡ xs ++ ys → length xs ≡ n → take n text ≡ xs
take-append_at xs ys text n h e =
    ap (λ m. take m text) (sym e) ∙ ap (take (length xs)) h ∙ take-append_length xs ys

split_rest-parts :
    (rest : Text) (k end : ℕ) (parts : Parts)
    → split_rest rest k ≡ ok parts
    → find_closing_delimiter rest ≡ some end
    → (parts.block ≡ take end rest) × (parts.body ≡ after_feed (drop end rest))
unfolding split_rest
split_rest-parts rest k end parts h e = ground arith

located :
    (text opening rest : Text) (parts : Parts) (end : ℕ) (found : Readable) (a b : ℕ)
    → text ≡ opening ++ rest
    → starts_with delimiter opening ≡ true
    → split_rest rest (length opening) ≡ ok parts
    → find_closing_delimiter rest ≡ some end
    → Checked text parts (length opening) end found a b
    → Located text found a b
unfolding after_feed
located text opening rest parts end found a b whole opens split closing checked =
    let c = find_closing-Closed rest end closing in
    let (block, body, same_k, same_end) = checked.fields in
    let taken : found.block ≡ c.block =
      block ∙ (split_rest-parts rest _ end parts split closing).0 ∙ c.taken in
    let left : found.body ≡ c.body =
      body ∙ (split_rest-parts rest _ end parts split closing).1 ∙ c.left in
    let fence : opening ≡ delimiter ++ drop 3 opening = starts_with-take delimiter opening opens in
    let tail : Text = c.closing ++ c.body in
    let rest_tail : drop end rest ≡ delimiter ++ tail =
      drop-append_at c.block (delimiter ++ tail) rest end c.whole (sym c.reached) in
    let behind : drop (length opening + end + 3) text ≡ tail =
      drop-append_at (opening ++ (c.block ++ delimiter)) tail text (length opening + end + 3)
        (whole ∙ ap (λ u. opening ++ u) c.whole ∙ simp append_assoc)
        (omega (
          arith,
          length-append {0} opening (c.block ++ delimiter),
          length-append {0} c.block delimiter,
          c.reached,
        )) in
    record {
      ending = drop 3 opening;
      tail = c.closing ++ c.body;
      whole = rw taken (
          whole ∙ ap (λ u. u ++ rest) fence ∙ ap (λ u. (delimiter ++ drop 3 opening) ++ u) c.whole);
      opens = ap length (sym fence) ∙ same_k;
      closes = ap length taken ∙ sym c.reached ∙ same_end;
      ends = rw taken c.ends;
      clean = rw taken c.earlier;
      behind = Ending-of (c.closing ++ c.body) (rw behind at checked.behind);
      body = sym (ap (λ u. after_feed u) rest_tail) ∙ c.left ∙ sym left;
      line_end =
          ap (λ u. is_ending (drop 3 u))
            (sym (take-append_at opening rest text (length opening) whole refl))
          ∙ checked.line_end;
    }

checked_closing :
    (text opening rest : Text) (parts : Parts) (k : ℕ) (found : Readable) (a b : ℕ)
    → text ≡ opening ++ rest
    → starts_with delimiter opening ≡ true
    → split_rest rest (length opening) ≡ ok parts
    → length opening ≡ k
    → readable_from text parts k (find_closing_delimiter rest) ≡ ok found
    → found.offsets ≡ some (a, b)
    → Located text found a b
unfolding readable_from
checked_closing text opening rest parts k found a b whole opens split same h o =
    elim (Option-cases (find_closing_delimiter rest)) [
      | inl e ↦ cc (rw (e, readable_from) at h)
      | inr (end, e) ↦ located text opening rest parts end found a b whole opens split e (
          readable_from-Checked text parts (length opening) end found a b
            (subst (λ n. readable_from text parts n (some end) ≡ ok found) (sym same) (rw e at h))
            o)
    ]

no_offsets :
    (parts : Parts) (found : Readable)
    → Path
        (Outcome Readable)
        (ok (record { block = parts.block; body = parts.body; offsets = none }))
        (ok found)
    → found.offsets ≡ none
no_offsets parts found h = ground arith

-- Where `_readable_block` gives offsets, the note is an opening delimiter line that ends in a line
-- feed or in a carriage return and a line feed, the block, and a closing delimiter behind which the
-- note ends or such a line end stands; the offsets are the lengths of that line and of the block;
-- and no line of the block is a delimiter.
pub readable_block-Located :
    (text : Text) (found : Readable) (a b : ℕ)
    → readable_block text ≡ ok found
    → found.offsets ≡ some (a, b)
    → Located text found a b
unfolding readable_block readable_parts
readable_block-Located text found a b h o =
    let (parts, split, rest) = >>=-eq-ok (split_parts text) (readable_parts text) h in
    elim (Option-cases parts.opening_length) [
      | inl e ↦ cc (no_offsets parts found (rw (e, readable_parts) at rest), o)
      | inr (k, e) ↦ elim (Opening-of text) [
        | no_block same ↦ cc (sym same ∙ split, e)
        | block_at opening inner whole opens same ↦
            let divided = sym same ∙ split in
            let at : length opening ≡ k =
              ground (arith, split_rest-opening_length inner (length opening) parts divided) in
            checked_closing text opening inner parts k found a b whole opens divided at
              (subst (λ u. readable_from text parts k (find_closing_delimiter u) ≡ ok found)
                (drop-append_at opening inner text k whole at) (rw (e, readable_parts) at rest))
              o
      ]
    ]

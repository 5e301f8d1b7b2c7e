-- ===== src/Frontmatter/Split.antt =====
-- What `split` of coppermind/frontmatter.py keeps of a note, and when it finds no block.
use coppermind.Base.{
  ℕ, ◌≡◌, refl, sym, ap, subst, ◌∙◌, ◌⊎◌, inl, inr, Bool, true, false, ◌&&◌, none, some, List, [],
  ◌∷◌, ◌++◌, length, length-append, take, drop, take-append_length, drop-append_length, All,
  Bool-cases, Option-cases, append_assoc, arith,
}
use coppermind.Base.Texts.{Text, eqb_iff, is_empty, lstrip, rstrip, starts_with}
use coppermind.Base.Lines.{
  cut-Boundary, Boundary, splitlines, concat, concat-append, concat-splitlines, splitlines-before,
}
use coppermind.Frontmatter.{
  delimiter, ok, is_cr, is_crlf, is_delimiter, find_closing_delimiter, remove_feed, after_feed,
  opens_line, Parts, split_rest, split_parts,
}
use coppermind.Frontmatter.Search.{
  find_from-Found, LineEnd, after_feed-FeedCut, lstrip-Suffix, remove_feed-Suffix, starts_with-take,
  starts_with-append,
}

-- How a note with a block is cut: nothing is lost or moved, both delimiter lines stand where they
-- belong, and no line of the block closes it sooner.
pub record Cut (text : Text) (parts : Parts) (opening_length : ℕ) : Type 0 where
  pub opening : Text
  pub closing : Text
  pub whole : text ≡ opening ++ (parts.block ++ (delimiter ++ (closing ++ parts.body)))
  pub ended : LineEnd closing parts.body
  pub measured : length opening ≡ opening_length
  pub opens : starts_with delimiter opening ≡ true
  pub earlier : All (λ l. is_delimiter l ≡ false) (splitlines parts.block)

rstrip-prefix : (p : ℕ → Bool) (s : Text) → (t : Text) × (s ≡ rstrip p s ++ t)
unfolding rstrip
rstrip-prefix p [] = ([], refl)
rstrip-prefix p (c ∷ s) = elim (Bool-cases (is_empty (rstrip p s) && p c)) [
  | inl e ↦ (c ∷ s, rw e refl)
  | inr e ↦ let (t, h) = rstrip-prefix p s in (t, rw e (ap (λ u. c ∷ u) h))
]

is_delimiter-prefix :
    (line : Text) → is_delimiter line ≡ true → (t : Text) × (line ≡ delimiter ++ t)
unfolding is_delimiter
is_delimiter-prefix line h =
    let (t, e) = rstrip-prefix is_crlf line in
    (t, e ∙ ap (λ u. u ++ t) ((eqb_iff (rstrip is_crlf line) delimiter).0 h))

after_feed-delimiter : (s : Text) → after_feed (delimiter ++ s) ≡ after_feed s
unfolding after_feed
after_feed-delimiter s = refl

-- The part of `rest` behind its first closing delimiter line.
pub record Closed (rest : Text) (end : ℕ) : Type 0 where
  pub block : Text
  pub closing : Text
  pub body : Text
  pub reached : end ≡ length block
  pub ends : (block ≡ []) ⊎ Boundary block (delimiter ++ (closing ++ body))
  pub whole : rest ≡ block ++ (delimiter ++ (closing ++ body))
  pub ended : LineEnd closing body
  pub taken : take end rest ≡ block
  pub left : after_feed (drop end rest) ≡ body
  pub earlier : All (λ l. is_delimiter l ≡ false) (splitlines block)

block_ends :
    (rest : Text) (before : List Text) (line : Text) (after : List Text)
    → splitlines rest ≡ before ++ line ∷ after
    → (concat before ≡ []) ⊎ Boundary (concat before) (line ++ concat after)
block_ends rest [] line after h = inl refl
block_ends rest (b ∷ bs) line after h = inr (cut-Boundary rest b bs line after h)

pub find_closing-Closed :
    (rest : Text) (end : ℕ) → find_closing_delimiter rest ≡ some end → Closed rest end
find_closing-Closed rest end h =
    let f = find_from-Found 0 (splitlines rest) end (unfold find_closing_delimiter in h) in
    let (t, line) = is_delimiter-prefix f.line f.closes in
    let behind = after_feed-FeedCut (t ++ concat f.after) in
    let whole : rest ≡ concat f.before ++ (delimiter ++ (t ++ concat f.after)) =
      sym (concat-splitlines rest)
      ∙ ap concat f.cut
      ∙ concat-append f.before (f.line ∷ f.after)
      ∙ ap (λ u. concat f.before ++ (u ++ concat f.after)) line in
    let at : end ≡ length (concat f.before) = omega (arith, f.reached) in
    record {
      block = concat f.before;
      closing = behind.closing;
      body = after_feed (t ++ concat f.after);
      reached = at;
      ends =
          subst (λ u. (concat f.before ≡ []) ⊎ Boundary (concat f.before) u)
            (ap (λ u. u ++ concat f.after) line ∙ ap (λ u. delimiter ++ u) behind.rest)
            (block_ends rest f.before f.line f.after f.cut);
      whole = whole ∙ ap (λ u. concat f.before ++ (delimiter ++ u)) behind.rest;
      ended = behind.ended;
      taken =
          ap (λ n. take n rest) at
          ∙ ap (take (length (concat f.before))) whole
          ∙ take-append_length _ _;
      left =
          ap (λ n. after_feed (drop n rest)) at
          ∙ ap (λ u. after_feed u)
              (ap (drop (length (concat f.before))) whole ∙ drop-append_length (concat f.before) _)
          ∙ after_feed-delimiter _;
      earlier = rw (splitlines-before rest f.before f.line f.after f.cut) f.earlier;
    }

split_rest-Cut :
    (text opening rest : Text) (k : ℕ) (parts : Parts)
    → text ≡ opening ++ rest
    → length opening ≡ k
    → starts_with delimiter opening ≡ true
    → split_rest rest k ≡ ok parts
    → Cut text parts k
unfolding split_rest
split_rest-Cut text opening rest k parts whole measured opens h =
    elim (Option-cases (find_closing_delimiter rest)) [
      | inl e ↦ cc (rw (e, split_rest) at h)
      | inr (end, e) ↦
          let c = find_closing-Closed rest end e in
          let block : parts.block ≡ c.block = ground (arith, c.taken) in
          let body : parts.body ≡ c.body = ground (arith, c.left) in
          record {
            opening = opening;
            closing = c.closing;
            whole = rw (block, body) (whole ∙ ap (λ u. opening ++ u) c.whole);
            ended = rw body c.ended;
            measured = measured;
            opens = opens;
            earlier = rw block c.earlier;
          }
    ]

-- The two ways in which `_split` leaves a text alone, and the one in which it looks for a block.
pub data Opening (text : Text) : Type 0 where
  no_block :
      split_parts text ≡ ok (record { block = []; body = text; opening_length = none })
      → Opening text
  block_at :
      (opening rest : Text)
      → text ≡ opening ++ rest
      → starts_with delimiter opening ≡ true
      → split_parts text ≡ split_rest rest (length opening)
      → Opening text

pub Opening-of : (text : Text) → Opening text
unfolding split_parts
Opening-of text = elim (Bool-cases (starts_with delimiter text)) [
  | inr e ↦ no_block (rw e refl)
  | inl e ↦ elim (Bool-cases (opens_line (drop 3 text))) [
    | inr f ↦ no_block (rw (e, f) refl)
    | inl f ↦
        let outer = lstrip-Suffix is_cr (drop 3 text) in
        let inner = remove_feed-Suffix (lstrip is_cr (drop 3 text)) in
        let rest = remove_feed (lstrip is_cr (drop 3 text)) in
        let opening : Text = delimiter ++ (outer.prefix ++ inner.prefix) in
        let whole : text ≡ opening ++ rest =
          starts_with-take delimiter text e
          ∙ ap (λ u. delimiter ++ u)
              (outer.rest
                ∙ ap (λ u. outer.prefix ++ u) inner.rest
                ∙ sym (append_assoc outer.prefix inner.prefix rest)) in
        block_at opening rest whole (starts_with-append delimiter (outer.prefix ++ inner.prefix)) (
          rw (e, f)
            (ap (split_rest rest) (omega (arith, ap length whole, length-append {0} opening rest))))
  ]
]

pub split_rest-opening_length :
    (rest : Text) (k : ℕ) (parts : Parts)
    → split_rest rest k ≡ ok parts
    → parts.opening_length ≡ some k
unfolding split_rest
split_rest-opening_length rest k parts h = ground arith

block_at-Cut :
    (text opening rest : Text) (k : ℕ) (parts : Parts)
    → text ≡ opening ++ rest
    → starts_with delimiter opening ≡ true
    → split_rest rest (length opening) ≡ ok parts
    → parts.opening_length ≡ some k
    → Cut text parts k
block_at-Cut text opening rest k parts whole opens h at =
    let k' = split_rest-opening_length rest (length opening) parts h in
    let same : length opening ≡ k = ground (arith, k') in
    split_rest-Cut text opening rest k parts whole same opens (rw (← same) h)

-- When `_split` finds a block in a note, the note is the opening line, the block, the closing
-- delimiter with the rest of its line, and the body, in this order and with nothing between; the
-- rest of that line ends at the first line feed behind the delimiter, or nothing follows it; the reported length is that of the opening line, which starts with the delimiter; and no line of
-- the block is a delimiter, so the block ends at the first one.
pub split_parts-Cut :
    (text : Text) (parts : Parts) (k : ℕ)
    → split_parts text ≡ ok parts
    → parts.opening_length ≡ some k
    → Cut text parts k
split_parts-Cut text parts k h at = elim (Opening-of text) [
  | no_block same ↦ cc (sym same ∙ h, at)
  | block_at opening rest whole opens same ↦
      block_at-Cut text opening rest k parts whole opens (sym same ∙ h) at
]

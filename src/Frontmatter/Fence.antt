-- ===== src/Frontmatter/Fence.antt =====
-- Where a block ends: a block with no delimiter line of its own is closed by the line behind it.
use coppermind.Base.{
  ℕ, ◌≡◌, refl, ap, ◌∙◌, ◌⊎◌, inl, inr, true, false, some, List, [], ◌∷◌, ◌++◌, length,
  take-append_length, drop-append_length, All, arith,
}
use coppermind.Base.Texts.{Text}
use coppermind.Base.Lines.{splitlines, concat-splitlines, Boundary, splitlines-append}
use coppermind.Frontmatter.{
  delimiter, ok, is_delimiter, find_from, find_closing_delimiter, after_feed, split_rest,
  split_parts, split,
}
use coppermind.Frontmatter.Search.{find_from-append}

-- What may stand behind a closing delimiter that the writers accept: nothing, or a line end.
pub data Ending : Text → Type 0 where
  at_end : Ending []
  feed : (body : Text) → Ending (10 ∷ body)
  crlf : (body : Text) → Ending (13 ∷ 10 ∷ body)

record FirstLine (s : Text) : Type 0 where
  line : Text
  after : List Text
  cut : splitlines s ≡ line ∷ after
  closes : is_delimiter line ≡ true

Ending-FirstLine : (tail : Text) → Ending tail → FirstLine (delimiter ++ tail)
unfolding splitlines is_delimiter
Ending-FirstLine tail at_end = record { line = delimiter; after = []; cut = refl; closes = refl }
Ending-FirstLine tail (feed []) = record {
  line = delimiter ++ 10 ∷ [];
  after = [];
  cut = refl;
  closes = refl;
}
Ending-FirstLine tail (feed (c ∷ s)) = record {
  line = delimiter ++ 10 ∷ [];
  after = splitlines (c ∷ s);
  cut = refl;
  closes = refl;
}
Ending-FirstLine tail (crlf []) = record {
  line = delimiter ++ 13 ∷ 10 ∷ [];
  after = [];
  cut = refl;
  closes = refl;
}
Ending-FirstLine tail (crlf (c ∷ s)) = record {
  line = delimiter ++ 13 ∷ 10 ∷ [];
  after = splitlines (c ∷ s);
  cut = refl;
  closes = refl;
}

splitlines-block :
    (block rest : Text)
    → (block ≡ []) ⊎ Boundary block rest
    → splitlines (block ++ rest) ≡ splitlines block ++ splitlines rest
splitlines-block block rest (inl e) = rw e (unfold splitlines in refl)
splitlines-block block rest (inr b) = splitlines-append block rest b

-- A block without a delimiter line is closed by the line behind it.
pub find_closing-block :
    (block tail : Text)
    → (block ≡ []) ⊎ Boundary block (delimiter ++ tail)
    → All (λ l. is_delimiter l ≡ false) (splitlines block)
    → Ending tail
    → find_closing_delimiter (block ++ (delimiter ++ tail)) ≡ some (length block)
unfolding find_closing_delimiter
find_closing-block block tail ends clean e =
    let f = Ending-FirstLine tail e in
    ap (find_from 0)
      (splitlines-block block (delimiter ++ tail) ends ∙ ap (λ ls. splitlines block ++ ls) f.cut)
    ∙ find_from-append 0 (splitlines block) f.line f.after clean f.closes
    ∙ ap some (omega (arith, ap length (concat-splitlines block)))

pub split_rest-block :
    (block tail : Text) (k : ℕ)
    → (block ≡ []) ⊎ Boundary block (delimiter ++ tail)
    → All (λ l. is_delimiter l ≡ false) (splitlines block)
    → Ending tail
    → split_rest (block ++ (delimiter ++ tail)) k
      ≡ ok (record { block = block; body = after_feed tail; opening_length = some k })
unfolding split_rest
split_rest-block block tail k ends clean e =
    rw (find_closing-block block tail ends clean e, split_rest)
      (λ i. ok (record {
        block = take-append_length block (delimiter ++ tail) i;
        body = after_feed (drop-append_length block (delimiter ++ tail) i);
        opening_length = some k;
      }))

pub split_parts-fenced : (rest : Text) → split_parts (delimiter ++ (10 ∷ rest)) ≡ split_rest rest 4
unfolding split_parts
split_parts-fenced rest = ap (split_rest rest) (omega arith)

pub split-fenced :
    (block tail : Text)
    → (block ≡ []) ⊎ Boundary block (delimiter ++ tail)
    → All (λ l. is_delimiter l ≡ false) (splitlines block)
    → Ending tail
    → split (delimiter ++ (10 ∷ (block ++ (delimiter ++ tail)))) ≡ ok (block, after_feed tail)
unfolding split
split-fenced block tail ends clean e =
    rw (
      split_parts-fenced (block ++ (delimiter ++ tail))
      ∙ split_rest-block block tail 4 ends clean e)

-- ===== src/Frontmatter/Search.antt =====
-- Where the search for the closing delimiter of coppermind/frontmatter.py ends, and what is left of a
-- text behind a prefix.
use coppermind.Base.{
  ℕ, ◌+◌, ◌≡◌, refl, ap, ◌∙◌, inl, inr, Bool, true, false, some, List, [], ◌∷◌, ◌++◌, length,
  length-append, drop, All, ◌==◌, Bool-cases, arith,
}
use coppermind.Base.Texts.{Text, elem, lstrip, starts_with}
use coppermind.Base.Lines.{concat}
use coppermind.Frontmatter.{is_delimiter, find_from, remove_feed, after_feed}

-- The end of a search: the first line that is a delimiter, and where it starts.
pub record Found (offset : ℕ) (lines : List Text) (end : ℕ) : Type 0 where
  pub before : List Text
  pub line : Text
  pub after : List Text
  pub cut : lines ≡ before ++ line ∷ after
  pub earlier : All (λ l. is_delimiter l ≡ false) before
  pub closes : is_delimiter line ≡ true
  pub reached : end ≡ offset + length (concat before)

pub find_from-Found :
    (offset : ℕ) (lines : List Text) (end : ℕ)
    → find_from offset lines ≡ some end
    → Found offset lines end
unfolding find_from
find_from-Found offset [] end h = cc
find_from-Found offset (l ∷ ls) end h = elim (Bool-cases (is_delimiter l)) [
  | inl e ↦ record {
    before = [];
    line = l;
    after = ls;
    cut = refl;
    earlier = tt;
    closes = e;
    reached = ground arith;
  }
  | inr e ↦
      let f = find_from-Found (offset + length l) ls end (rw e at h) in
      record {
        before = l ∷ f.before;
        line = f.line;
        after = f.after;
        cut = ap (λ m. l ∷ m) f.cut;
        earlier = (e, f.earlier);
        closes = f.closes;
        reached = omega (arith, f.reached, length-append {0} l (concat f.before));
      }
]

pub find_from-append :
    (offset : ℕ) (before : List Text) (line : Text) (after : List Text)
    → All (λ l. is_delimiter l ≡ false) before
    → is_delimiter line ≡ true
    → find_from offset (before ++ line ∷ after) ≡ some (offset + length (concat before))
unfolding find_from
find_from-append offset [] line after h e = rw e (ap some (omega arith))
find_from-append offset (l ∷ ls) line after (n, h) e = rw n (
    find_from-append (offset + length l) ls line after h e
    ∙ ap some (omega (arith, length-append {0} l (concat ls))))

-- `t` is what is left of `s` behind some prefix.
pub record Suffix (t s : Text) : Type 0 where
  pub prefix : Text
  pub rest : s ≡ prefix ++ t

pub Suffix-cons : (c : ℕ) (t s : Text) → Suffix t s → Suffix t (c ∷ s)
Suffix-cons c t s h = record { prefix = c ∷ h.prefix; rest = ap (λ u. c ∷ u) h.rest }

pub Suffix-refl : (s : Text) → Suffix s s
Suffix-refl s = record { prefix = []; rest = refl }

-- The end of a line and what stands behind it: either the end is a line feed, with none before it,
-- or there is no line feed and nothing stands behind.
pub data LineEnd (closing body : Text) : Type 0 where
  fed : (t : Text) → closing ≡ t ++ 10 ∷ [] → elem 10 t ≡ false → LineEnd closing body
  unfed : elem 10 closing ≡ false → body ≡ [] → LineEnd closing body

-- What `after_feed` cuts off.
pub record FeedCut (s : Text) : Type 0 where
  pub closing : Text
  pub rest : s ≡ closing ++ after_feed s
  pub ended : LineEnd closing (after_feed s)

LineEnd-cons :
    (c : ℕ) (closing body : Text)
    → (c == 10) ≡ false
    → LineEnd closing body
    → LineEnd (c ∷ closing) body
LineEnd-cons c closing body n (fed t e h) = fed (c ∷ t) (ap (λ u. c ∷ u) e) (ground arith)
LineEnd-cons c closing body n (unfed h e) = unfed (ground arith) e

pub after_feed-FeedCut : (s : Text) → FeedCut s
unfolding after_feed
after_feed-FeedCut [] = record { closing = []; rest = refl; ended = unfed refl refl }
after_feed-FeedCut (c ∷ s) = elim (Bool-cases (c == 10)) [
  | inl e ↦ record { closing = c ∷ []; rest = rw e refl; ended = fed [] (ground arith) refl }
  | inr e ↦
      let cut = after_feed-FeedCut s in
      record {
        closing = c ∷ cut.closing;
        rest = rw e (ap (λ u. c ∷ u) cut.rest);
        ended = rw e (LineEnd-cons c cut.closing (after_feed s) e cut.ended);
      }
]

pub lstrip-Suffix : (p : ℕ → Bool) (s : Text) → Suffix (lstrip p s) s
unfolding lstrip
lstrip-Suffix p [] = Suffix-refl []
lstrip-Suffix p (c ∷ s) = elim (Bool-cases (p c)) [
  | inl e ↦ rw e (Suffix-cons c (lstrip p s) s (lstrip-Suffix p s))
  | inr e ↦ rw e (Suffix-refl (c ∷ s))
]

pub remove_feed-Suffix : (s : Text) → Suffix (remove_feed s) s
remove_feed-Suffix [] = Suffix-refl []
remove_feed-Suffix (c ∷ s) = elim (Bool-cases (c == 10)) [
  | inl e ↦ rw e (Suffix-cons c s s (Suffix-refl s))
  | inr e ↦ rw e (Suffix-refl (c ∷ s))
]

pub starts_with-take : (p s : Text) → starts_with p s ≡ true → s ≡ p ++ drop (length p) s
unfolding starts_with
starts_with-take [] s h = refl
starts_with-take (d ∷ p) [] h = cc
starts_with-take (d ∷ p) (c ∷ s) h = ground (arith, starts_with-take p s)

pub starts_with-append : (p s : Text) → starts_with p (p ++ s) ≡ true
unfolding starts_with
starts_with-append [] s = refl
starts_with-append (d ∷ p) s = ground (arith, starts_with-append p s)

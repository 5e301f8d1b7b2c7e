-- ===== src/Base/Lines.antt =====
-- str.splitlines(keepends=True), and what cutting a text into lines keeps.
use coppermind.Base.Tests.{leb, ◌==◌, if◌then◌else◌, Bool-cases}
use coppermind.Base.Texts.{Text}
use Prim.Native.Nat.{ℕ}
use mathlib.Core.Path.{◌≡◌, refl, ap, sym, ◌∙◌}
use mathlib.Core.Logic.{◌≢◌, inl, inr}
use mathlib.Core.Bool.{Bool, true, false, ◌||◌, ◌&&◌, not}
use mathlib.Core.List.{List, [], ◌∷◌, ◌++◌, append_assoc, append_cancel_right}
use native.Mathlib.Omega.{arith}

-- The line boundaries of str.splitlines.
unfoldable pub is_break : ℕ → Bool
is_break c = leb 10 c && leb c 13 || leb 28 c && leb c 30 || c == 0x85 || c == 0x2028 || c == 0x2029

-- A carriage return before a line feed does not end its line yet.
abbrev pub joins : ℕ → Text → Bool
joins c [] = false
joins c (d ∷ s) = c == 13 && d == 10

abbrev pub push : ℕ → List Text → List Text
push c [] = (c ∷ []) ∷ []
push c (line ∷ lines) = (c ∷ line) ∷ lines

unfoldable pub splitlines : Text → List Text
unfolding is_break
splitlines [] = []
splitlines (c ∷ s) =
    let lines = splitlines s in
    if is_break c && not (joins c s) then (c ∷ []) ∷ lines else push c lines

abbrev pub concat : List Text → Text
concat [] = []
concat (line ∷ lines) = line ++ concat lines

concat-push : (c : ℕ) (lines : List Text) → concat (push c lines) ≡ c ∷ concat lines
concat-push c [] = refl
concat-push c (line ∷ lines) = refl

-- The lines of a text, put together again, are the text.
pub concat-splitlines : (s : Text) → concat (splitlines s) ≡ s
unfolding splitlines
concat-splitlines [] = refl
concat-splitlines (c ∷ s) = elim (Bool-cases (is_break c && not (joins c s))) [
  | inl e ↦ rw e (ap (λ t. c ∷ t) (concat-splitlines s))
  | inr e ↦ rw e (concat-push c (splitlines s) ∙ ap (λ t. c ∷ t) (concat-splitlines s))
]

pub concat-append : (xs ys : List Text) → concat (xs ++ ys) ≡ concat xs ++ concat ys
concat-append [] ys = refl
concat-append (x ∷ xs) ys = simp (concat-append xs ys, append_assoc)

-- A text that ends with a line feed.
abbrev pub EndsLine : Text → Type 0
EndsLine [] = ⊥
EndsLine (c ∷ []) = c ≡ 10
EndsLine (c ∷ d ∷ s) = EndsLine (d ∷ s)

-- `s` ends where a line of `s ++ t` ends.
abbrev pub Boundary : Text → Text → Type 0
Boundary [] t = ⊥
Boundary (c ∷ []) t = (is_break c && not (joins c t)) ≡ true
Boundary (c ∷ d ∷ s) t = Boundary (d ∷ s) t

pub EndsLine-Boundary : (s t : Text) → EndsLine s → Boundary s t
EndsLine-Boundary [] t h = h
EndsLine-Boundary (c ∷ []) t h = rw h (go t)
  where
    go : (t : Text) → (is_break 10 && not (joins 10 t)) ≡ true
    go [] = unfold is_break in refl
    go (d ∷ t) = unfold is_break in refl
EndsLine-Boundary (c ∷ d ∷ s) t h = EndsLine-Boundary (d ∷ s) t h

push-append :
    (c d : ℕ) (s : Text) (lines : List Text)
    → push c (splitlines (d ∷ s) ++ lines) ≡ push c (splitlines (d ∷ s)) ++ lines
unfolding splitlines
push-append c d s lines = elim (Bool-cases (is_break d && not (joins d s))) [
  | inl e ↦ rw e refl
  | inr e ↦ rw e (go (splitlines s))
]
  where
    go : (ls : List Text) → push c (push d ls ++ lines) ≡ push c (push d ls) ++ lines
    go [] = refl
    go (l ∷ ls) = refl

-- Behind the end of a line the lines start anew.
pub splitlines-append :
    (s t : Text) → Boundary s t → splitlines (s ++ t) ≡ splitlines s ++ splitlines t
unfolding splitlines
splitlines-append [] t h = absurd h
splitlines-append (c ∷ []) t h = rw h (go (is_break c && true))
  where
    go :
        (b : Bool)
        → (c ∷ []) ∷ splitlines t ≡ (if b then (c ∷ []) ∷ [] else (c ∷ []) ∷ []) ++ splitlines t
    go true = refl
    go false = refl
splitlines-append (c ∷ d ∷ s) t h = elim (Bool-cases (is_break c && not (joins c (d ∷ s)))) [
  | inl e ↦ rw e (ap (λ ls. (c ∷ []) ∷ ls) (splitlines-append (d ∷ s) t h))
  | inr e ↦ rw e (ap (push c) (splitlines-append (d ∷ s) t h) ∙ push-append c d s (splitlines t))
]

-- Where the lines of a text are cut in two, the first part ends a line.
lift-Boundary : (c : ℕ) (s t : Text) → Boundary s t → Boundary (c ∷ s) t
lift-Boundary c [] t h = absurd h
lift-Boundary c (d ∷ s) t h = h

splitlines-ne-nil : (c : ℕ) (s : Text) → splitlines (c ∷ s) ≢ []
unfolding splitlines
splitlines-ne-nil c s h = elim (Bool-cases (is_break c && not (joins c s))) [
  | inl e ↦ cc (rw e at h)
  | inr e ↦ go (splitlines s) (rw e at h)
]
  where
    go : (ls : List Text) → push c ls ≢ []
    go [] h = cc
    go (l ∷ ls) h = cc

cons_cut :
    (c : ℕ) (s : Text) (first : Text) (before after : List Text)
    → (c ∷ []) ∷ splitlines s ≡ first ∷ before ++ after
    → (first ≡ c ∷ []) × (splitlines s ≡ before ++ after)
cons_cut c s first before after h = ground arith

push_cut :
    (c : ℕ) (ls : List Text) (first : Text) (rest : List Text)
    → push c ls ≡ first ∷ rest
    → rest ≢ []
    → (l : Text) × (first ≡ c ∷ l) × (ls ≡ l ∷ rest)
push_cut c [] first rest h n = absurd (n (ground arith))
push_cut c (l ∷ ls) first rest h n = (l, ground arith, ground arith)

append-ne-nil : (before : List Text) (l : Text) (after : List Text) → before ++ l ∷ after ≢ []
append-ne-nil [] l after h = cc
append-ne-nil (b ∷ bs) l after h = cc

pub cut-Boundary :
    (s first : Text) (before : List Text) (l : Text) (after : List Text)
    → splitlines s ≡ first ∷ (before ++ l ∷ after)
    → Boundary (first ++ concat before) (concat (l ∷ after))
unfolding splitlines
cut-Boundary [] first before l after h = cc
cut-Boundary (c ∷ s) first before l after h = elim (Bool-cases (is_break c && not (joins c s))) [
  | inl e ↦
      let (same, rest) = cons_cut c s first before (l ∷ after) (rw e at h) in
      rw same (at_break e (λ b bs. cut-Boundary s b bs l after) before rest)
  | inr e ↦
      let (line, same, rest) =
        push_cut c (splitlines s) first (before ++ l ∷ after) (rw e at h)
          (append-ne-nil before l after) in
      rw same (lift-Boundary c (line ++ concat before) _ (cut-Boundary s line before l after rest))
]
  where
    at_break :
        (is_break c && not (joins c s)) ≡ true
        → ((b : Text) (bs : List Text)
            → splitlines s ≡ b ∷ (bs ++ l ∷ after)
            → Boundary (b ++ concat bs) (concat (l ∷ after)))
        → (before : List Text) → splitlines s ≡ before ++ l ∷ after
        → Boundary (c ∷ concat before) (concat (l ∷ after))
    at_break e ih [] rest = rw (← ap concat rest, concat-splitlines) e
    at_break e ih (b ∷ bs) rest =
        lift-Boundary c (b ++ concat bs) (concat (l ∷ after)) (ih b bs rest)

rest_cut :
    (s first : Text) (before : List Text) (l : Text) (after : List Text)
    → splitlines s ≡ first ∷ (before ++ l ∷ after)
    → splitlines (concat (l ∷ after)) ≡ l ∷ after
unfolding splitlines
rest_cut [] first before l after h = cc
rest_cut (c ∷ s) first before l after h = elim (Bool-cases (is_break c && not (joins c s))) [
  | inl e ↦
      at_break (λ b bs. rest_cut s b bs l after) before
        (cons_cut c s first before (l ∷ after) (rw e at h)).1
  | inr e ↦
      let (line, same, rest) =
        push_cut c (splitlines s) first (before ++ l ∷ after) (rw e at h)
          (append-ne-nil before l after) in
      rest_cut s line before l after rest
]
  where
    at_break :
        ((b : Text) (bs : List Text)
          → splitlines s ≡ b ∷ (bs ++ l ∷ after)
          → splitlines (concat (l ∷ after)) ≡ l ∷ after)
        → (before : List Text) → splitlines s ≡ before ++ l ∷ after
        → splitlines (concat (l ∷ after)) ≡ l ∷ after
    at_break ih [] rest = ap splitlines (ap concat (sym rest) ∙ concat-splitlines s) ∙ rest
    at_break ih (b ∷ bs) rest = ih b bs rest

-- The lines before a line of a text are the lines of what stands before it.
pub splitlines-before :
    (s : Text) (before : List Text) (l : Text) (after : List Text)
    → splitlines s ≡ before ++ l ∷ after
    → splitlines (concat before) ≡ before
splitlines-before s [] l after h = unfold splitlines in refl
splitlines-before s (b ∷ bs) l after h = append_cancel_right _ _ (l ∷ after) (
    ap (λ ls. splitlines (concat (b ∷ bs)) ++ ls) (sym (rest_cut s b bs l after h))
    ∙ sym (splitlines-append _ _ (cut-Boundary s b bs l after h))
    ∙ ap splitlines
        (sym (concat-append (b ∷ bs) (l ∷ after)) ∙ ap concat (sym h) ∙ concat-splitlines s)
    ∙ h)

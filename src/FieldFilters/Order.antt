-- ===== src/FieldFilters/Order.antt =====
-- The order of Python's str on the lists of its code points.
use coppermind.Base.{◌≡◌, true, false, [], ◌∷◌, arith, refl, Bool-cases, inl, inr}
use coppermind.Base.Texts.{precedes, Text}
use coppermind.FieldFilters.{later, earlier}

-- s <= t
unfoldable pub AtMost : Text → Text → Type 0
AtMost s t = precedes t s ≡ false

pub AtMost-trans : (s t u : Text) → AtMost s t → AtMost t u → AtMost s u
unfolding AtMost precedes
AtMost-trans [] t u h k = cc
AtMost-trans (c ∷ s) [] u h k = cc h
AtMost-trans (c ∷ s) (d ∷ t) [] h k = cc k
AtMost-trans (c ∷ s) (d ∷ t) (e ∷ u) h k = ground (arith, AtMost-trans s t u)

pub AtMost-refl : (s : Text) → AtMost s s
unfolding AtMost precedes
AtMost-refl [] = refl
AtMost-refl (c ∷ s) = ground (arith, AtMost-refl s)

precedes-AtMost : (s t : Text) → precedes s t ≡ true → AtMost s t
unfolding AtMost precedes
precedes-AtMost [] t h = refl
precedes-AtMost (c ∷ s) [] h = cc h
precedes-AtMost (c ∷ s) (d ∷ t) h = ground (arith, precedes-AtMost s t)

-- The later of two texts is at least each of them, and the earlier at most each.
pub AtMost-later : (s t : Text) → AtMost s (later s t) × AtMost t (later s t)
AtMost-later s t = elim (Bool-cases (precedes s t)) [
  | inl h ↦ rw h (precedes-AtMost s t h, AtMost-refl t)
  | inr h ↦ rw h (AtMost-refl s, unfold AtMost in h)
]

pub AtMost-earlier : (s t : Text) → AtMost (earlier s t) s × AtMost (earlier s t) t
AtMost-earlier s t = elim (Bool-cases (precedes t s)) [
  | inl h ↦ rw h (precedes-AtMost t s h, AtMost-refl t)
  | inr h ↦ rw h (AtMost-refl s, unfold AtMost in h)
]

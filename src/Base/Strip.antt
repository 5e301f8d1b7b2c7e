-- ===== src/Base/Strip.antt =====
-- What str.lstrip, str.rstrip and str.strip keep of a text.
use coppermind.Base.Tests.{Bool-cases}
use coppermind.Base.Texts.{Text, is_empty, lstrip, rstrip, strip, utf8_length, utf8_width}
use coppermind.Base.Lists.{length, All, take}
use Prim.Native.Nat.{ℕ, zero, suc, ◌+◌, ◌≤◌}
use mathlib.Core.Path.{refl, ap, ◌∙◌, ◌≡◌}
use mathlib.Core.Logic.{inl, inr}
use mathlib.Core.Bool.{Bool, ◌&&◌}
use mathlib.Core.List.{[], ◌∷◌, ◌++◌}
use native.Mathlib.Omega.{arith}

module _ {κ} (P : ℕ → Type κ) (p : ℕ → Bool) where
  pub All-lstrip : (s : Text) → All P s → All P (lstrip p s)
  unfolding lstrip
  All-lstrip [] h = tt
  All-lstrip (c ∷ s) (x, h) = elim (Bool-cases (p c)) [
    | inl e ↦ rw e (All-lstrip s h)
    | inr e ↦ rw e (x, h)
  ]

  pub All-rstrip : (s : Text) → All P s → All P (rstrip p s)
  unfolding rstrip
  All-rstrip [] h = tt
  All-rstrip (c ∷ s) (x, h) = elim (Bool-cases (is_empty (rstrip p s) && p c)) [
    | inl e ↦ rw e tt
    | inr e ↦ rw e (x, All-rstrip s h)
  ]

  pub All-strip : (s : Text) → All P s → All P (strip p s)
  unfolding strip
  All-strip s h = All-lstrip (rstrip p s) (All-rstrip s h)

-- A text within two budgets, of characters and of bytes.
pub record Within (chars bytes : ℕ) (s : Text) : Type 0 where
  pub chars_fit : length s ≤ chars
  pub bytes_fit : utf8_length s ≤ bytes

module _ (p : ℕ → Bool) where
  lstrip_le :
      (s : Text) → (length (lstrip p s) ≤ length s) × (utf8_length (lstrip p s) ≤ utf8_length s)
  unfolding lstrip utf8_length
  lstrip_le [] = omega arith
  lstrip_le (c ∷ s) = ground (arith, lstrip_le s)

  rstrip_le :
      (s : Text) → (length (rstrip p s) ≤ length s) × (utf8_length (rstrip p s) ≤ utf8_length s)
  unfolding rstrip utf8_length
  rstrip_le [] = omega arith
  rstrip_le (c ∷ s) = ground (arith, rstrip_le s)

  pub rstrip-Within : (n b : ℕ) (s : Text) → Within n b s → Within n b (rstrip p s)
  rstrip-Within n b s w = omega (arith, rstrip_le s)

  pub strip-Within : (n b : ℕ) (s : Text) → Within n b s → Within n b (strip p s)
  unfolding strip
  strip-Within n b s w = omega (arith, rstrip_le s, lstrip_le (rstrip p s))

pub utf8_length-append : (s t : Text) → utf8_length (s ++ t) ≡ utf8_length s + utf8_length t
unfolding utf8_length
utf8_length-append [] t = omega arith
utf8_length-append (c ∷ s) t = omega (arith, utf8_length-append s t)

pub length-le-utf8_length : (s : Text) → length s ≤ utf8_length s
unfolding utf8_length utf8_width
length-le-utf8_length [] = omega arith
length-le-utf8_length (c ∷ s) = ground (arith, length-le-utf8_length s)

pub All-take {κ} : (P : ℕ → Type κ) (n : ℕ) (s : Text) → All P s → All P (take n s)
All-take P zero s h = tt
All-take P (suc n) [] h = tt
All-take P (suc n) (c ∷ s) (x, h) = (x, All-take P n s h)

-- Stripping twice is stripping once.
module _ (p : ℕ → Bool) where
  rstrip_twice : (s : Text) → rstrip p (rstrip p s) ≡ rstrip p s
  unfolding rstrip
  rstrip_twice [] = refl
  rstrip_twice (c ∷ s) = elim (Bool-cases (is_empty (rstrip p s) && p c)) [
    | inl e ↦ rw e refl
    | inr e ↦ rw (e, rstrip_twice s, e) refl
  ]

  lstrip_twice : (s : Text) → lstrip p (lstrip p s) ≡ lstrip p s
  unfolding lstrip
  lstrip_twice [] = refl
  lstrip_twice (c ∷ s) = elim (Bool-cases (p c)) [
    | inl e ↦ rw e (lstrip_twice s)
    | inr e ↦ rw (e, e) refl
  ]

  -- A text that ends clean stays so where its beginning is stripped.
  rstrip-lstrip : (s : Text) → rstrip p s ≡ s → rstrip p (lstrip p s) ≡ lstrip p s
  unfolding lstrip rstrip
  rstrip-lstrip [] h = refl
  rstrip-lstrip (c ∷ s) h = elim (Bool-cases (p c)) [
    | inr e ↦ rw e h
    | inl e ↦ rw e (rstrip-lstrip s (ground arith))
  ]

  pub strip_twice : (s : Text) → strip p (strip p s) ≡ strip p s
  unfolding strip
  strip_twice s =
      ap (lstrip p) (rstrip-lstrip (rstrip p s) (rstrip_twice s)) ∙ lstrip_twice (rstrip p s)

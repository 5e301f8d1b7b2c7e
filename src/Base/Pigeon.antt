-- ===== src/Base/Pigeon.antt =====
-- A list that holds the first `n` values of an injective sequence has at least `n` entries.
use coppermind.Base.Tests.{if◌then◌else◌, Bool-cases}
use coppermind.Base.Texts.{Text, eqb, eqb_iff}
use coppermind.Base.Lists.{length, any}
use Prim.Native.Nat.{ℕ, zero, suc, ◌+◌, ◌≤◌, ◌<◌}
use mathlib.Core.Path.{◌≡◌}
use mathlib.Core.Logic.{◌≢◌, inl, inr}
use mathlib.Core.Bool.{true}
use mathlib.Core.List.{List, [], ◌∷◌}
use native.Mathlib.Omega.{arith}

erase : Text → List Text → List Text
erase t [] = []
erase t (s ∷ l) = let rest = s ∷ erase t l in if eqb t s then l else rest

length-erase : (t : Text) (l : List Text) → any (eqb t) l ≡ true → length (erase t l) + 1 ≡ length l
unfolding erase
length-erase t [] h = cc
length-erase t (s ∷ l) h = elim (Bool-cases (eqb t s)) [
  | inl e ↦ rw e (omega arith)
  | inr e ↦ rw e (omega (arith, length-erase t l (rw e at h)))
]

any-erase :
    (t u : Text) (l : List Text) → t ≢ u → any (eqb u) l ≡ true → any (eqb u) (erase t l) ≡ true
unfolding erase
any-erase t u [] n h = cc
any-erase t u (s ∷ l) n h = ground (arith, any-erase t u l n, eqb_iff t s, eqb_iff u s)

module _ (f : ℕ → Text) (injective : (m n : ℕ) → f m ≡ f n → m ≡ n) where
  -- The list holds the values from `k` to `k + n - 1`.
  abbrev pub Holds : ℕ → ℕ → List Text → Type 0
  Holds zero k l = Unit
  Holds (suc n) k l = (any (eqb (f k)) l ≡ true) × Holds n (k + 1) l

  Holds-erase : (n k j : ℕ) (l : List Text) → j < k → Holds n k l → Holds n k (erase (f j) l)
  Holds-erase zero k j l h p = tt
  Holds-erase (suc n) k j l h (here, rest) = (
    any-erase (f j) (f k) l (λ e. absurd (omega (arith, injective j k e))) here,
    Holds-erase n (k + 1) j l (omega arith) rest,
  )

  pub Holds-le : (n k : ℕ) (l : List Text) → Holds n k l → n ≤ length l
  Holds-le zero k l h = omega arith
  Holds-le (suc n) k l (here, rest) = omega (
    arith,
    length-erase (f k) l here,
    Holds-le n (k + 1) (erase (f k) l) (Holds-erase n (k + 1) k l (omega arith) rest),
  )

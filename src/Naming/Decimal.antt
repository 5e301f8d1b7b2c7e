-- ===== src/Naming/Decimal.antt =====
-- str of a number: it writes the number, in digits, and as few as ten to their power allows.
use coppermind.Base.{
  ℕ, zero, suc, ◌+◌, ◌-◌, ◌*◌, ◌/◌, ◌≤◌, ◌<◌, ◌≡◌, refl, sym, ap, ◌∙◌, inl, inr, [], ◌∷◌, ◌++◌,
  length, length-append, All, All-append, ltb, Bool-cases, arith,
}
use coppermind.Base.Texts.{Text}
use coppermind.Naming.{decimal, decimal_from, digit}

-- The number that decimal digits write.
value_from : ℕ → Text → ℕ
value_from acc [] = acc
value_from acc (d ∷ s) = value_from (acc * 10 + (d - b'0')) s

value_from-append :
    (acc d : ℕ) (s : Text) → value_from acc (s ++ d ∷ []) ≡ value_from acc s * 10 + (d - b'0')
unfolding value_from
value_from-append acc d [] = refl
value_from-append acc d (c ∷ s) = value_from-append (acc * 10 + (c - b'0')) d s

value-decimal : (fuel n : ℕ) → n < fuel → value_from 0 (decimal_from fuel n) ≡ n
unfolding decimal_from
value-decimal zero n h = absurd (omega arith)
value-decimal (suc fuel) n h = elim (Bool-cases (ltb n 10)) [
  | inl e ↦ rw e (unfold value_from in ground arith)
  | inr e ↦ rw e (
      value_from-append 0 (digit n) (decimal_from fuel (n / 10))
      ∙ omega (arith, value-decimal fuel (n / 10) (ground arith)))
]

pub decimal_injective : (m n : ℕ) → decimal m ≡ decimal n → m ≡ n
unfolding decimal
decimal_injective m n h =
    sym (value-decimal (suc m) m (omega arith))
    ∙ ap (value_from 0) h
    ∙ value-decimal (suc n) n (omega arith)

abbrev pub IsDigit : ℕ → Type 0
IsDigit c = (48 ≤ c) × (c ≤ 57)

digit-IsDigit : (n : ℕ) → IsDigit (digit n)
digit-IsDigit n = (omega arith, omega arith)

decimal_from-IsDigit : (fuel n : ℕ) → All IsDigit (decimal_from fuel n)
unfolding decimal_from
decimal_from-IsDigit zero n = tt
decimal_from-IsDigit (suc fuel) n = elim (Bool-cases (ltb n 10)) [
  | inl e ↦ rw e (digit-IsDigit n, tt)
  | inr e ↦ rw e (
      All-append IsDigit (decimal_from fuel (n / 10)) (digit n ∷ [])
        (decimal_from-IsDigit fuel (n / 10)) (digit-IsDigit n, tt))
]

pub decimal-IsDigit : (n : ℕ) → All IsDigit (decimal n)
unfolding decimal
decimal-IsDigit n = decimal_from-IsDigit (suc n) n

abbrev pub power : ℕ → ℕ
power zero = 1
power (suc k) = 10 * power k

length-decimal_from : (fuel n k : ℕ) → n < power k → length (decimal_from fuel n) ≤ suc k
unfolding decimal_from
length-decimal_from zero n k h = omega arith
length-decimal_from (suc fuel) n zero h = ground arith
length-decimal_from (suc fuel) n (suc k) h = elim (Bool-cases (ltb n 10)) [
  | inl e ↦ rw e (omega arith)
  | inr e ↦ rw e (
      omega (
        arith,
        length-append {0} (decimal_from fuel (n / 10)) (digit n ∷ []),
        length-decimal_from fuel (n / 10) k (omega arith),
      ))
]

pub length-decimal : (n k : ℕ) → n < power k → length (decimal n) ≤ suc k
unfolding decimal
length-decimal n k h = length-decimal_from (suc n) n k h

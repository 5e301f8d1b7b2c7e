-- ===== src/Base/Integers.antt =====
-- Python's int where it may be negative, over the native numbers.
use coppermind.Base.Tests.{ltb, ◌==◌}
use Prim.Native.Nat.{ℕ, zero, suc}
use mathlib.Core.Path.{◌≡◌, refl}
use mathlib.Core.Logic.{◌↔◌}
use mathlib.Core.Bool.{Bool, true, false}
use native.Mathlib.Omega.{arith}

-- `negsuc n` is -(n + 1).
pub data ℤ : Type 0 where
  pos negsuc : ℕ → ℤ

-- z + 1
unfoldable pub suc_int : ℤ → ℤ
suc_int (pos n) = pos (suc n)
suc_int (negsuc zero) = pos 0
suc_int (negsuc (suc n)) = negsuc n

abbrev pub int_eqb : ℤ → ℤ → Bool
int_eqb (pos m) (pos n) = m == n
int_eqb (negsuc m) (negsuc n) = m == n
int_eqb y z = false

pub int_eqb_iff : (y z : ℤ) → (int_eqb y z ≡ true) ↔ (y ≡ z)
int_eqb_iff (pos m) (pos n) = ground arith
int_eqb_iff (pos m) (negsuc n) = ground arith
int_eqb_iff (negsuc m) (pos n) = ground arith
int_eqb_iff (negsuc m) (negsuc n) = ground arith

-- z + n
abbrev pub add_times : ℕ → ℤ → ℤ
add_times zero z = z
add_times (suc n) z = suc_int (add_times n z)

abbrev int_ltb : ℤ → ℤ → Bool
int_ltb (pos m) (pos n) = ltb m n
int_ltb (pos m) (negsuc n) = false
int_ltb (negsuc m) (pos n) = true
int_ltb (negsuc m) (negsuc n) = ltb n m

int_ltb-suc_int : (y z : ℤ) → int_ltb y z ≡ true → int_ltb y (suc_int z) ≡ true
unfolding suc_int
int_ltb-suc_int (pos m) (pos n) h = ground arith
int_ltb-suc_int (pos m) (negsuc n) h = cc
int_ltb-suc_int (negsuc m) (pos n) h = refl
int_ltb-suc_int (negsuc m) (negsuc zero) h = refl
int_ltb-suc_int (negsuc m) (negsuc (suc n)) h = ground arith

int_ltb_next : (z : ℤ) → int_ltb z (suc_int z) ≡ true
unfolding suc_int
int_ltb_next (pos n) = ground arith
int_ltb_next (negsuc zero) = refl
int_ltb_next (negsuc (suc n)) = ground arith

int_ltb_irrefl : (z : ℤ) → int_ltb z z ≡ false
int_ltb_irrefl (pos n) = ground arith
int_ltb_irrefl (negsuc n) = ground arith

int_ltb-add_times : (n : ℕ) (z : ℤ) → int_ltb z (add_times (suc n) z) ≡ true
int_ltb-add_times zero z = int_ltb_next z
int_ltb-add_times (suc n) z = int_ltb-suc_int z (add_times (suc n) z) (int_ltb-add_times n z)

pub add_times_fixed : (n : ℕ) (z : ℤ) → add_times n z ≡ z → n ≡ 0
add_times_fixed zero z e = refl
add_times_fixed (suc n) z e =
    cc (sym_ltb (add_times (suc n) z) z e (int_ltb-add_times n z), int_ltb_irrefl z)
  where
    sym_ltb : (y w : ℤ) → y ≡ w → int_ltb w y ≡ true → int_ltb w w ≡ true
    sym_ltb y w e h = rw e at h

-- ===== src/Arith/Product.antt =====
-- src/vm/ms_vm.c: the overflow tests of addition, subtraction and multiplication are exact.
use mslang_cc.Base.{
  ℕ, zero, suc, ◌-◌, ◌*◌, ◌/◌, ◌^◌, ◌<◌, Bool, Option, none, some, ◌≡◌, arith, ltb, if◌then◌else◌,
}
use mslang_cc.Base.Int.{ℤ, pos, negsuc, ◌+ℤ◌, ◌-ℤ◌, ◌*ℤ◌}
use mslang_cc.Base.Words.{IsInt64}
use native.Mathlib.Nat.{div-lt_iff_lt-mul}
use mslang_cc.Arith.{checked_add, checked_sub, checked_mul}

-- Whether an integer is in the range of `int64_t`.
unfoldable pub fits : ℤ → Bool
fits (pos n) = ltb n (2 ^ 63)
fits (negsuc n) = ltb n (2 ^ 63)

-- The exact result, if it fits.
unfoldable pub exact : ℤ → Option ℤ
unfolding fits
exact z = if fits z then some z else none

pub exact-some : (z r : ℤ) → exact z ≡ some r → (r ≡ z) × IsInt64 r
unfolding exact
exact-some (pos n) (pos m) h = ground arith
exact-some (pos n) (negsuc m) h = ground arith
exact-some (negsuc n) (pos m) h = ground arith
exact-some (negsuc n) (negsuc m) h = ground arith

-- Addition of two `int64_t` gives the exact result when it fits, and gives up otherwise.
pub checked_add-exact : (l r : ℤ) → IsInt64 l → IsInt64 r → checked_add l r ≡ exact (l +ℤ r)
unfolding checked_add exact
checked_add-exact (pos a) (pos b) hl hr = ground arith
checked_add-exact (pos a) (negsuc b) hl hr = ground arith
checked_add-exact (negsuc a) (pos b) hl hr = ground arith
checked_add-exact (negsuc a) (negsuc b) hl hr = ground arith

-- Subtraction of two `int64_t` gives the exact result when it fits, and gives up otherwise.
pub checked_sub-exact : (l r : ℤ) → IsInt64 l → IsInt64 r → checked_sub l r ≡ exact (l -ℤ r)
unfolding checked_sub exact
checked_sub-exact (pos a) (pos b) hl hr = ground arith
checked_sub-exact (pos a) (negsuc b) hl hr = ground arith
checked_sub-exact (negsuc a) (pos b) hl hr = ground arith
checked_sub-exact (negsuc a) (negsuc b) hl hr = ground arith

-- a quotient test as a product test
quotient_lt : (n a b : ℕ) → (n / suc b < a → n < a * suc b) × (n < a * suc b → n / suc b < a)
quotient_lt n a b = div-lt_iff_lt-mul (omega arith)

-- Multiplication of two `int64_t` gives the exact product when it fits, and gives up otherwise: the
-- quotient tests neither miss an overflow nor refuse a product that fits.
pub checked_mul-exact : (l r : ℤ) → IsInt64 l → IsInt64 r → checked_mul l r ≡ exact (l *ℤ r)
unfolding checked_mul exact
checked_mul-exact (pos zero) (pos b) hl hr = ground arith
checked_mul-exact (pos zero) (negsuc b) hl hr = ground arith
checked_mul-exact (pos (suc a)) (pos zero) hl hr = ground arith
checked_mul-exact (pos (suc a)) (pos (suc b)) hl hr =
    ground (arith, quotient_lt (2 ^ 63 - 1) (suc a) b)
checked_mul-exact (pos (suc a)) (negsuc b) hl hr = ground (arith, quotient_lt (2 ^ 63) (suc b) a)
checked_mul-exact (negsuc a) (pos zero) hl hr = ground arith
checked_mul-exact (negsuc a) (pos (suc b)) hl hr = ground (arith, quotient_lt (2 ^ 63) (suc a) b)
checked_mul-exact (negsuc a) (negsuc b) hl hr = ground (arith, quotient_lt (2 ^ 63 - 1) (suc a) b)

-- ===== src/Floats.antt =====
-- The arithmetic of `double` and of <math.h>, which the sources call and do not define: an
-- interface with the operations they use, and the documented IEEE 754 facts that proofs rely on.
use mslang_cc.Base.{◌||◌, ℕ, ◌^◌, ◌≡◌, ◌⊎◌, Bool, true, false, ◌&&◌}
use mslang_cc.Base.Int.{ℤ, pos}
use mslang_cc.Base.Words.{int64_min}

pub record Floats : Type 1 where
  pub Double : Type 0
  -- `(double)i`; a literal such as `0.0` is the conversion of its integer
  pub of_int : ℤ → Double
  -- `(int64_t)d`, for a `d` in the range of `int64_t`
  pub trunc : Double → ℤ
  -- the eight bytes of `d` as a `uint64_t`
  pub bits : Double → ℕ
  -- `a == b` and `a < b`
  pub feq : Double → Double → Bool
  pub flt : Double → Double → Bool
  pub is_nan : Double → Bool
  pub is_inf : Double → Bool
  pub signbit : Double → Bool
  pub fneg : Double → Double
  pub fadd : Double → Double → Double
  pub fsub : Double → Double → Double
  pub fmul : Double → Double → Double
  pub fdiv : Double → Double → Double
  pub fpow : Double → Double → Double
  pub fmod : Double → Double → Double
  pub floor : Double → Double
  pub copysign : Double → Double → Double

module _ (F : Floats) where
  open F use {Double, of_int, trunc, bits, feq, flt, is_nan, is_inf}

  -- `0.0`
  abbrev pub float_zero : Double
  float_zero = of_int (pos 0)

  -- `d >= -9223372036854775808.0 && d < 9223372036854775808.0`; `a >= b` is `b < a || b == a`
  abbrev pub in_int64 : Double → Bool
  in_int64 d =
      (flt (of_int int64_min) d || feq (of_int int64_min) d) && flt d (of_int (pos (2 ^ 63)))

  -- What IEEE 754 says of the comparisons.
  pub record IsIeee : Type 0 where
    pub feq_symm : (a b : Double) → feq a b ≡ feq b a
    -- equal doubles are the same one, or both zeros
    pub feq_same :
        (a b : Double)
        → feq a b ≡ true
        → (a ≡ b) ⊎ ((feq a (of_int (pos 0)) ≡ true) × (feq b (of_int (pos 0)) ≡ true))
    -- both zeros are in the range of `int64_t` and truncate to the integer zero
    pub zero_range : (a : Double) → feq a (of_int (pos 0)) ≡ true → in_int64 a ≡ true
    pub zero_trunc : (a : Double) → feq a (of_int (pos 0)) ≡ true → trunc a ≡ pos 0
    -- a double that is no number is in no range, and an infinite one is outside of every finite one
    pub nan_range : (a : Double) → is_nan a ≡ true → in_int64 a ≡ false
    pub inf_range : (a : Double) → is_inf a ≡ true → in_int64 a ≡ false
    -- of an integer's double and a number one is below the other, or they are equal
    pub flt_total :
        (i : ℤ) (a : Double)
        → is_nan a ≡ false
        → flt a (of_int i) ≡ false
        → (flt (of_int i) a || feq (of_int i) a) ≡ true
    pub flt-feq : (a b : Double) → flt a b ≡ true → feq a b ≡ false
    pub flt_asymm : (a b : Double) → flt a b ≡ true → flt b a ≡ false

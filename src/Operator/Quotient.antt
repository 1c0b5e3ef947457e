-- ===== src/Operator/Quotient.antt =====
-- What the VM's division, floor division, remainder and power of two integers compute.
use mslang_cc.Base.{
  Bool, true, false, Option, some, ℕ, ◌^◌, ◌<◌, ◌≡◌, refl, ap, ◌∙◌, ◌⊎◌, inl, inr, arith,
  if◌then◌else◌, Bool-cases,
}
use mslang_cc.Base.Int.{ℤ, pos, negsuc, pos_part}
use mslang_cc.Base.Words.{IsInt64}
use mslang_cc.Arith.{
  is_neg, divides_badly, floor_div, floor_mod, checked_floor_div, checked_floor_mod, PowResult,
  done, overflow, out_of_fuel, int_pow,
}
use mslang_cc.Arith.Product.{fits}
use mslang_cc.Arith.Exponent.{power}
use mslang_cc.Arith.Power.{Computes, int_pow-Computes}
use mslang_cc.Floats.{Floats}
use mslang_cc.Object.{int}
use mslang_cc.Object.Equals.{same_int}
use mslang_cc.Opcode.{op_div, op_floordiv, op_mod, op_pow}
use mslang_cc.Operator.{
  integer_overflow, division_by_zero, new_int, new_float, raises, equality, int_binary_op,
  tagged_binary_op, object_binary_op,
}
use mslang_cc.Operator.Fast.{new_or, vm_int_pow, vm_int_op, vm_binary_op}
use mslang_cc.Operator.Exact.{fitted}
use mslang_cc.Object.HashLaws.{same_int-eq}
use mslang_cc.Arith.Range.{
  fits-exact, misfit-exact, in_range-fits, by_zero, floor_div-fits, bad-misfit,
}

module _ (F : Floats) where
  open F use {Double, of_int, fdiv, fpow}

  pow_cases :
      (z : ℤ) (p : PowResult)
      → Computes z p
      → ((p ≡ done z) × (fits z ≡ true)) ⊎ ((p ≡ overflow) × (fits z ≡ false))
  pow_cases z (done r) c = inl (ap done c.0, rw (← c.0) (in_range-fits r c.1))
  pow_cases z overflow c = inr (refl, c)
  pow_cases z out_of_fuel c = absurd c

  pow-fitted :
      (l : ℤ) (e : ℕ)
      → IsInt64 l
      → e < 2 ^ 63
      → vm_int_pow F (some (raises integer_overflow)) l (pos e) ≡ fitted F (power l e)
  unfolding vm_int_pow
  pow-fitted l e hl he =
      let sign : is_neg (pos e) ≡ false = ground arith in
      elim (pow_cases (power l e) (int_pow l e) (int_pow-Computes l e hl he)) [
        | inl (ran, fit) ↦ rw (sign, ran, vm_int_pow, fits-exact (power l e) fit) refl
        | inr (gone, big) ↦ rw (sign, gone, vm_int_pow, misfit-exact (power l e) big) refl
      ]

  floordiv-fitted :
      (l r : ℤ)
      → IsInt64 l
      → new_or F
          (some (if same_int r (pos 0) then raises division_by_zero else raises integer_overflow))
          (checked_floor_div l r)
        ≡ (if same_int r (pos 0) then some (raises division_by_zero) else fitted F (floor_div l r))
  unfolding checked_floor_div
  floordiv-fitted l r hl = elim (Bool-cases (same_int r (pos 0))) [
    | inl z ↦
        let bad : divides_badly l r ≡ true = rw (same_int-eq r (pos 0) z) (by_zero l) in
        rw (z, bad, checked_floor_div) refl
    | inr nz ↦ elim (Bool-cases (divides_badly l r)) [
      | inl bad ↦ rw (nz, bad, checked_floor_div, misfit-exact _ (bad-misfit l r nz bad)) refl
      | inr good ↦ rw (nz, good, checked_floor_div, fits-exact _ (floor_div-fits l r hl good)) refl
    ]
  ]

  mod-fitted :
      (l r : ℤ)
      → new_or F
          (some (if same_int r (pos 0) then raises division_by_zero else raises integer_overflow))
          (checked_floor_mod l r)
        ≡ some (
            if same_int r (pos 0)
            then raises division_by_zero
            else if divides_badly l r
            then raises integer_overflow
            else new_int (floor_mod l r))
  unfolding checked_floor_mod
  mod-fitted l r = elim (Bool-cases (same_int r (pos 0))) [
    | inl z ↦
        let bad : divides_badly l r ≡ true = rw (same_int-eq r (pos 0) z) (by_zero l) in
        rw (z, bad, checked_floor_mod) refl
    | inr nz ↦ elim (Bool-cases (divides_badly l r)) [
      | inl bad ↦ rw (nz, bad, checked_floor_mod) refl
      | inr good ↦ rw (nz, good, checked_floor_mod) refl
    ]
  ]

  pow-cases-fitted :
      (l r : ℤ)
      → IsInt64 l
      → IsInt64 r
      → vm_int_pow F (some (raises integer_overflow)) l r ≡ (
          if is_neg r
          then some (new_float (fpow (of_int l) (of_int r)))
          else fitted F (power l (pos_part r)))
  unfolding vm_int_pow
  pow-cases-fitted l (pos e) hl hr =
      let sign : is_neg (pos e) ≡ false = ground arith in pow-fitted l e hl hr ∙ rw sign refl
  pow-cases-fitted l (negsuc n) hl hr =
      let sign : is_neg (negsuc n) ≡ true = ground arith in rw (sign, vm_int_pow) refl

  -- On two `int64_t` values a division by zero of any kind is an error, and `/` gives the quotient of
  -- the doubles. Floor division gives the quotient rounded down where it fits an `int64_t`, and else
  -- the overflow error. The remainder is that of the floor division, and the overflow error where
  -- the least integer is divided by -1. The power with an exponent that is not negative is exact
  -- where it fits and else the overflow error; with a negative one it is that of the doubles.
  pub vm_binary_op-quotient :
      (equal : Option Bool) (l r : ℤ)
      → IsInt64 l
      → IsInt64 r
      → (vm_binary_op F equal op_div (int l) (int r) ≡ (
          if same_int r (pos 0)
          then some (raises division_by_zero)
          else some (new_float (fdiv (of_int l) (of_int r)))))
        × (vm_binary_op F equal op_floordiv (int l) (int r) ≡ (
            if same_int r (pos 0)
            then some (raises division_by_zero)
            else fitted F (floor_div l r)))
        × (vm_binary_op F equal op_mod (int l) (int r)
            ≡ some (
                if same_int r (pos 0)
                then raises division_by_zero
                else if divides_badly l r
                then raises integer_overflow
                else new_int (floor_mod l r)))
        × (vm_binary_op F equal op_pow (int l) (int r) ≡ (
            if is_neg r
            then some (new_float (fpow (of_int l) (of_int r)))
            else fitted F (power l (pos_part r))))
  unfolding vm_binary_op vm_int_op object_binary_op tagged_binary_op int_binary_op equality
  vm_binary_op-quotient equal l r hl hr = (
    elim (Bool-cases (same_int r (pos 0))) [ inl z ↦ rw z refl | inr nz ↦ rw nz refl ],
    floordiv-fitted l r hl,
    mod-fitted l r,
    pow-cases-fitted l r hl hr,
  )

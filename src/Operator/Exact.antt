-- ===== src/Operator/Exact.antt =====
-- What the VM's operators on two integers compute: the exact result, or an error where it does not
-- fit an `int64_t`.
use mslang_cc.Base.{
  Bool, false, Option, none, some, ◌^◌, ◌<◌, ◌≡◌, refl, ap, ◌∙◌, inl, inr, arith, if◌then◌else◌,
  Bool-cases, Option-cases,
}
use mslang_cc.Base.Int.{ℤ, pos, negsuc, pos_part, ◌+ℤ◌, ◌-ℤ◌, ◌*ℤ◌}
use mslang_cc.Base.Words.{IsInt64}
use mslang_cc.Arith.{floor_div, shift_right, checked_shift_left}
use mslang_cc.Arith.Product.{exact, checked_add-exact, checked_sub-exact, checked_mul-exact}
use mslang_cc.Arith.Shift.{checked_shift_left-exact, shift_right-floor_div}
use mslang_cc.Floats.{Floats}
use mslang_cc.Object.{int}
use mslang_cc.Opcode.{op_add, op_sub, op_mul, op_shl, op_shr}
use mslang_cc.Operator.{
  integer_overflow, shift_count, Answer, new_int, raises, bad_shift, equality, int_binary_op,
  tagged_binary_op, object_binary_op,
}
use mslang_cc.Operator.Fast.{new_or, vm_int_shift, vm_int_op, vm_binary_op}

module _ (F : Floats) where
  open F use {Double}

  -- a new integer, or the error that it does not fit
  abbrev pub fitted : ℤ → Option (Answer Double)
  fitted z = some (elim (exact z) [ none ↦ raises integer_overflow | some r ↦ new_int r ])

  fitted-or : (z : ℤ) → new_or F (some (raises integer_overflow)) (exact z) ≡ fitted z
  fitted-or z = elim (Option-cases (exact z)) [
    | inl stop ↦ rw stop refl
    | inr (v, fit) ↦ rw fit refl
  ]

  count_range : (r : ℤ) → bad_shift r ≡ false → pos_part r < 64
  count_range (pos n) h = ground arith
  count_range (negsuc n) h = ground arith

  shl-exact :
      (l r : ℤ)
      → IsInt64 l
      → vm_int_shift F (some (raises integer_overflow)) (checked_shift_left l (pos_part r)) r
        ≡ (if bad_shift r then some (raises shift_count) else fitted (l *ℤ pos (2 ^ pos_part r)))
  unfolding vm_int_shift
  shl-exact l r hl = elim (Bool-cases (bad_shift r)) [
    | inl bad ↦ rw (bad, vm_int_shift) refl
    | inr good ↦
        rw (good, vm_int_shift, checked_shift_left-exact l (pos_part r) hl (count_range r good))
          (fitted-or (l *ℤ pos (2 ^ pos_part r)))
  ]

  shr-exact :
      (l r : ℤ)
      → IsInt64 l
      → vm_int_shift F (some (raises integer_overflow)) (some (shift_right l (pos_part r))) r ≡ (
          if bad_shift r
          then some (raises shift_count)
          else some (new_int (floor_div l (pos (2 ^ pos_part r)))))
  unfolding vm_int_shift
  shr-exact l r hl = elim (Bool-cases (bad_shift r)) [
    | inl bad ↦ rw (bad, vm_int_shift) refl
    | inr good ↦ rw (good, vm_int_shift, shift_right-floor_div l (pos_part r) hl) refl
  ]

  -- On two `int64_t` values addition, subtraction, multiplication and a left shift by a count in
  -- range give the mathematical result where it fits an `int64_t` and else the overflow error; a
  -- right shift by a count in range gives the floor division by the power of two, and any other count
  -- of either shift is an error.
  pub vm_binary_op-exact :
      (equal : Option Bool) (l r : ℤ)
      → IsInt64 l
      → IsInt64 r
      → (vm_binary_op F equal op_add (int l) (int r) ≡ fitted (l +ℤ r))
        × (vm_binary_op F equal op_sub (int l) (int r) ≡ fitted (l -ℤ r))
        × (vm_binary_op F equal op_mul (int l) (int r) ≡ fitted (l *ℤ r))
        × (vm_binary_op F equal op_shl (int l) (int r) ≡ (
            if bad_shift r then some (raises shift_count) else fitted (l *ℤ pos (2 ^ pos_part r))))
        × (vm_binary_op F equal op_shr (int l) (int r) ≡ (
            if bad_shift r
            then some (raises shift_count)
            else some (new_int (floor_div l (pos (2 ^ pos_part r))))))
  unfolding vm_binary_op vm_int_op vm_int_shift object_binary_op tagged_binary_op int_binary_op
      equality
  vm_binary_op-exact equal l r hl hr = (
    ap (new_or F _) (checked_add-exact l r hl hr) ∙ fitted-or (l +ℤ r),
    ap (new_or F _) (checked_sub-exact l r hl hr) ∙ fitted-or (l -ℤ r),
    ap (new_or F _) (checked_mul-exact l r hl hr) ∙ fitted-or (l *ℤ r),
    shl-exact l r hl,
    shr-exact l r hl,
  )

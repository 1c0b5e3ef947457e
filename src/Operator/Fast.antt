-- ===== src/Operator/Fast.antt =====
-- The fast paths of src/vm/ms_vm.c before the operators of `Operator`: `msVmBinaryOp`, `msVmUnaryOp`,
-- `msVmComparisonFromOrder` and `msVmCompare`.
use mslang_cc.Base.{Bool, true, false, not, ◌&&◌, Option, none, some, leb, if◌then◌else◌}
use mslang_cc.Base.Int.{ℤ, pos, pos_part, ◌-ℤ◌}
use mslang_cc.Base.Words.{int64_min}
use mslang_cc.Arith.{
  is_neg, checked_mul, checked_add, checked_sub, checked_floor_div, checked_floor_mod, done,
  overflow, out_of_fuel, int_pow, shift_right, checked_shift_left,
}
use mslang_cc.Floats.{Floats, float_zero}
use mslang_cc.Object.{Object, int, float}
use mslang_cc.Object.Compare.{Order, less, same, greater, object_compare}
use mslang_cc.Object.Equals.{same_int}
use mslang_cc.Object.Hash.{is_truthy}
use mslang_cc.Opcode.{
  OpCode, op_add, op_sub, op_mul, op_div, op_floordiv, op_mod, op_pow, op_neg, op_not, op_bitand,
  op_bitor, op_bitxor, op_shl, op_shr, op_invert, op_eq, op_ne, op_lt, op_le, op_gt, op_ge, op_is,
  op_number,
}
use mslang_cc.Operator.{
  Fault, division_by_zero, shift_count, Answer, new_int, new_float, new_bool, raises, int_and,
  int_or, int_xor, int_invert, bad_shift, equality, object_binary_op, object_unary_op,
}

-- `msVmComparisonFromOrder`
unfoldable pub comparison_from_order : OpCode → Order → Bool
comparison_from_order op_eq o = elim o [ same ↦ true | _ ↦ false ]
comparison_from_order op_ne o = elim o [ same ↦ false | _ ↦ true ]
comparison_from_order op_lt o = elim o [ less ↦ true | _ ↦ false ]
comparison_from_order op_le o = elim o [ less ↦ true | same ↦ true | _ ↦ false ]
comparison_from_order op_gt o = elim o [ greater ↦ true | _ ↦ false ]
comparison_from_order op_ge o = elim o [ greater ↦ true | same ↦ true | _ ↦ false ]
comparison_from_order _ o = false

-- `op >= MS_OP_EQ && op <= MS_OP_GE`
unfoldable pub is_ordering : OpCode → Bool
is_ordering op = leb (op_number op_eq) (op_number op) && leb (op_number op) (op_number op_ge)

-- The result of `msVmCompare`. `not_bool` is `msBoolValue` of an object of another type.
pub data Compared : Type 0 where
  compared : Bool → Compared
  failed : Fault → Compared
  not_bool : Compared

module _ (F : Floats) where
  open F use {Double, of_int, feq, fneg, fadd, fsub, fmul, fdiv, fpow}

  abbrev pub new_or : Option (Answer Double) → Option ℤ → Option (Answer Double)
  new_or generic none = generic
  new_or generic (some z) = some (new_int z)

  -- the exponentiation of two integers
  unfoldable pub vm_int_pow : Option (Answer Double) → ℤ → ℤ → Option (Answer Double)
  vm_int_pow generic l r =
      if is_neg r
      then some (new_float (fpow (of_int l) (of_int r)))
      else elim (int_pow l (pos_part r)) [
        | done z ↦ some (new_int z)
        | overflow ↦ generic
        | out_of_fuel ↦ none
      ]

  unfoldable pub vm_int_shift : Option (Answer Double) → Option ℤ → ℤ → Option (Answer Double)
  vm_int_shift generic shifted r =
      if bad_shift r then some (raises shift_count) else new_or generic shifted

  -- the `switch` of `msVmBinaryOp` on two integers; `generic` is the call of `msObjectBinaryOp`
  unfoldable pub vm_int_op : Option (Answer Double) → OpCode → ℤ → ℤ → Option (Answer Double)
  vm_int_op generic op_add l r = new_or generic (checked_add l r)
  vm_int_op generic op_sub l r = new_or generic (checked_sub l r)
  vm_int_op generic op_mul l r = new_or generic (checked_mul l r)
  vm_int_op generic op_div l r =
      if same_int r (pos 0) then generic else some (new_float (fdiv (of_int l) (of_int r)))
  vm_int_op generic op_floordiv l r = new_or generic (checked_floor_div l r)
  vm_int_op generic op_mod l r = new_or generic (checked_floor_mod l r)
  vm_int_op generic op_pow l r = vm_int_pow generic l r
  vm_int_op generic op_bitand l r = some (new_int (int_and l r))
  vm_int_op generic op_bitor l r = some (new_int (int_or l r))
  vm_int_op generic op_bitxor l r = some (new_int (int_xor l r))
  vm_int_op generic op_shl l r = vm_int_shift generic (checked_shift_left l (pos_part r)) r
  vm_int_op generic op_shr l r = vm_int_shift generic (some (shift_right l (pos_part r))) r
  vm_int_op generic _ l r = generic

  -- the second `switch`, on two doubles; `none` for an operator that it is not entered with
  unfoldable pub vm_float_op : OpCode → Double → Double → Option (Answer Double)
  vm_float_op op_add a b = some (new_float (fadd a b))
  vm_float_op op_sub a b = some (new_float (fsub a b))
  vm_float_op op_mul a b = some (new_float (fmul a b))
  vm_float_op op_div a b =
      some (if feq b (float_zero F) then raises division_by_zero else new_float (fdiv a b))
  vm_float_op op_pow a b = some (new_float (fpow a b))
  vm_float_op _ a b = none

  -- `msVmIsNumeric` and `msVmNumericValue`
  unfoldable pub numeric_value : Object Double → Option Double
  numeric_value (int z) = some (of_int z)
  numeric_value (float d) = some d
  numeric_value _ = none

  -- `msVmBinaryOp` past the case of two integers
  unfoldable pub vm_numeric_op :
      Option (Answer Double) → OpCode → Option Double → Option Double → Option (Answer Double)
  vm_numeric_op generic op (some a) (some b) = elim (vm_float_op op a b) [
    | none ↦ generic
    | some answer ↦ some answer
  ]
  vm_numeric_op generic op _ _ = generic

  -- `msVmBinaryOp`
  unfoldable pub vm_binary_op :
      Option Bool → OpCode → Object Double → Object Double → Option (Answer Double)
  vm_binary_op equal op (int l) (int r) =
      vm_int_op (object_binary_op F equal op (int l) (int r)) op l r
  vm_binary_op equal op x y =
      vm_numeric_op (object_binary_op F equal op x y) op (numeric_value x) (numeric_value y)

  -- `msVmUnaryOp`
  unfoldable pub vm_unary_op : OpCode → Object Double → Answer Double
  vm_unary_op op_not x = new_bool (not (is_truthy F x))
  vm_unary_op op_neg (int v) =
      if same_int v int64_min then object_unary_op F op_neg (int v) else new_int (pos 0 -ℤ v)
  vm_unary_op op_invert (int v) = new_int (int_invert v)
  vm_unary_op op_neg (float d) = new_float (fneg d)
  vm_unary_op op x = object_unary_op F op x

  -- `msVmCompareNumeric`
  unfoldable pub compare_numeric : OpCode → Object Double → Object Double → Bool
  compare_numeric op x y = elim (object_compare F x y) [
    | none ↦ false
    | some o ↦ comparison_from_order op o
  ]

  -- both operands are numeric
  abbrev pub are_numeric : Object Double → Object Double → Bool
  are_numeric x y = elim (numeric_value x) [
    | none ↦ false
    | some _ ↦ elim (numeric_value y) [ none ↦ false | some _ ↦ true ]
  ]

  -- `msBoolValue(value)` of what `msObjectBinaryOp` returned, or its error
  unfoldable pub read_bool : Answer Double → Compared
  read_bool (new_bool b) = compared b
  read_bool (raises f) = failed f
  read_bool _ = not_bool

  -- `msVmCompare` past `MS_OP_IS`; `identical` is the test of the pointers
  unfoldable pub compare_values :
      Option Bool → Bool → OpCode → Object Double → Object Double → Option Compared
  compare_values equal identical op x y =
      if is_ordering op && are_numeric x y
      then some (compared (compare_numeric op x y))
      else elim (equality op true) [
        | some _ ↦ elim (if identical then some true else equal) [
          | none ↦ none
          | some e ↦ elim (equality op e) [ none ↦ none | some holds ↦ some (compared holds) ]
        ]
        | none ↦ elim (object_binary_op F equal op x y) [
          | none ↦ none
          | some answer ↦ some (read_bool answer)
        ]
      ]

  -- `msVmCompare` on the two operands that it popped
  unfoldable pub vm_compare :
      Option Bool → Bool → OpCode → Object Double → Object Double → Option Compared
  vm_compare equal identical op_is x y = some (compared identical)
  vm_compare equal identical op x y = compare_values equal identical op x y

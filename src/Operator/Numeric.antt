-- ===== src/Operator/Numeric.antt =====
-- The order of numbers in the VM against `msObjectValueEquals`.
use mslang_cc.Base.{Bool, true, Option, some, ◌≡◌, refl, sym, ap, ◌∙◌, arith}
use mslang_cc.Base.Int.{ℤ, pos, negsuc}
use mslang_cc.Floats.{Floats, IsIeee}
use mslang_cc.Object.{Ref, Object, int, float}
use mslang_cc.Object.Compare.{
  Order, less, same, greater, unordered, flip, int_compare, int_compare_float, float_compare,
  object_compare,
}
use mslang_cc.Object.CompareLaws.{int_compare_float-same}
use mslang_cc.Object.Equals.{same_int, int_equals_float, equal_objects}
use mslang_cc.Opcode.{op_eq}
use mslang_cc.Operator.Fast.{comparison_from_order, numeric_value, compare_numeric, are_numeric}

module _ (F : Floats) (ieee : IsIeee F) where
  open F use {Double, feq, flt}

  int-equal : (a b : ℤ) → comparison_from_order op_eq (int_compare a b) ≡ same_int a b
  unfolding comparison_from_order int_compare same_int
  int-equal (pos a) (pos b) = ground arith
  int-equal (pos a) (negsuc b) = ground arith
  int-equal (negsuc a) (pos b) = ground arith
  int-equal (negsuc a) (negsuc b) = ground arith

  float-equal : (a b : Double) → comparison_from_order op_eq (float_compare F a b) ≡ feq a b
  unfolding comparison_from_order float_compare
  float-equal a b = ground (arith, ieee.flt-feq a b, ieee.flt-feq b a, ieee.feq_symm a b)

  mixed-equal :
      (i : ℤ) (d : Double)
      → comparison_from_order op_eq (int_compare_float F i d) ≡ int_equals_float F i d
  unfolding comparison_from_order
  mixed-equal i d = ground (arith, int_compare_float-same F ieee i d)

  flip-equal : (o : Order) → comparison_from_order op_eq (flip o) ≡ comparison_from_order op_eq o
  unfolding comparison_from_order flip
  flip-equal less = refl
  flip-equal same = refl
  flip-equal greater = refl
  flip-equal unordered = refl

  -- On two numbers, `==` through the order of the VM is the equality of `msObjectValueEquals`,
  -- between integers, doubles and both, values that are no number included.
  pub compare_numeric-equal_objects :
      (equals : Ref → Ref → Option Bool) (x y : Object Double)
      → are_numeric F x y ≡ true
      → equal_objects F equals x y ≡ some (compare_numeric F op_eq x y)
  unfolding numeric_value compare_numeric object_compare equal_objects
  compare_numeric-equal_objects equals (int a) (int b) h = ap some (sym (int-equal a b))
  compare_numeric-equal_objects equals (float a) (float b) h = ap some (sym (float-equal a b))
  compare_numeric-equal_objects equals (int a) (float b) h = ap some (sym (mixed-equal a b))
  compare_numeric-equal_objects equals (float a) (int b) h =
      ap some (sym (flip-equal (int_compare_float F b a) ∙ mixed-equal b a))
  compare_numeric-equal_objects equals _ _ h = absurd cc

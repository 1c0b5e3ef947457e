-- ===== src/Operator/Agreement.antt =====
-- The fast paths of the VM against the operators that they shorten.
use mslang_cc.Base.{Bool, true, false, Option, none, some, ◌≡◌, refl, ◌⊎◌, inl, inr, if◌then◌else◌}
use mslang_cc.Base.Int.{pos, ◌-ℤ◌}
use mslang_cc.Base.Words.{int64_min}
use mslang_cc.Floats.{Floats}
use mslang_cc.Object.{Object, int, float}
use mslang_cc.Object.Equals.{same_int}
use mslang_cc.Opcode.{OpCode, op_add, op_sub, op_mul, op_div, op_pow, op_neg, op_not, op_invert}
use mslang_cc.Operator.{
  integer_overflow, Answer, new_int, raises, equality, numeric_binary_op, tagged_binary_op,
  object_binary_op, object_unary_op,
}
use mslang_cc.Operator.Fast.{vm_float_op, numeric_value, vm_numeric_op, vm_binary_op, vm_unary_op}

module _ (F : Floats) where
  open F use {Double, of_int}

  -- Both operands are integers.
  abbrev pub are_ints : Object Double → Object Double → Bool
  are_ints (int l) (int r) = true
  are_ints _ _ = false

  -- The fast path on doubles is not taken, or computes what the operator does.
  vm_float_op-numeric :
      (op : OpCode) (a b : Double)
      → (vm_float_op F op a b ≡ none)
        ⊎ ((vm_float_op F op a b ≡ some (numeric_binary_op F op a b)) × (equality op true ≡ none))
  unfolding vm_float_op numeric_binary_op equality
  vm_float_op-numeric op_add a b = inr (refl, refl)
  vm_float_op-numeric op_sub a b = inr (refl, refl)
  vm_float_op-numeric op_mul a b = inr (refl, refl)
  vm_float_op-numeric op_div a b = inr (refl, refl)
  vm_float_op-numeric op_pow a b = inr (refl, refl)
  vm_float_op-numeric _ a b = inl refl

  -- Where the operands are not both integers, the VM's fast paths give exactly what the general
  -- operator gives, results and errors, for every operator.
  pub vm_binary_op-object_binary_op :
      (equal : Option Bool) (op : OpCode) (x y : Object Double)
      → are_ints x y ≡ false
      → vm_binary_op F equal op x y ≡ object_binary_op F equal op x y
  unfolding vm_binary_op vm_numeric_op numeric_value object_binary_op tagged_binary_op
  vm_binary_op-object_binary_op equal op (int l) (int r) h = absurd cc
  vm_binary_op-object_binary_op equal op (int l) (float r) h =
      elim (vm_float_op-numeric op (of_int l) r) [
        | inl slow ↦ rw (slow, vm_binary_op, vm_numeric_op) refl
        | inr (fast, plain) ↦
            rw (fast, plain, vm_binary_op, vm_numeric_op, object_binary_op, tagged_binary_op) refl
      ]
  vm_binary_op-object_binary_op equal op (float l) (int r) h =
      elim (vm_float_op-numeric op l (of_int r)) [
        | inl slow ↦ rw (slow, vm_binary_op, vm_numeric_op) refl
        | inr (fast, plain) ↦
            rw (fast, plain, vm_binary_op, vm_numeric_op, object_binary_op, tagged_binary_op) refl
      ]
  vm_binary_op-object_binary_op equal op (float l) (float r) h = elim (vm_float_op-numeric op l r) [
    | inl slow ↦ rw (slow, vm_binary_op, vm_numeric_op) refl
    | inr (fast, plain) ↦
        rw (fast, plain, vm_binary_op, vm_numeric_op, object_binary_op, tagged_binary_op) refl
  ]
  vm_binary_op-object_binary_op equal op _ _ h = refl

  -- What the VM's negation and complement add to the general operator: the negation of an integer
  -- that has one. All else is the same.
  abbrev pub Unary : OpCode → Object Double → Answer Double → Type 0
  Unary op_neg (int v) answer =
      answer ≡ (if same_int v int64_min then raises integer_overflow else new_int (pos 0 -ℤ v))
  Unary op x answer = answer ≡ object_unary_op F op x

  -- The VM negates an integer unless it is the least one, which is an overflow; on every other
  -- operator and operand its fast path gives what the general operator gives.
  pub vm_unary_op-Unary : (op : OpCode) (x : Object Double) → Unary op x (vm_unary_op F op x)
  unfolding vm_unary_op object_unary_op
  vm_unary_op-Unary op_neg (int v) = refl
  vm_unary_op-Unary op_not x = refl
  vm_unary_op-Unary op_invert (int v) = refl
  vm_unary_op-Unary op_neg (float d) = refl
  vm_unary_op-Unary op x = refl

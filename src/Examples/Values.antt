-- ===== src/Examples/Values.antt =====
-- Runs of equality, hashing, ordering and the operators.
use mathlib.Core.Option.{some_inj}
use mslang_cc.Base.{
  Bool, true, false, none, some, List, [], ◌∷◌, ℕ, zero, suc, ◌^◌, ◌≡◌, refl, ◌↔◌, arith, ◌==◌,
  if◌then◌else◌,
}
use mslang_cc.Base.Int.{negsuc, pos, ◌+ℤ◌, ◌-ℤ◌, ◌*ℤ◌}
use mslang_cc.Base.Words.{int64_max, int64_min}
use mslang_cc.Arith.{floor_div, floor_mod, divides_badly, is_neg}
use mslang_cc.Arith.Exponent.{power}
use mslang_cc.Operator.Quotient.{vm_binary_op-quotient}
use mslang_cc.Object.{
  nil_ref, bool_ref, cached_ref, type_ref, proto_ref, cell_ref, int, float, string, list, Store,
  deref, same_ref,
}
use mslang_cc.Object.Compare.{same, int_compare_float}
use mslang_cc.Object.CompareLaws.{int_compare_float-same}
use mslang_cc.Object.Equals.{same_int, int_equals_float, equal_objects, value_equals}
use mslang_cc.Object.EqualsLaws.{value_equals_symm, IsLive, IsRanked, value_equals_total}
use mslang_cc.Object.Hash.{object_hash}
use mslang_cc.Object.HashLaws.{AllHashed, hash-value_equals}
use mslang_cc.Opcode.{
  op_pow, op_mod, op_floordiv, op_div, op_add, op_sub, op_mul, op_neg, op_shl, op_shr, op_eq, op_lt,
}
use mslang_cc.Operator.{
  new_float, division_by_zero, integer_overflow, shift_count, new_int, raises, bad_shift,
  object_binary_op,
}
use mslang_cc.Operator.Agreement.{vm_binary_op-object_binary_op, vm_unary_op-Unary}
use mslang_cc.Operator.Exact.{fitted, vm_binary_op-exact}
use mslang_cc.Operator.Fast.{numeric_value, vm_binary_op, vm_unary_op, compare_numeric, vm_compare}
use mslang_cc.Operator.Numeric.{compare_numeric-equal_objects}
use mslang_cc.Operator.Ordering.{IsVerdict, vm_compare-IsVerdict}
use mslang_cc.Examples.Doubles.{Toy, whole, nan, toy_equal, toy_below, toy_trunc, toy, toy-IsIeee}

-- An integer that is not cached, the double of the same value, and a list of both.
abbrev aa : List ℕ
aa = 97 ∷ 97 ∷ []

abbrev b_bytes : List ℕ
b_bytes = 98 ∷ []

abbrev store : Store Toy
store =
    some (int (pos 5000))
    ∷ some (float (whole (pos 5000)))
    ∷ some (list (cell_ref 0 ∷ cell_ref 1 ∷ []) 4)
    ∷ []

hashed : AllHashed store
unfolding deref
hashed nil_ref o e = rw (← some_inj.0 e) tt
hashed (bool_ref b) o e = rw (← some_inj.0 e) tt
hashed (cached_ref i) o e = rw (← some_inj.0 e) tt
hashed (type_ref t) o e = rw (← some_inj.0 e) tt
hashed (proto_ref p) o e = rw (← some_inj.0 e) tt
hashed (cell_ref zero) o e = rw (← some_inj.0 e) tt
hashed (cell_ref (suc zero)) o e = rw (← some_inj.0 e) tt
hashed (cell_ref (suc (suc zero))) o e = rw (← some_inj.0 e) tt
hashed (cell_ref (suc (suc (suc a)))) o e = absurd cc

hash-value_equals_example :
    object_hash toy (int (pos 5000)) ≡ object_hash toy (float (whole (pos 5000)))
unfolding deref value_equals equal_objects int_equals_float same_ref same_int toy_below toy_equal
    toy_trunc
hash-value_equals_example =
    hash-value_equals toy toy-IsIeee 1 store (cell_ref 0) (cell_ref 1) (int (pos 5000))
      (float (whole (pos 5000))) hashed refl refl refl

value_equals_symm_example :
    value_equals toy 2 store (cell_ref 2) (cell_ref 1)
    ≡ value_equals toy 2 store (cell_ref 1) (cell_ref 2)
value_equals_symm_example = value_equals_symm toy 2 store (cell_ref 2) (cell_ref 1) toy-IsIeee

abbrev depth : ℕ → ℕ
depth n = if n == 2 then 1 else 0

ranked : IsRanked store depth
unfolding deref
ranked nil_ref xs c e = absurd cc
ranked (bool_ref b) xs c e = absurd cc
ranked (cached_ref i) xs c e = absurd cc
ranked (type_ref t) xs c e = absurd cc
ranked (proto_ref p) xs c e = absurd cc
ranked (cell_ref zero) xs c e = absurd cc
ranked (cell_ref (suc zero)) xs c e = absurd cc
ranked (cell_ref (suc (suc zero))) xs c e =
    let same : cell_ref 0 ∷ cell_ref 1 ∷ [] ≡ xs = cc in
    rw (← same)
      ((int (pos 5000), refl), omega arith, ((float (whole (pos 5000)), refl), omega arith, tt))
ranked (cell_ref (suc (suc (suc a)))) xs c e = absurd cc

two-IsLive : IsLive store (cell_ref 2)
unfolding deref
two-IsLive = (list (cell_ref 0 ∷ cell_ref 1 ∷ []) 4, refl)

value_equals_total_example :
    (v : Bool) × (value_equals toy 3 store (cell_ref 2) (cell_ref 2) ≡ some v)
value_equals_total_example =
    value_equals_total toy store depth ranked 3 (cell_ref 2) (cell_ref 2) two-IsLive two-IsLive
      (omega arith)

int_compare_float-same_example :
    (int_compare_float toy (pos 7) nan ≡ same) ↔ (int_equals_float toy (pos 7) nan ≡ true)
int_compare_float-same_example = int_compare_float-same toy toy-IsIeee (pos 7) nan

vm_binary_op-object_binary_op_example :
    vm_binary_op toy none op_add (int (pos 1)) (float (whole (pos 2)))
    ≡ object_binary_op toy none op_add (int (pos 1)) (float (whole (pos 2)))
vm_binary_op-object_binary_op_example =
    vm_binary_op-object_binary_op toy none op_add (int (pos 1)) (float (whole (pos 2))) refl

vm_unary_op-Unary_example : vm_unary_op toy op_neg (int int64_min) ≡ raises integer_overflow
unfolding same_int
vm_unary_op-Unary_example = vm_unary_op-Unary toy op_neg (int int64_min)

vm_binary_op-exact_example :
    (vm_binary_op toy none op_add (int int64_max) (int (pos 3)) ≡ fitted toy (int64_max +ℤ pos 3))
    × (vm_binary_op toy none op_sub (int int64_max) (int (pos 3)) ≡ fitted toy (int64_max -ℤ pos 3))
    × (vm_binary_op toy none op_mul (int int64_max) (int (pos 3)) ≡ fitted toy (int64_max *ℤ pos 3))
    × (vm_binary_op toy none op_shl (int int64_max) (int (pos 3)) ≡ (
        if bad_shift (pos 3)
        then some (raises shift_count)
        else fitted toy (int64_max *ℤ pos (2 ^ 3))))
    × (vm_binary_op toy none op_shr (int int64_max) (int (pos 3)) ≡ (
        if bad_shift (pos 3)
        then some (raises shift_count)
        else some (new_int (floor_div int64_max (pos (2 ^ 3))))))
vm_binary_op-exact_example =
    vm_binary_op-exact toy none int64_max (pos 3) (omega arith) (omega arith)

vm_compare-IsVerdict_example :
    IsVerdict (vm_compare toy (some false) false op_lt (int (pos 1)) (string 0 []))
vm_compare-IsVerdict_example =
    vm_compare-IsVerdict toy (some false) false op_lt (int (pos 1)) (string 0 []) refl

compare_numeric-equal_objects_example :
    equal_objects toy (λ a b. none) (int (pos 5)) (float (whole (pos 5)))
    ≡ some (compare_numeric toy op_eq (int (pos 5)) (float (whole (pos 5))))
unfolding numeric_value
compare_numeric-equal_objects_example =
    compare_numeric-equal_objects toy toy-IsIeee (λ a b. none) (int (pos 5)) (float (whole (pos 5)))
      refl

vm_binary_op-quotient_example :
    (vm_binary_op toy none op_div (int (negsuc 6)) (int (pos 2))
      ≡ (if same_int (pos 2) (pos 0) then some (raises division_by_zero) else some (new_float nan)))
    × (vm_binary_op toy none op_floordiv (int (negsuc 6)) (int (pos 2)) ≡ (
        if same_int (pos 2) (pos 0)
        then some (raises division_by_zero)
        else fitted toy (floor_div (negsuc 6) (pos 2))))
    × (vm_binary_op toy none op_mod (int (negsuc 6)) (int (pos 2))
        ≡ some (
            if same_int (pos 2) (pos 0)
            then raises division_by_zero
            else if divides_badly (negsuc 6) (pos 2)
            then raises integer_overflow
            else new_int (floor_mod (negsuc 6) (pos 2))))
    × (vm_binary_op toy none op_pow (int (negsuc 6)) (int (pos 2))
        ≡ (if is_neg (pos 2) then some (new_float nan) else fitted toy (power (negsuc 6) 2)))
vm_binary_op-quotient_example =
    vm_binary_op-quotient toy none (negsuc 6) (pos 2) (omega arith) (omega arith)

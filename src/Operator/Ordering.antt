-- ===== src/Operator/Ordering.antt =====
-- What `msVmCompare` answers.
use mslang_cc.Base.{
  Bool, true, false, ◌&&◌, Option, none, some, List, ℕ, ◌≡◌, refl, inl, inr, if◌then◌else◌,
  Option-cases,
}
use mslang_cc.Base.Int.{ℤ}
use mslang_cc.Floats.{Floats}
use mslang_cc.Object.{Object, int, float, string}
use mslang_cc.Object.Compare.{string_compare}
use mslang_cc.Opcode.{OpCode, op_eq, op_ne, op_lt, op_le, op_gt, op_ge, op_is, op_in}
use mslang_cc.Operator.{
  binary_operands, Answer, new_bool, raises, string_order, equality, string_binary_op,
  int_binary_op, numeric_binary_op, tagged_binary_op, object_binary_op,
}
use mslang_cc.Operator.Fast.{
  compare_values, is_ordering, Compared, compared, failed, not_bool, compare_numeric, are_numeric,
  read_bool, vm_compare,
}

-- The opcodes that `msVmCompare` is called with.
abbrev pub is_comparison : OpCode → Bool
is_comparison op_eq = true
is_comparison op_ne = true
is_comparison op_lt = true
is_comparison op_le = true
is_comparison op_gt = true
is_comparison op_ge = true
is_comparison op_is = true
is_comparison op_in = true
is_comparison _ = false

-- A truth value, or the error about the types; `none` is an equality that has no answer.
abbrev pub IsVerdict : Option Compared → Type 0
IsVerdict none = Unit
IsVerdict (some (compared b)) = Unit
IsVerdict (some (failed f)) = f ≡ binary_operands
IsVerdict (some not_bool) = ⊥

module _ (F : Floats) where
  open F use {Double, feq, flt}

  int-operands :
      (op : OpCode) (l r : ℤ)
      → is_comparison op ≡ true
      → int_binary_op F op l r ≡ raises binary_operands
  unfolding int_binary_op
  int-operands op_eq l r h = refl
  int-operands op_ne l r h = refl
  int-operands op_lt l r h = refl
  int-operands op_le l r h = refl
  int-operands op_gt l r h = refl
  int-operands op_ge l r h = refl
  int-operands op_is l r h = refl
  int-operands op_in l r h = refl
  int-operands _ l r h = absurd cc

  numeric-operands :
      (op : OpCode) (a b : Double)
      → is_comparison op ≡ true
      → numeric_binary_op F op a b ≡ raises binary_operands
  unfolding numeric_binary_op
  numeric-operands op_eq a b h = refl
  numeric-operands op_ne a b h = refl
  numeric-operands op_lt a b h = refl
  numeric-operands op_le a b h = refl
  numeric-operands op_gt a b h = refl
  numeric-operands op_ge a b h = refl
  numeric-operands op_is a b h = refl
  numeric-operands op_in a b h = refl
  numeric-operands _ a b h = absurd cc

  tagged-operands :
      (op : OpCode) (x y : Object Double)
      → is_comparison op ≡ true
      → tagged_binary_op F op x y ≡ raises binary_operands
  unfolding tagged_binary_op
  tagged-operands op (int l) (int r) h = int-operands op l r h
  tagged-operands op (int l) (float b) h = numeric-operands op _ b h
  tagged-operands op (float a) (int r) h = numeric-operands op a _ h
  tagged-operands op (float a) (float b) h = numeric-operands op a b h
  tagged-operands op _ _ h = refl

  -- What the general operator answers to a comparison.
  abbrev IsTruth : Answer Double → Type 0
  IsTruth (new_bool b) = Unit
  IsTruth (raises f) = f ≡ binary_operands
  IsTruth _ = ⊥

  abbrev AllTruth : Option (Answer Double) → Type 0
  AllTruth none = Unit
  AllTruth (some answer) = IsTruth answer

  order-IsTruth :
      (o : Option Bool)
      → IsTruth (elim o [ none ↦ raises binary_operands | some holds ↦ new_bool holds ])
  order-IsTruth none = refl
  order-IsTruth (some b) = tt

  string-IsTruth :
      (op : OpCode) (a b : List ℕ) → is_comparison op ≡ true → IsTruth (string_binary_op F op a b)
  unfolding string_binary_op
  string-IsTruth op_eq a b h = order-IsTruth (string_order op_eq (string_compare a b))
  string-IsTruth op_ne a b h = order-IsTruth (string_order op_ne (string_compare a b))
  string-IsTruth op_lt a b h = order-IsTruth (string_order op_lt (string_compare a b))
  string-IsTruth op_le a b h = order-IsTruth (string_order op_le (string_compare a b))
  string-IsTruth op_gt a b h = order-IsTruth (string_order op_gt (string_compare a b))
  string-IsTruth op_ge a b h = order-IsTruth (string_order op_ge (string_compare a b))
  string-IsTruth op_is a b h = order-IsTruth (string_order op_is (string_compare a b))
  string-IsTruth op_in a b h = order-IsTruth (string_order op_in (string_compare a b))
  string-IsTruth _ a b h = absurd cc

  -- the equality test of the operator, with its parts abstracted
  equality-AllTruth :
      (equal : Option Bool) (q : Option Bool) (p : Bool → Option Bool) (answer : Answer Double)
      → IsTruth answer
      → AllTruth (elim q [
        | none ↦ some answer
        | some _ ↦ elim equal [
          | none ↦ none
          | some e ↦ elim (p e) [ none ↦ some answer | some holds ↦ some (new_bool holds) ]
        ]
      ])
  equality-AllTruth equal none p answer h = h
  equality-AllTruth none (some b) p answer h = tt
  equality-AllTruth (some e) (some b) p answer h = elim (Option-cases (p e)) [
    | inl stop ↦ rw stop h
    | inr (v, found) ↦ rw found tt
  ]

  operator-AllTruth :
      (equal : Option Bool) (op : OpCode) (x y : Object Double)
      → is_comparison op ≡ true
      → AllTruth (object_binary_op F equal op x y)
  unfolding object_binary_op
  operator-AllTruth equal op (string k a) (string l b) h = string-IsTruth op a b h
  operator-AllTruth equal op x y h =
      equality-AllTruth equal (equality op true) (equality op) (tagged_binary_op F op x y)
        (rw (tagged-operands op x y h) refl)

  read-IsVerdict :
      (o : Option (Answer Double))
      → AllTruth o
      → IsVerdict (elim o [ none ↦ none | some answer ↦ some (read_bool F answer) ])
  unfolding read_bool
  read-IsVerdict none h = tt
  read-IsVerdict (some (new_bool b)) h = tt
  read-IsVerdict (some (raises f)) h = h
  read-IsVerdict (some _) h = absurd h

  -- the comparison past `MS_OP_IS`, with its parts abstracted
  body-IsVerdict :
      (c v : Bool) (q found : Option Bool) (p : Bool → Option Bool) (o : Option (Answer Double))
      → AllTruth o
      → IsVerdict (
          if c then some (compared v) else elim q [
            | some _ ↦ elim found [
              | none ↦ none
              | some e ↦ elim (p e) [ none ↦ none | some holds ↦ some (compared holds) ]
            ]
            | none ↦ elim o [ none ↦ none | some answer ↦ some (read_bool F answer) ]
          ])
  body-IsVerdict true v q found p o h = tt
  body-IsVerdict false v none found p o h = read-IsVerdict o h
  body-IsVerdict false v (some b) none p o h = tt
  body-IsVerdict false v (some b) (some e) p o h = elim (Option-cases (p e)) [
    | inl stop ↦ rw stop tt
    | inr (w, found) ↦ rw found tt
  ]

  values-IsVerdict :
      (equal : Option Bool) (identical : Bool) (op : OpCode) (x y : Object Double)
      → is_comparison op ≡ true
      → IsVerdict (compare_values F equal identical op x y)
  unfolding compare_values
  values-IsVerdict equal identical op x y h =
      body-IsVerdict (is_ordering op && are_numeric F x y) (compare_numeric F op x y)
        (equality op true) (if identical then some true else equal) (equality op)
        (object_binary_op F equal op x y) (operator-AllTruth equal op x y h)

  -- A comparison of the VM never reads a truth value from an object of another type: where it ends
  -- it answers with a truth value, or with the error that the types do not fit.
  pub vm_compare-IsVerdict :
      (equal : Option Bool) (identical : Bool) (op : OpCode) (x y : Object Double)
      → is_comparison op ≡ true
      → IsVerdict (vm_compare F equal identical op x y)
  unfolding vm_compare
  vm_compare-IsVerdict equal identical op_is x y h = tt
  vm_compare-IsVerdict equal identical op x y h = values-IsVerdict equal identical op x y h

-- ===== src/Object/Equals.antt =====
-- `msObjectValueEquals` and `msStringEquals`. The recursion through lists has no bound in the
-- source (a list can hold itself), so it takes fuel here; `none` is no fuel, or a dangling pointer.
use mslang_cc.Base.{
  ℕ, zero, suc, Bool, true, false, Option, none, some, List, [], ◌∷◌, length, ◌==◌, ◌&&◌,
  if◌then◌else◌,
}
use mslang_cc.Base.Int.{ℤ, pos, negsuc}
use mslang_cc.Floats.{Floats, in_int64}
use mslang_cc.Object.{
  Ref, Object, nil, bool, int, float, string, list, Store, deref, same_ref, same_bool,
}

unfoldable pub same_int : ℤ → ℤ → Bool
same_int (pos a) (pos b) = a == b
same_int (negsuc a) (negsuc b) = a == b
same_int _ _ = false

-- `memcmp` of two byte sequences of one length is zero
unfoldable pub same_bytes : List ℕ → List ℕ → Bool
same_bytes [] [] = true
same_bytes (x ∷ xs) (y ∷ ys) = x == y && same_bytes xs ys
same_bytes _ _ = false

-- `msStringEquals` on strings at two addresses
unfoldable pub string_equals : List ℕ → List ℕ → Bool
unfolding same_bytes
string_equals a b = if length a == length b then same_bytes a b else false

module _ (F : Floats) where
  open F use {Double, of_int, trunc, feq}

  -- the comparison of an `int` and a `float`
  unfoldable pub int_equals_float : ℤ → Double → Bool
  unfolding same_int
  int_equals_float i d =
      if in_int64 F d
      then (if feq (of_int (trunc d)) d then same_int (trunc d) i else false)
      else false

  -- the loop over two lists of one length; `equals` is the recursive call
  unfoldable pub equal_items : (Ref → Ref → Option Bool) → List Ref → List Ref → Option Bool
  equal_items equals (x ∷ xs) (y ∷ ys) =
      let rest = equal_items equals xs ys in
      elim (equals x y) [ some true ↦ rest | some false ↦ some false | none ↦ none ]
  equal_items equals _ _ = some true

  -- what follows the identity test: the cross-tag comparison and the `switch`
  unfoldable pub equal_objects :
      (Ref → Ref → Option Bool) → Object Double → Object Double → Option Bool
  unfolding int_equals_float string_equals equal_items same_int
  equal_objects equals nil nil = some true
  equal_objects equals (bool a) (bool b) = some (same_bool a b)
  equal_objects equals (int a) (int b) = some (same_int a b)
  equal_objects equals (float a) (float b) = some (feq a b)
  equal_objects equals (int a) (float b) = some (int_equals_float a b)
  equal_objects equals (float a) (int b) = some (int_equals_float b a)
  equal_objects equals (string h a) (string k b) = some (string_equals a b)
  equal_objects equals (list xs c) (list ys d) =
      if length xs == length ys then equal_items equals xs ys else some false
  equal_objects equals _ _ = some false

  -- an object and itself: only a float may differ, since it may be no number
  unfoldable pub equal_itself : Object Double → Bool
  equal_itself (float d) = feq d d
  equal_itself _ = true

  unfoldable pub value_equals : ℕ → Store Double → Ref → Ref → Option Bool
  unfolding equal_objects equal_itself same_ref deref
  value_equals zero s a b = none
  value_equals (suc fuel) s a b =
      let deep = value_equals fuel s in
      elim (deref s a) [
        | none ↦ none
        | some x ↦ elim (deref s b) [
          | none ↦ none
          | some y ↦ if same_ref a b then some (equal_itself x) else equal_objects deep x y
        ]
      ]

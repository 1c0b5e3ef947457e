-- ===== src/Object/Compare.antt =====
-- The ordering of src/object/ms_operator.c: `msStringCompare`, `msObjectCompareIntFloat` and
-- `msObjectCompare`.
use mslang_cc.Base.{ℕ, ◌^◌, Option, none, some, List, [], ◌∷◌, ltb, if◌then◌else◌, ◌||◌}
use mslang_cc.Base.Int.{ℤ, pos, ltb_ℤ}
use mslang_cc.Base.Words.{int64_min}
use mslang_cc.Floats.{Floats, float_zero}
use mslang_cc.Object.{Object, int, float, string}

-- -1, 0, 1 and `MS_OBJECT_COMPARE_UNORDERED`
pub data Order : Type 0 where
  less same greater unordered : Order

-- `-*order`, which leaves the fourth value alone
unfoldable pub flip : Order → Order
flip less = greater
flip same = same
flip greater = less
flip unordered = unordered

-- `memcmp` on the common prefix, then the lengths: the sign of the result
unfoldable pub string_compare : List ℕ → List ℕ → Order
string_compare [] [] = same
string_compare [] (y ∷ ys) = less
string_compare (x ∷ xs) [] = greater
string_compare (x ∷ xs) (y ∷ ys) =
    let rest = string_compare xs ys in if ltb x y then less else if ltb y x then greater else rest

unfoldable pub int_compare : ℤ → ℤ → Order
int_compare a b = if ltb_ℤ a b then less else if ltb_ℤ b a then greater else same

module _ (F : Floats) where
  open F use {Double, of_int, trunc, feq, flt, is_nan, is_inf}

  unfoldable pub int_compare_float : ℤ → Double → Order
  int_compare_float i d =
      if is_nan d
      then unordered
      else if is_inf d
      then (if flt (float_zero F) d then less else greater)
      else if (flt (of_int (pos (2 ^ 63))) d || feq (of_int (pos (2 ^ 63))) d)
      then less
      else if flt d (of_int int64_min)
      then greater
      else if ltb_ℤ i (trunc d)
      then less
      else if ltb_ℤ (trunc d) i
      then greater
      else if feq (of_int (trunc d)) d
      then same
      else if flt (float_zero F) d
      then less
      else greater

  unfoldable pub float_compare : Double → Double → Order
  float_compare a b =
      if flt a b then less else if flt b a then greater else if feq a b then same else unordered

  -- `none` where the function returns false
  unfoldable pub object_compare : Object Double → Object Double → Option Order
  unfolding int_compare int_compare_float float_compare flip string_compare
  object_compare (int a) (int b) = some (int_compare a b)
  object_compare (float a) (float b) = some (float_compare a b)
  object_compare (int a) (float b) = some (int_compare_float a b)
  object_compare (float a) (int b) = some (flip (int_compare_float b a))
  object_compare (string h a) (string k b) = some (string_compare a b)
  object_compare _ _ = none

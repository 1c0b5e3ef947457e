-- ===== src/Object/CompareLaws.antt =====
-- src/object/ms_operator.c: the order of strings is total, and the order of numbers agrees with
-- `msObjectValueEquals`.
use mslang_cc.Base.{◌^◌, ℕ, true, List, [], ◌∷◌, ◌≡◌, refl, arith, ◌↔◌}
use mslang_cc.Base.Int.{ℤ, pos, negsuc}
use mslang_cc.Base.Words.{int64_min}
use mslang_cc.Floats.{Floats, IsIeee}
use mslang_cc.Object.Equals.{same_int, int_equals_float}
use mslang_cc.Object.Compare.{less, same, flip, string_compare, int_compare, int_compare_float}

string_compare-flip : (a b : List ℕ) → string_compare b a ≡ flip (string_compare a b)
unfolding string_compare flip
string_compare-flip [] [] = refl
string_compare-flip [] (y ∷ ys) = refl
string_compare-flip (x ∷ xs) [] = refl
string_compare-flip (x ∷ xs) (y ∷ ys) = ground (arith, string_compare-flip xs ys)

string_compare-same : (a b : List ℕ) → string_compare a b ≡ same → a ≡ b
unfolding string_compare
string_compare-same [] [] h = refl
string_compare-same [] (y ∷ ys) h = cc
string_compare-same (x ∷ xs) [] h = cc
string_compare-same (x ∷ xs) (y ∷ ys) h = ground (arith, string_compare-same xs ys)

string_compare_self : (a : List ℕ) → string_compare a a ≡ same
unfolding string_compare
string_compare_self [] = refl
string_compare_self (x ∷ xs) = ground (arith, string_compare_self xs)

-- The comparison of strings is antisymmetric in its sign and says "equal" of exactly the pairs with
-- the same bytes.
pub string_compare_total :
    (a b : List ℕ)
    → (string_compare b a ≡ flip (string_compare a b)) × ((string_compare a b ≡ same) ↔ (a ≡ b))
string_compare_total a b =
    (string_compare-flip a b, (string_compare-same a b, λ e. rw e (string_compare_self b)))

-- A string below a second one that is below a third is below the third.
pub string_compare_trans :
    (a b c : List ℕ)
    → string_compare a b ≡ less
    → string_compare b c ≡ less
    → string_compare a c ≡ less
unfolding string_compare
string_compare_trans [] [] [] h k = cc
string_compare_trans [] (y ∷ ys) [] h k = cc
string_compare_trans [] b (z ∷ zs) h k = refl
string_compare_trans (x ∷ xs) [] c h k = cc
string_compare_trans (x ∷ xs) (y ∷ ys) [] h k = cc
string_compare_trans (x ∷ xs) (y ∷ ys) (z ∷ zs) h k = ground (arith, string_compare_trans xs ys zs)

pub int_compare-same : (a b : ℤ) → (int_compare a b ≡ same) ↔ (same_int a b ≡ true)
unfolding int_compare same_int
int_compare-same (pos a) (pos b) = ground arith
int_compare-same (pos a) (negsuc b) = ground arith
int_compare-same (negsuc a) (pos b) = ground arith
int_compare-same (negsuc a) (negsuc b) = ground arith

module _ (F : Floats) (ieee : IsIeee F) where
  open F use {Double, of_int, trunc, feq, flt, is_nan, is_inf}

  -- An `int` and a `float` compare as "equal" exactly when `msObjectValueEquals` calls them equal,
  -- over the whole range of both, values that are no number and infinities included.
  pub int_compare_float-same :
      (i : ℤ) (d : Double) → (int_compare_float F i d ≡ same) ↔ (int_equals_float F i d ≡ true)
  unfolding int_compare_float int_equals_float int_compare
  int_compare_float-same i d =
      let c = int_compare-same i (trunc d) in
      let low = int64_min in
      let high = pos (2 ^ 63) in
      (
        ground (arith, c.0, ieee.flt_total low d, ieee.flt_total high d),
        ground (
          arith,
          c.1,
          ieee.nan_range d,
          ieee.inf_range d,
          ieee.flt_asymm d (of_int high),
          ieee.flt-feq d (of_int high),
          ieee.feq_symm d (of_int high),
          ieee.flt_asymm d (of_int low),
          ieee.flt-feq d (of_int low),
          ieee.feq_symm d (of_int low),
        ),
      )

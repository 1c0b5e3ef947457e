-- ===== src/Examples/Doubles.antt =====
-- Doubles to run the code with: the integers and one value that is no number. Whole doubles are
-- enough to take every branch on them that the runs need.
use mslang_cc.Base.{Bool, true, false, ◌||◌, ◌≡◌, refl, ap, inl, arith, ==_iff}
use mslang_cc.Base.Int.{ℤ, pos, negsuc, ◌+ℤ◌, ◌-ℤ◌, ◌*ℤ◌, ltb_ℤ}
use mslang_cc.Base.Words.{to_uint64}
use mslang_cc.Floats.{Floats, in_int64, IsIeee}
use mslang_cc.Object.Equals.{same_int}

pub data Toy : Type 0 where
  whole : ℤ → Toy
  nan : Toy

unfoldable pub toy_equal : Toy → Toy → Bool
unfolding same_int
toy_equal (whole a) (whole b) = same_int a b
toy_equal _ _ = false

unfoldable pub toy_below : Toy → Toy → Bool
toy_below (whole a) (whole b) = ltb_ℤ a b
toy_below _ _ = false

unfoldable pub toy_trunc : Toy → ℤ
toy_trunc (whole a) = a
toy_trunc nan = pos 0

unfoldable pub toy_nan : Toy → Bool
toy_nan (whole a) = false
toy_nan nan = true

-- an operation on whole numbers
unfoldable pub toy_lift : (ℤ → ℤ → ℤ) → Toy → Toy → Toy
toy_lift f (whole a) (whole b) = whole (f a b)
toy_lift f _ _ = nan

abbrev pub toy : Floats
toy = record {
  Double = Toy;
  of_int = whole;
  trunc = toy_trunc;
  bits = λ d. to_uint64 (toy_trunc d);
  feq = toy_equal;
  flt = toy_below;
  is_nan = toy_nan;
  is_inf = λ d. false;
  signbit = λ d. toy_below d (whole (pos 0));
  fneg = toy_lift ◌-ℤ◌ (whole (pos 0));
  fadd = toy_lift ◌+ℤ◌;
  fsub = toy_lift ◌-ℤ◌;
  fmul = toy_lift ◌*ℤ◌;
  fdiv = λ a b. nan;
  fpow = λ a b. nan;
  fmod = λ a b. nan;
  floor = λ a. a;
  copysign = λ a b. a;
}

toy_equal_symm : (a b : Toy) → toy_equal a b ≡ toy_equal b a
unfolding toy_equal same_int
toy_equal_symm (whole (pos a)) (whole (pos b)) = ground arith
toy_equal_symm (whole (negsuc a)) (whole (negsuc b)) = ground arith
toy_equal_symm (whole (pos a)) (whole (negsuc b)) = refl
toy_equal_symm (whole (negsuc a)) (whole (pos b)) = refl
toy_equal_symm (whole a) nan = refl
toy_equal_symm nan (whole b) = refl
toy_equal_symm nan nan = refl

toy_equal_same : (a b : Toy) → toy_equal a b ≡ true → a ≡ b
unfolding toy_equal same_int
toy_equal_same (whole (pos a)) (whole (pos b)) h = ap (λ n. whole (pos n)) ((==_iff a b).0 h)
toy_equal_same (whole (negsuc a)) (whole (negsuc b)) h =
    ap (λ n. whole (negsuc n)) ((==_iff a b).0 h)
toy_equal_same (whole (pos a)) (whole (negsuc b)) h = absurd cc
toy_equal_same (whole (negsuc a)) (whole (pos b)) h = absurd cc
toy_equal_same (whole a) nan h = absurd cc
toy_equal_same nan (whole b) h = absurd cc
toy_equal_same nan nan h = absurd cc

toy_total :
    (i : ℤ) (a : Toy)
    → toy_nan a ≡ false
    → toy_below a (whole i) ≡ false
    → (toy_below (whole i) a || toy_equal (whole i) a) ≡ true
unfolding toy_equal same_int toy_below toy_nan
toy_total (pos i) (whole (pos a)) h k = ground arith
toy_total (pos i) (whole (negsuc a)) h k = ground arith
toy_total (negsuc i) (whole (pos a)) h k = ground arith
toy_total (negsuc i) (whole (negsuc a)) h k = ground arith
toy_total i nan h k = absurd cc

toy_below-equal : (a b : Toy) → toy_below a b ≡ true → toy_equal a b ≡ false
unfolding toy_equal same_int toy_below
toy_below-equal (whole (pos a)) (whole (pos b)) h = ground arith
toy_below-equal (whole (pos a)) (whole (negsuc b)) h = ground arith
toy_below-equal (whole (negsuc a)) (whole (pos b)) h = ground arith
toy_below-equal (whole (negsuc a)) (whole (negsuc b)) h = ground arith
toy_below-equal (whole a) nan h = refl
toy_below-equal nan b h = refl

toy_below_asymm : (a b : Toy) → toy_below a b ≡ true → toy_below b a ≡ false
unfolding toy_below
toy_below_asymm (whole (pos a)) (whole (pos b)) h = ground arith
toy_below_asymm (whole (pos a)) (whole (negsuc b)) h = ground arith
toy_below_asymm (whole (negsuc a)) (whole (pos b)) h = ground arith
toy_below_asymm (whole (negsuc a)) (whole (negsuc b)) h = ground arith
toy_below_asymm (whole a) nan h = refl
toy_below_asymm nan (whole b) h = refl
toy_below_asymm nan nan h = refl

toy_nan_range : (a : Toy) → toy_nan a ≡ true → in_int64 toy a ≡ false
unfolding toy_nan toy_below toy_equal
toy_nan_range (whole a) h = absurd cc
toy_nan_range nan h = refl

pub toy-IsIeee : IsIeee toy
unfolding toy_below toy_equal toy_trunc same_int
toy-IsIeee = record {
  feq_symm = toy_equal_symm;
  feq_same = λ a b h. inl (toy_equal_same a b h);
  zero_range = λ a h. rw (toy_equal_same a (whole (pos 0)) h) refl;
  zero_trunc = λ a h. rw (toy_equal_same a (whole (pos 0)) h) refl;
  nan_range = toy_nan_range;
  inf_range = λ a h. absurd cc;
  flt_total = toy_total;
  flt-feq = toy_below-equal;
  flt_asymm = toy_below_asymm;
}

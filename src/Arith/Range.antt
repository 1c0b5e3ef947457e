-- ===== src/Arith/Range.antt =====
-- src/vm/ms_vm.c: the quotient of two `int64_t` fits an `int64_t` unless the guard of the division holds.
use native.Mathlib.Nat.{div-le_self, div-le_of_le-mul}
use mslang_cc.Base.{
  true, false, ◌&&◌, none, some, ℕ, zero, suc, ◌/◌, ◌^◌, ◌≤◌, ◌<◌, ◌≡◌, refl, inl, inr, arith,
  Bool-cases,
}
use mslang_cc.Base.Int.{ℤ, pos, negsuc, ◌+ℤ◌}
use mslang_cc.Base.Words.{IsInt64, int64_min}
use mslang_cc.Arith.{neg_ℕ, divides_badly, rounds_up, floor_div}
use mslang_cc.Arith.Product.{fits, exact}
use mslang_cc.Arith.Division.{floor_div-negsuc}
use mslang_cc.Object.Equals.{same_int}
use mslang_cc.Object.HashLaws.{same_int-eq}

pub fits-exact : (z : ℤ) → fits z ≡ true → exact z ≡ some z
unfolding exact
fits-exact z h = rw (h, exact) refl

pub misfit-exact : (z : ℤ) → fits z ≡ false → exact z ≡ none
unfolding exact
misfit-exact z h = rw (h, exact) refl

pub in_range-fits : (z : ℤ) → IsInt64 z → fits z ≡ true
unfolding fits
in_range-fits (pos n) h = ground arith
in_range-fits (negsuc n) h = ground arith

negated-fits :
    (n : ℕ)
    → ((n ≤ 2 ^ 63) → fits (neg_ℕ n) ≡ true) × ((n < 2 ^ 63) → fits (neg_ℕ n +ℤ negsuc 0) ≡ true)
unfolding fits ◌+ℤ◌
negated-fits zero = (λ h. ground arith, λ h. ground arith)
negated-fits (suc n) = (λ h. ground arith, λ h. ground arith)

same_signs : (a b : ℕ) → rounds_up (negsuc a) (negsuc b) ≡ false
unfolding rounds_up
same_signs a b = ground arith

both_positive : (a b : ℕ) → rounds_up (pos a) (pos b) ≡ false
unfolding rounds_up
both_positive a b = ground arith

pub by_zero : (l : ℤ) → divides_badly l (pos 0) ≡ true
unfolding divides_badly same_int
by_zero l = refl

both_negative :
    (a b : ℕ) → a < 2 ^ 63 → divides_badly (negsuc a) (negsuc b) ≡ false → suc a / suc b < 2 ^ 63
unfolding divides_badly same_int
both_negative a zero h k = ground (arith, div-le_self (suc a) 1)
both_negative a (suc b) h k =
    omega (arith, div-le_of_le-mul (suc (suc b)) {m = suc a} {n = 2 ^ 62} (omega arith))

-- the quotient is in range unless the guard holds
pub floor_div-fits : (l r : ℤ) → IsInt64 l → divides_badly l r ≡ false → fits (floor_div l r) ≡ true
unfolding floor_div
floor_div-fits (pos a) (pos b) h k =
    rw (both_positive a b, floor_div) (in_range-fits (pos (a / b)) (omega (arith, div-le_self a b)))
floor_div-fits (pos a) (negsuc b) h k =
    let le = div-le_self a (suc b) in
    let bounds = negated-fits (a / suc b) in
    elim (Bool-cases (rounds_up (pos a) (negsuc b))) [
      | inl up ↦ rw (up, floor_div) (bounds.1 (omega (arith, le)))
      | inr exactly ↦ rw (exactly, floor_div) (bounds.0 (omega (arith, le)))
    ]
floor_div-fits (negsuc a) (pos zero) h k = let bad = by_zero (negsuc a) in absurd cc
floor_div-fits (negsuc a) (pos (suc b)) h k =
    rw (floor_div-negsuc a b).0
      (in_range-fits (negsuc (a / suc b)) (omega (arith, div-le_self a (suc b))))
floor_div-fits (negsuc a) (negsuc b) h k =
    rw (same_signs a b, floor_div) (in_range-fits (pos (suc a / suc b)) (both_negative a b h k))

-- where the guard holds for a divisor other than zero, the quotient is 2^63
pub bad-misfit :
    (l r : ℤ) → same_int r (pos 0) ≡ false → divides_badly l r ≡ true → fits (floor_div l r) ≡ false
unfolding divides_badly floor_div fits rounds_up same_int
bad-misfit l r nz bad = elim (Bool-cases (same_int l int64_min && same_int r (negsuc 0))) [
  | inr fine ↦ absurd (ground (arith, nz, bad, fine))
  | inl both ↦
      let least : l ≡ int64_min = same_int-eq l int64_min (ground arith) in
      let minus : r ≡ negsuc 0 = same_int-eq r (negsuc 0) (ground arith) in
      rw (least, minus) (ground arith)
]

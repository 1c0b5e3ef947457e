-- ===== src/Arith/Shift.antt =====
-- src/vm/ms_vm.c: shifts of integers.
use mslang_cc.Base.{
  false, none, some, ℕ, zero, suc, ◌-◌, ◌/◌, ◌%◌, ◌^◌, ◌≤◌, ◌<◌, ◌≡◌, sym, ap, ◌∙◌, inl, inr, arith,
  ◌==◌, if◌then◌else◌, ==_iff, Bool-cases,
}
use mslang_cc.Base.Int.{ℤ, pos, negsuc, ◌*ℤ◌}
use mslang_cc.Base.Words.{to_int64, IsInt64, int64_min}
use mslang_cc.Object.Equals.{same_int}
use native.Mathlib.Nat.{one-le-pow, div-le_self, pow-le-pow_right}
use mslang_cc.Arith.{checked_shift_left, shift_right, floor_div}
use mslang_cc.Arith.Product.{exact, fits, checked_mul-exact}
use mslang_cc.Arith.Division.{floor_div-negsuc}

shift_right_pos : (n k : ℕ) → n < 2 ^ 63 → shift_right (pos n) k ≡ pos (n / 2 ^ k)
unfolding shift_right
shift_right_pos n k h = ground (arith, div-le_self n (2 ^ k))

shift_right_negsuc : (n k : ℕ) → n < 2 ^ 63 → shift_right (negsuc n) k ≡ negsuc (n / 2 ^ k)
unfolding shift_right
shift_right_negsuc n k h =
    let e : 2 ^ 64 - 1 - (2 ^ 64 - 1 - n % 2 ^ 64) ≡ n = omega arith in
    rw e (ground (arith, div-le_self n (2 ^ k)))

-- A right shift, computed on unsigned words, is the floor division by the power of two, for every
-- `int64_t` and every count.
pub shift_right-floor_div :
    (l : ℤ) (k : ℕ) → IsInt64 l → shift_right l k ≡ floor_div l (pos (2 ^ k))
unfolding floor_div
shift_right-floor_div (pos n) k h = shift_right_pos n k h ∙ ground arith
shift_right-floor_div (negsuc n) k h =
    let e : 2 ^ k ≡ suc (2 ^ k - 1) = omega (arith, one-le-pow k 2) in
    shift_right_negsuc n k h ∙ rw e (sym (floor_div-negsuc n (2 ^ k - 1)).0)

power_word : (k : ℕ) → k < 64 → (k == 63) ≡ false → 2 ^ k ≤ 2 ^ 62
power_word k h ne = let le : k ≤ 62 = ground arith in pow-le-pow_right (omega arith) le

small_word : (n : ℕ) → n ≤ 2 ^ 62 → (to_int64 n ≡ pos n) × IsInt64 (pos n)
unfolding to_int64
small_word n h = (ground arith, omega arith)

shift_top :
    (l : ℤ)
    → IsInt64 l
    → (if same_int l (pos 0)
        then some (pos 0)
        else if same_int l (negsuc 0)
        then some int64_min
        else none)
      ≡ exact (l *ℤ pos (2 ^ 63))
unfolding same_int exact ◌*ℤ◌ fits
shift_top (pos zero) h = ground arith
shift_top (pos (suc n)) h = ground arith
shift_top (negsuc zero) h = ground arith
shift_top (negsuc (suc n)) h = ground arith

-- Shifting left by a count below 64 gives the product with the power of two where that fits an
-- `int64_t`, and nothing where it does not.
pub checked_shift_left-exact :
    (l : ℤ) (k : ℕ) → IsInt64 l → k < 64 → checked_shift_left l k ≡ exact (l *ℤ pos (2 ^ k))
unfolding checked_shift_left
checked_shift_left-exact l k hl hk = elim (Bool-cases (k == 63)) [
  | inr low ↦
      let (word, bound) = small_word (2 ^ k) (power_word k hk low) in
      rw (low, checked_shift_left, word) (checked_mul-exact l (pos (2 ^ k)) hl bound)
  | inl top ↦
      let e : k ≡ 63 = (==_iff k 63).0 top in
      rw (top, checked_shift_left)
        (shift_top l hl ∙ ap (λ (i : ℕ). exact (l *ℤ pos (2 ^ i))) (sym e))
]

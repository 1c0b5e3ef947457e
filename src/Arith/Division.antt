-- ===== src/Arith/Division.antt =====
-- src/vm/ms_vm.c: `//` and `%` on integers round towards minus infinity.
use mslang_cc.Base.{
  ℕ, zero, suc, ◌-◌, ◌*◌, ◌/◌, ◌%◌, true, ◌≡◌, refl, arith, ltb, ◌≢◌, ap, Bool-cases, inl, inr, ◌⊎◌,
}
use mslang_cc.Base.Int.{pos_part, neg_part, ℤ, pos, negsuc, ◌+ℤ◌, ◌*ℤ◌, ◌≤ℤ◌, ltb_ℤ}
use native.Mathlib.Nat.{div-add-mod, mod-lt, div-eq_of_lt-le}
use mslang_cc.Arith.{floor_div, floor_mod, neg_ℕ}

-- The remainder lies between zero and the divisor, and has its sign.
abbrev pub IsRemainder : ℤ → ℤ → Type 0
IsRemainder m (pos b) = (pos 0 ≤ℤ m) × (ltb_ℤ m (pos b) ≡ true)
IsRemainder m (negsuc b) = (m ≤ℤ pos 0) × (ltb_ℤ (negsuc b) m ≡ true)

ℕ-cases : (n : ℕ) → (n ≡ 0) ⊎ ((m : ℕ) × (n ≡ suc m))
ℕ-cases zero = inl refl
ℕ-cases (suc m) = inr (m, refl)

neg_ℕ_parts : (n : ℕ) → (pos_part (neg_ℕ n) ≡ 0) × (neg_part (neg_ℕ n) ≡ n)
neg_ℕ_parts zero = (refl, refl)
neg_ℕ_parts (suc n) = (refl, refl)

-- Adding one to the dividend: the remainder grows, or the quotient does.
step_div :
    (n d : ℕ)
    → ((suc n % suc d ≡ suc (n % suc d)) × (suc n / suc d ≡ n / suc d))
      ⊎ ((suc n % suc d ≡ 0) × (suc n / suc d ≡ suc (n / suc d)) × (suc (n % suc d) ≡ suc d))
step_div n d =
    let e = div-add-mod n (suc d) in
    let e' = div-add-mod (suc n) (suc d) in
    elim (Bool-cases (ltb (suc (n % suc d)) (suc d))) [
      | inl stays ↦
          let q : suc n / suc d ≡ n / suc d =
            div-eq_of_lt-le (suc d) (ground arith) (ground arith) in
          let p : suc d * (suc n / suc d) ≡ suc d * (n / suc d) = ap (λ (t : ℕ). suc d * t) q in
          inl (omega arith, q)
      | inr wraps ↦
          let w : n % suc d ≡ d = ground arith in
          let q : suc n / suc d ≡ suc (n / suc d) =
            div-eq_of_lt-le (suc d) (ground arith) (ground arith) in
          let p : suc d * (suc n / suc d) ≡ suc d * suc (n / suc d) = ap (λ (t : ℕ). suc d * t) q in
          inr (omega arith, q, omega arith)
    ]

-- The value of the quotient and the remainder for a negative dividend and a positive divisor.
pub floor_div-negsuc :
    (n d : ℕ)
    → (floor_div (negsuc n) (pos (suc d)) ≡ negsuc (n / suc d))
      × (floor_mod (negsuc n) (pos (suc d)) ≡ pos (d - n % suc d))
unfolding floor_div floor_mod
floor_div-negsuc n d = elim (step_div n d) [
  | inl (m, q) ↦ (rw m (ground (arith, q, neg_ℕ_parts (suc n / suc d))), rw m (ground arith))
  | inr (m, q, w) ↦ (rw m (ground (arith, q, neg_ℕ_parts (suc n / suc d))), rw m (ground arith))
]

-- The same for a positive dividend and a negative divisor that leaves a remainder.
floor_div_uneven :
    (a b m : ℕ)
    → a % suc b ≡ suc m
    → (floor_div (pos a) (negsuc b) ≡ negsuc (a / suc b))
      × (floor_mod (pos a) (negsuc b) ≡ negsuc (b - m - 1))
unfolding floor_div floor_mod
floor_div_uneven a b m z = (
  rw z (ground (arith, neg_ℕ_parts (a / suc b))),
  rw z (ground (arith, mod-lt a {m = suc b} (omega arith))),
)

-- For a divisor other than zero, the quotient times the divisor and the remainder make up the
-- dividend, and the remainder is in range.
pub floor_div-mod :
    (l r : ℤ)
    → r ≢ pos 0
    → (r *ℤ floor_div l r +ℤ floor_mod l r ≡ l) × IsRemainder (floor_mod l r) r
unfolding floor_div floor_mod ◌*ℤ◌
floor_div-mod l (pos zero) h = absurd (h refl)
floor_div-mod (pos a) (pos (suc b)) h = ground (arith, div-add-mod a (suc b))
floor_div-mod (pos a) (negsuc b) h =
    let facts = neg_ℕ_parts (a / suc b) in
    elim (ℕ-cases (a % suc b)) [
      | inl z ↦ rw z (ground (arith, div-add-mod a (suc b), facts, z))
      | inr (m, z) ↦
          let (q, r) = floor_div_uneven a b m z in
          rw (q, r) (ground (arith, div-add-mod a (suc b), mod-lt a {m = suc b} (omega arith), z))
    ]
floor_div-mod (negsuc a) (pos (suc b)) h =
    let (q, m) = floor_div-negsuc a b in
    (rw (q, m) (ground (arith, div-add-mod a (suc b))), rw m (ground arith))
floor_div-mod (negsuc a) (negsuc b) h = elim (ℕ-cases (suc a % suc b)) [
  | inl z ↦ rw z (ground (arith, div-add-mod (suc a) (suc b), z))
  | inr (m, z) ↦ rw z (ground (arith, div-add-mod (suc a) (suc b), z))
]

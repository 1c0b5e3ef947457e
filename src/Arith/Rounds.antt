-- ===== src/Arith/Rounds.antt =====
-- src/vm/ms_vm.c: one round of the loop of `**`: what it keeps, and when it gives up.
use native.Mathlib.Nat.{one-le-pow, mul-le-mul}
use mslang_cc.Base.{
  true, false, none, some, ℕ, zero, suc, ◌+◌, ◌*◌, ◌/◌, ◌%◌, ◌^◌, ◌≤◌, ◌<◌, ◌≡◌, refl, sym, ap, ◌∙◌,
  ◌≢◌, ◌⊎◌, inl, inr, arith, ◌==◌, Bool-cases, Option-cases,
}
use mslang_cc.Base.Int.{ℤ, pos, negsuc, ◌*ℤ◌, *ℤ_assoc}
use mslang_cc.Base.Words.{IsInt64}
use mslang_cc.Arith.{checked_mul, pow_result, pow_base, pow_round}
use mslang_cc.Arith.Exponent.{
  power, power-zero, power-suc, power_double, abs, times-big, square-big, tail-big, mul-nonzero,
  square-power, abs-pos, power_le,
}
use mslang_cc.Arith.Product.{fits, exact, exact-some, checked_mul-exact}

checked_mul-some :
    (l r : ℤ) {z : ℤ} → IsInt64 l → IsInt64 r → checked_mul l r ≡ some z → (z ≡ l *ℤ r) × IsInt64 z
checked_mul-some l r {z} hl hr e = exact-some (l *ℤ r) z (sym (checked_mul-exact l r hl hr) ∙ e)

-- The power of the base is the power of its square to half the exponent, times the base if the
-- exponent is odd.
power_even : (b : ℤ) (e : ℕ) → e % 2 == 0 ≡ true → power b e ≡ power (b *ℤ b) (e / 2)
power_even b e h = ap (power b) (ground arith) ∙ power_double b (e / 2)

power_odd : (b : ℤ) (e : ℕ) → e % 2 == 0 ≡ false → power b e ≡ b *ℤ power (b *ℤ b) (e / 2)
power_odd b e h =
    let odd : e ≡ suc (e / 2 + e / 2) = ground arith in
    ap (power b) odd ∙ power-suc b (e / 2 + e / 2) ∙ ap (λ t. b *ℤ t) (power_double b (e / 2))

pow_result_lem :
    (result base : ℤ) (e : ℕ) {r : ℤ}
    → IsInt64 result
    → IsInt64 base
    → pow_result result base e ≡ some r
    → IsInt64 r × (result *ℤ power base e ≡ r *ℤ power (base *ℤ base) (e / 2))
unfolding pow_result
pow_result_lem result base e {r} hr hb h = elim (Bool-cases (e % 2 == 0)) [
  | inl even ↦
      let same : r ≡ result = ground arith in (rw same hr, rw (same, power_even base e even))
  | inr odd ↦
      let (eq, fit) = checked_mul-some result base {z = r} hr hb (ground arith) in
      (fit, rw (eq, power_odd base e odd) (sym (*ℤ_assoc result base _)))
]

pow_base_lem :
    (base : ℤ) (e : ℕ) {b : ℤ}
    → IsInt64 base
    → pow_base base e ≡ some b
    → IsInt64 b × (power (base *ℤ base) (e / 2) ≡ power b (e / 2))
unfolding pow_base
pow_base_lem base e {b} hb h = elim (Bool-cases (e / 2 == 0)) [
  | inl last ↦
      let same : b ≡ base = ground arith in
      let zero_left : e / 2 ≡ 0 = ground arith in
      (rw same hb, rw zero_left (power-zero (base *ℤ base) ∙ sym (power-zero b)))
  | inr more ↦
      let (eq, fit) = checked_mul-some base base {z = b} hb hb (ground arith) in (fit, rw eq)
]

pub pow_round_lem :
    (result base : ℤ) (e : ℕ) (rb : ℤ × ℤ)
    → IsInt64 result
    → IsInt64 base
    → pow_round result base e ≡ some rb
    → IsInt64 rb.0 × IsInt64 rb.1 × (result *ℤ power base e ≡ rb.0 *ℤ power rb.1 (e / 2))
unfolding pow_round
pow_round_lem result base e rb hr hb h = elim (Option-cases (pow_result result base e)) [
  | inl p ↦ ground arith
  | inr (r, p) ↦ elim (Option-cases (pow_base base e)) [
    | inl q ↦ ground arith
    | inr (b, q) ↦
        let (fr, er) = pow_result_lem result base e hr hb p in
        let (fb, eb) = pow_base_lem base e hb q in
        let pair : ◌≡◌ {A = ℤ × ℤ} (r, b) rb = ground arith in rw (← pair) (fr, fb, er ∙ rw eb)
  ]
]

-- A product that is given up does not fit.
checked_mul-none :
    (l r : ℤ) → IsInt64 l → IsInt64 r → checked_mul l r ≡ none → fits (l *ℤ r) ≡ false
unfolding exact
checked_mul-none l r hl hr e =
    let gone : exact (l *ℤ r) ≡ none = sym (checked_mul-exact l r hl hr) ∙ e in ground arith

-- The result is not zero unless the base is.
abbrev pub Alive : ℤ → ℤ → Type 0
Alive result base = (base ≡ pos 0) ⊎ (result ≢ pos 0)

zero-fits : (l r : ℤ) → r ≡ pos 0 → fits (l *ℤ r) ≡ true
unfolding fits ◌*ℤ◌
zero-fits (pos n) r e = rw e (ground arith)
zero-fits (negsuc n) r e = rw e (ground arith)

base-nonzero : (l r : ℤ) → fits (l *ℤ r) ≡ false → r ≢ pos 0
base-nonzero l r h e = let fit = zero-fits l r e in absurd cc

-- Where a round gives up on the result, the power does not fit.
result-big :
    (result base : ℤ) (e : ℕ)
    → IsInt64 result
    → IsInt64 base
    → pow_result result base e ≡ none
    → fits (result *ℤ power base e) ≡ false
unfolding pow_result
result-big result base e hr hb h = elim (Bool-cases (e % 2 == 0)) [
  | inl even ↦ absurd (ground arith)
  | inr odd ↦
      let big : fits (result *ℤ base) ≡ false = checked_mul-none result base hr hb (ground arith) in
      let y = (abs base * abs base) ^ (e / 2) in
      let one = abs-pos base (base-nonzero result base big) in
      let positive : 1 ≤ y =
        one-le-pow (e / 2) (abs base * abs base) (omega (arith, mul-le-mul one one)) in
      rw (power_odd base e odd, square-power base (e / 2), ← *ℤ_assoc result base (pos y))
        (times-big (result *ℤ base) y big positive)
]

Alive-result :
    (result base : ℤ) (e : ℕ) {r : ℤ}
    → IsInt64 result
    → IsInt64 base
    → base ≢ pos 0
    → Alive result base
    → pow_result result base e ≡ some r
    → r ≢ pos 0
unfolding pow_result
Alive-result result base e {r} hr hb nz (inl z) h = absurd (nz z)
Alive-result result base e {r} hr hb nz (inr live) h = elim (Bool-cases (e % 2 == 0)) [
  | inl even ↦ let same : r ≡ result = ground arith in rw same live
  | inr odd ↦
      let (eq, fit) = checked_mul-some result base {z = r} hr hb (ground arith) in
      rw eq (mul-nonzero result base live nz)
]

-- Where a round gives up on the square of the base, the power does not fit.
base-big :
    (result base : ℤ) (e : ℕ) {r : ℤ}
    → IsInt64 result
    → IsInt64 base
    → Alive result base
    → pow_result result base e ≡ some r
    → pow_base base e ≡ none
    → fits (result *ℤ power base e) ≡ false
unfolding pow_base
base-big result base e {r} hr hb alive p h = elim (Bool-cases (e / 2 == 0)) [
  | inl last ↦ absurd (ground arith)
  | inr more ↦
      let big : fits (base *ℤ base) ≡ false = checked_mul-none base base hb hb (ground arith) in
      let nz = base-nonzero base base big in
      let (fit, eq) = pow_result_lem result base e hr hb p in
      let s = abs base * abs base in
      let large : 2 ^ 63 < s = square-big base big in
      let up = power_le s (e / 2) (omega arith) (ground arith) in
      rw (eq, square-power base (e / 2))
        (tail-big r (s ^ (e / 2)) (Alive-result result base e hr hb nz alive p) (omega arith))
]

pub round-big :
    (result base : ℤ) (e : ℕ)
    → IsInt64 result
    → IsInt64 base
    → Alive result base
    → pow_round result base e ≡ none
    → fits (result *ℤ power base e) ≡ false
unfolding pow_round
round-big result base e hr hb alive h = elim (Option-cases (pow_result result base e)) [
  | inl p ↦ result-big result base e hr hb p
  | inr (r, p) ↦ elim (Option-cases (pow_base base e)) [
    | inl q ↦ base-big result base e hr hb alive p q
    | inr (b, q) ↦ absurd (ground arith)
  ]
]

alive-base :
    (base : ℤ) (e : ℕ) {b : ℤ} → IsInt64 base → pow_base base e ≡ some b → base ≡ pos 0 → b ≡ pos 0
unfolding pow_base ◌*ℤ◌
alive-base base e {b} hb h z = elim (Bool-cases (e / 2 == 0)) [
  | inl last ↦ let same : b ≡ base = ground arith in same ∙ z
  | inr more ↦
      let (eq, fit) = checked_mul-some base base {z = b} hb hb (ground arith) in eq ∙ rw z refl
]

is-zero : (b : ℤ) → (b ≡ pos 0) ⊎ (b ≢ pos 0)
is-zero (pos zero) = inl refl
is-zero (pos (suc n)) = inr (λ e. cc)
is-zero (negsuc n) = inr (λ e. cc)

pub Alive-round :
    (result base : ℤ) (e : ℕ) (rb : ℤ × ℤ)
    → IsInt64 result
    → IsInt64 base
    → Alive result base
    → pow_round result base e ≡ some rb
    → Alive rb.0 rb.1
unfolding pow_round
Alive-round result base e rb hr hb alive h = elim (Option-cases (pow_result result base e)) [
  | inl p ↦ ground arith
  | inr (r, p) ↦ elim (Option-cases (pow_base base e)) [
    | inl q ↦ ground arith
    | inr (b, q) ↦
        let pair : ◌≡◌ {A = ℤ × ℤ} (r, b) rb = ground arith in
        rw (← pair) (elim (is-zero base) [
          | inl z ↦ inl (alive-base base e hb q z)
          | inr nz ↦ inr (Alive-result result base e hr hb nz alive p)
        ])
  ]
]

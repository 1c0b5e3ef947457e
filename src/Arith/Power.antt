-- ===== src/Arith/Power.antt =====
-- src/vm/ms_vm.c: the square-and-multiply loop of `**` computes the power.
use native.Mathlib.Nat.{two-pow-succ}
use mslang_cc.Base.{
  true, false, none, some, ℕ, zero, suc, ◌/◌, ◌^◌, ◌<◌, ◌≡◌, sym, ◌∙◌, inl, inr, arith, ◌==◌,
  Bool-cases, Option-cases,
}
use mslang_cc.Base.Int.{ℤ, pos, ◌*ℤ◌, *ℤ_comm, one-*ℤ}
use mslang_cc.Base.Words.{IsInt64}
use mslang_cc.Arith.{PowResult, done, overflow, out_of_fuel, pow_round, pow_loop, int_pow}
use mslang_cc.Arith.Exponent.{power, power-zero}
use mslang_cc.Arith.Product.{fits}
use mslang_cc.Arith.Rounds.{pow_round_lem, Alive, round-big, Alive-round}

times_power-zero : (result base : ℤ) → result *ℤ power base 0 ≡ result
times_power-zero result base = rw (power-zero base) (*ℤ_comm result (pos 1) ∙ one-*ℤ result)

module _ (fuel : ℕ) (result base : ℤ) (e : ℕ) where
  pow_loop_end : (e == 0) ≡ true → pow_loop (suc fuel) result base e ≡ done result
  unfolding pow_loop
  pow_loop_end z = rw (z, pow_loop)

  pow_loop_stop :
      (e == 0) ≡ false
      → pow_round result base e ≡ none
      → pow_loop (suc fuel) result base e ≡ overflow
  unfolding pow_loop
  pow_loop_stop z p = ground arith

  pow_loop_go :
      {rb : ℤ × ℤ}
      → (e == 0) ≡ false
      → pow_round result base e ≡ some rb
      → pow_loop (suc fuel) result base e ≡ pow_loop fuel rb.0 rb.1 (e / 2)
  unfolding pow_loop
  pow_loop_go {rb} z p = ground arith

-- A loop gives the value, in range; or it overflows, and the value is out of range.
abbrev pub Computes : ℤ → PowResult → Type 0
Computes z (done r) = (r ≡ z) × IsInt64 r
Computes z overflow = fits z ≡ false
Computes z out_of_fuel = ⊥

pow_loop-Computes :
    (fuel : ℕ) (result base : ℤ) (e : ℕ)
    → IsInt64 result
    → IsInt64 base
    → Alive result base
    → e < 2 ^ fuel
    → Computes (result *ℤ power base e) (pow_loop (suc fuel) result base e)
pow_loop-Computes zero result base e hr hb alive h =
    let zero_left : e ≡ 0 = omega arith in
    rw (pow_loop_end zero result base e (ground arith))
      (rw zero_left (sym (times_power-zero result base)), hr)
pow_loop-Computes (suc fuel) result base e hr hb alive h = elim (Bool-cases (e == 0)) [
  | inl z ↦
      let zero_left : e ≡ 0 = ground arith in
      rw (pow_loop_end (suc fuel) result base e z)
        (rw zero_left (sym (times_power-zero result base)), hr)
  | inr nz ↦ elim (Option-cases (pow_round result base e)) [
    | inl stop ↦
        rw (pow_loop_stop (suc fuel) result base e nz stop)
          (round-big result base e hr hb alive stop)
    | inr (rb, go) ↦
        let (fr, fb, eq) = pow_round_lem result base e rb hr hb go in
        let small : e / 2 < 2 ^ fuel = omega (arith, two-pow-succ fuel) in
        rw (pow_loop_go (suc fuel) result base e nz go, eq)
          (pow_loop-Computes fuel rb.0 rb.1 (e / 2) fr fb
            (Alive-round result base e rb hr hb alive go) small)
  ]
]

-- For every base and every exponent that an `int64_t` can hold, the loop ends. Its result is the
-- power where that is in the range of `int64_t`, and it overflows only where the power is not.
pub int_pow-Computes :
    (base : ℤ) (e : ℕ) → IsInt64 base → e < 2 ^ 63 → Computes (power base e) (int_pow base e)
unfolding int_pow
int_pow-Computes base e hb h =
    rw (one-*ℤ (power base e)) at
      (pow_loop-Computes 64 (pos 1) base e (omega arith) hb (inr (λ z. cc)) (omega arith))

-- ===== src/Vm/Growth.antt =====
-- The growth of stack and frames.
use native.Mathlib.Nat.{two-pow-succ}
use mslang_cc.Base.{
  ◌^◌, ◌*◌, ◌⊎◌, sym, ap, refl, true, false, Option, none, some, ℕ, zero, suc, ◌*◌, ◌^◌, ◌≤◌, ◌<◌,
  ◌≡◌, refl, sym, ap, ◌⊎◌, inl, inr, arith, ltb, Bool-cases,
}
use mslang_cc.Vm.{next_cap, grow_cap}

-- a capacity that is enough, between the old one and the maximum
abbrev pub IsEnough : ℕ → ℕ → ℕ → Option ℕ → Type 0
IsEnough most needed cap none = ⊥
IsEnough most needed cap (some c) = (needed ≤ c) × (c ≤ most) × (cap ≤ c)

IsEnough-weaken :
    (most needed cap cap' : ℕ) (r : Option ℕ)
    → cap' ≤ cap
    → IsEnough most needed cap r
    → IsEnough most needed cap' r
IsEnough-weaken most needed cap cap' none h e = e
IsEnough-weaken most needed cap cap' (some c) h e = (e.0, e.1, omega (arith, e.2))

grow_cap-stop :
    (fuel most needed cap : ℕ)
    → ltb cap needed ≡ false
    → grow_cap (suc fuel) most needed cap ≡ some cap
unfolding grow_cap
grow_cap-stop fuel most needed cap h = rw (h, grow_cap) refl

grow_cap-go :
    (fuel most needed cap : ℕ)
    → ltb cap needed ≡ true
    → grow_cap (suc fuel) most needed cap ≡ grow_cap fuel most needed (next_cap most cap)
unfolding grow_cap
grow_cap-go fuel most needed cap h = rw (h, grow_cap) refl

-- A round does not shrink the capacity, and doubles it or reaches the maximum.
next_cap_lem :
    (most cap : ℕ)
    → cap ≤ most
    → (cap ≤ next_cap most cap)
      × (next_cap most cap ≤ most)
      × ((next_cap most cap ≡ most) ⊎ (next_cap most cap ≡ cap * 2))
unfolding next_cap
next_cap_lem most cap h = ground arith

-- Once the maximum is reached the next test ends the loop.
grow_cap-most :
    (fuel most needed : ℕ) → needed ≤ most → grow_cap (suc fuel) most needed most ≡ some most
grow_cap-most fuel most needed h = grow_cap-stop fuel most needed most (ground arith)

-- The doubling loop ends, with a capacity that is enough, does not pass the maximum and is not below
-- the old one: if the needed capacity is within the maximum, and the fuel is one round more than it
-- takes to double the capacity past the maximum.
pub grow_cap-IsEnough :
    (fuel most needed cap : ℕ)
    → needed ≤ most
    → cap ≤ most
    → most < cap * 2 ^ fuel
    → IsEnough most needed cap (grow_cap (suc fuel) most needed cap)
grow_cap-IsEnough zero most needed cap hn hc hf = absurd (omega arith)
grow_cap-IsEnough (suc fuel) most needed cap hn hc hf =
    let (up, in_range, round) = next_cap_lem most cap hc in
    elim (Bool-cases (ltb cap needed)) [
      | inr stop ↦
          rw (grow_cap-stop (suc fuel) most needed cap stop) (ground arith, hc, omega arith)
      | inl go ↦ rw (grow_cap-go (suc fuel) most needed cap go) (elim round [
        | inl reached ↦ rw (reached, grow_cap-most fuel most needed hn) (hn, omega arith, hc)
        | inr doubled ↦
            let grown : cap * 2 * 2 ^ fuel ≡ cap * 2 ^ suc fuel =
              omega (arith, ap (λ (t : ℕ). cap * t) (two-pow-succ fuel)) in
            IsEnough-weaken most needed (cap * 2) cap _ (omega arith) (
              rw doubled (
                grow_cap-IsEnough fuel most needed (cap * 2) hn (rw (sym doubled) in_range)
                  (omega arith)))
      ])
    ]

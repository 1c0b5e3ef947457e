-- ===== src/Vm/Room.antt =====
-- The room that `msVmEnsureStack` and `msVmEnsureFrames` make.
use mathlib.Core.Option.{some_inj}
use mslang_cc.Base.{
  true, false, Option, none, some, ◌++◌, ℕ, ◌-◌, ◌^◌, ◌≤◌, ◌<◌, ◌≡◌, refl, sym, ◌∙◌, inl, inr,
  arith, ltb, leb, ◌==◌, if◌then◌else◌, Bool-cases, Option-cases, none≢some, length, replicate,
  length-append, length-replicate, List, get_elem?, get_elem?-append_left,
}
use mslang_cc.Memory.{Mem}
use mslang_cc.Object.{Ref, nil_ref}
use mslang_cc.Vm.{
  stack_init_cap, stack_max_cap, frames_init_cap, frames_max, Coroutine, CallFault, grow_cap,
  resize, ensure_cap, ensure_stack, ensure_frames,
}
use mslang_cc.Vm.Growth.{grow_cap-IsEnough}

ensure_cap-fits :
    (size initial most needed cap : ℕ) (m : Mem)
    → leb needed cap ≡ true
    → (ensure_cap size initial most needed cap m).0 ≡ some cap
unfolding ensure_cap
ensure_cap-fits size initial most needed cap m h = rw (h, ensure_cap) refl

ensure_cap-grown :
    (size initial most needed cap new_cap : ℕ) (m : Mem)
    → leb needed cap ≡ false
    → grow_cap 22 most needed (if cap == 0 then initial else cap) ≡ some new_cap
    → (ensure_cap size initial most needed cap m).0
      ≡ (if (resize size cap new_cap m).0 then some new_cap else none)
unfolding ensure_cap
ensure_cap-grown size initial most needed cap new_cap m h g = rw (h, g, ensure_cap) refl

ensure_cap_lem :
    (size initial most needed cap : ℕ) (m : Mem)
    → 1 ≤ initial
    → initial ≤ most
    → most < 2 ^ 21
    → needed ≤ most
    → cap ≤ most
    → (c : ℕ) → (ensure_cap size initial most needed cap m).0 ≡ some c
    → (needed ≤ c) × (c ≤ most) × (cap ≤ c)
unfolding ensure_cap
ensure_cap_lem size initial most needed cap m hi hm hl hn hc c e =
    let start = if cap == 0 then initial else cap in
    let start_lem : (1 ≤ start) × (start ≤ most) × (cap ≤ start) = ground arith in
    let enough =
      grow_cap-IsEnough 21 most needed start hn start_lem.1 (omega (arith, start_lem.0)) in
    elim (Bool-cases (leb needed cap)) [
      | inl fits ↦
          let same : cap ≡ c =
            some_inj.0 (sym (ensure_cap-fits size initial most needed cap m fits) ∙ e) in
          rw (← same) (ground arith, hc, omega arith)
      | inr short ↦ elim (Option-cases (grow_cap 22 most needed start)) [
        | inl stop ↦ absurd (rw stop at enough)
        | inr (new_cap, grown) ↦
            let bounds = rw grown at enough in
            let given =
              sym (ensure_cap-grown size initial most needed cap new_cap m short grown) ∙ e in
            elim (Bool-cases (resize size cap new_cap m).0) [
              | inl granted ↦
                  let same : new_cap ≡ c = some_inj.0 (rw granted at given) in
                  rw (← same) (bounds.0, bounds.1, omega (arith, bounds.2, start_lem.2))
              | inr refused ↦ absurd (none≢some (rw refused at given))
            ]
      ]
    ]

-- The first `n` cells of one stack are those of another.
abbrev pub SameCells : ℕ → List Ref → List Ref → Type 0
SameCells n stack stack' = (i : ℕ) → i < n → get_elem? stack' i ≡ get_elem? stack i

-- What growing the stack does.
abbrev pub StackGrows : ℕ → Coroutine → Option CallFault × Coroutine × Mem → Type 0
StackGrows needed co (some fault, co', m') = co' ≡ co
StackGrows needed co (none, co', m') =
    (co'.frames ≡ co.frames)
    × (co'.frames_cap ≡ co.frames_cap)
    × (co'.stack_top ≡ co.stack_top)
    × (length co.stack ≤ length co'.stack)
    × (needed ≤ length co'.stack)
    × (length co'.stack ≤ stack_max_cap)
    × SameCells (length co.stack) co.stack co'.stack

pub ensure_stack-StackGrows :
    (needed : ℕ) (co : Coroutine) (m : Mem)
    → length co.stack ≤ stack_max_cap
    → StackGrows needed co (ensure_stack needed co m)
unfolding ensure_stack
ensure_stack-StackGrows needed co m h =
    let cap = length co.stack in
    elim (Bool-cases (ltb stack_max_cap needed)) [
      | inl big ↦ rw (big, ensure_stack) refl
      | inr small ↦ elim (Option-cases (ensure_cap 8 stack_init_cap stack_max_cap needed cap m).0) [
        | inl stop ↦ rw (small, stop, ensure_stack) refl
        | inr (c, room) ↦
            let (le, most, up) =
              ensure_cap_lem 8 stack_init_cap stack_max_cap needed cap m (omega arith) (omega arith)
                (omega arith) (ground arith) h c room in
            let total : length (co.stack ++ replicate (c - cap) nil_ref) ≡ c = omega (
              arith,
              length-append co.stack (replicate (c - cap) nil_ref),
              length-replicate (c - cap) nil_ref,
            ) in
            rw (small, room, ensure_stack, total)
              (
                refl,
                refl,
                refl,
                up,
                le,
                most,
                λ i inside. get_elem?-append_left co.stack (replicate (c - cap) nil_ref) i inside,
              )
      ]
    ]

-- What growing the frames does.
abbrev pub FramesGrow : ℕ → Coroutine → Option CallFault × Coroutine × Mem → Type 0
FramesGrow needed co (some fault, co', m') = co' ≡ co
FramesGrow needed co (none, co', m') =
    (co'.frames ≡ co.frames)
    × (co'.stack ≡ co.stack)
    × (co'.stack_top ≡ co.stack_top)
    × (needed ≤ co'.frames_cap)
    × (co'.frames_cap ≤ frames_max)

pub ensure_frames-FramesGrow :
    (needed : ℕ) (co : Coroutine) (m : Mem)
    → co.frames_cap ≤ frames_max
    → FramesGrow needed co (ensure_frames needed co m)
unfolding ensure_frames
ensure_frames-FramesGrow needed co m h = elim (Bool-cases (ltb frames_max needed)) [
  | inl big ↦ rw (big, ensure_frames) refl
  | inr small ↦
      elim (Option-cases (ensure_cap 32 frames_init_cap frames_max needed co.frames_cap m).0) [
        | inl stop ↦ rw (small, stop, ensure_frames) refl
        | inr (c, room) ↦
            let (le, most, up) =
              ensure_cap_lem 32 frames_init_cap frames_max needed co.frames_cap m (omega arith)
                (omega arith) (omega arith) (ground arith) h c room in
            rw (small, room, ensure_frames) (refl, refl, refl, le, most)
      ]
]

-- ===== src/Vm/Frames.antt =====
-- Pushing a frame keeps every window inside the stack.
use mslang_cc.Base.{
  Bool, Option, none, some, List, [], ◌∷◌, ℕ, suc, ◌+◌, ◌-◌, ◌≤◌, ◌≡◌, refl, ap, ◌∙◌, inl, inr,
  arith, min, get_elem?-set_ne, Option-cases, length, set, length-set,
}
use mslang_cc.Base.Int.{pos}
use mslang_cc.Memory.{Mem}
use mslang_cc.Object.{Ref, nil_ref}
use mslang_cc.Proto.{Proto}
use mslang_cc.Vm.{
  stack_max_cap, frames_max, Frame, Coroutine, CallFault, ensure_stack, write_all, frame_fault,
  frame_cells, frames_after, put_frame, are_in_place, push_frame_at,
}
use mslang_cc.Vm.Room.{
  SameCells, StackGrows, ensure_stack-StackGrows, FramesGrow, ensure_frames-FramesGrow,
}

-- Every frame has its locals and its part of the stack within the first `n` cells, above a cell for
-- what it returns.
abbrev pub AllInside : ℕ → List Frame → Type 0
AllInside n [] = Unit
AllInside n (f ∷ fs) =
    (1 ≤ f.base) × (f.base + f.code.local_count + f.code.stack_size ≤ n) × AllInside n fs

pub record IsSafe (co : Coroutine) : Type 0 where
  pub top : co.stack_top ≤ length co.stack
  pub room : length co.stack ≤ stack_max_cap
  pub inside : AllInside (length co.stack) co.frames
  pub count : length co.frames ≤ co.frames_cap
  pub limit : co.frames_cap ≤ frames_max

pub AllInside-mono : (n m : ℕ) (fs : List Frame) → n ≤ m → AllInside n fs → AllInside m fs
AllInside-mono n m [] h inside = inside
AllInside-mono n m (f ∷ fs) h inside =
    (inside.0, omega (arith, inside.1), AllInside-mono n m fs h inside.2)

length-write_all :
    (stack : List Ref) (i : ℕ) (vs : List Ref) → length (write_all stack i vs) ≡ length stack
unfolding write_all
length-write_all stack i [] = refl
length-write_all stack i (v ∷ vs) =
    length-write_all (set stack i v) (suc i) vs ∙ length-set stack i v

pub length-frame_cells :
    (p : Proto) (argc : ℕ) (args : Option (List Ref)) (base : ℕ) (stack : List Ref)
    → length (frame_cells p argc args base stack) ≡ length stack
unfolding frame_cells
length-frame_cells p argc none base stack = length-write_all stack _ _
length-frame_cells p argc (some values) base stack =
    length-write_all (write_all stack (base - 1) (nil_ref ∷ values)) _ _
    ∙ length-write_all stack (base - 1) (nil_ref ∷ values)

write_all-SameCells :
    (stack : List Ref) (i : ℕ) (vs : List Ref) → SameCells i stack (write_all stack i vs)
unfolding write_all
write_all-SameCells stack i [] j h = refl
write_all-SameCells stack i (v ∷ vs) j h =
    write_all-SameCells (set stack i v) (suc i) vs j (omega arith)
    ∙ get_elem?-set_ne stack i j v (λ e. absurd (omega (arith, e)))

frame_cells-SameCells :
    (p : Proto) (argc : ℕ) (args : Option (List Ref)) (base : ℕ) (stack : List Ref)
    → SameCells (base - 1) stack (frame_cells p argc args base stack)
unfolding frame_cells
frame_cells-SameCells p argc none base stack j h = write_all-SameCells stack _ _ j (omega arith)
frame_cells-SameCells p argc (some values) base stack j h =
    write_all-SameCells (write_all stack (base - 1) (nil_ref ∷ values)) _ _ j (omega arith)
    ∙ write_all-SameCells stack (base - 1) (nil_ref ∷ values) j h

-- What the tests before a push have made sure of.
frame_fault-none :
    (p : Proto) (argc : ℕ) (in_place : Bool) (base : ℕ) (co : Coroutine)
    → frame_fault p argc in_place base co ≡ none
    → (1 ≤ base)
      × (base + p.local_count + p.stack_size ≤ stack_max_cap)
      × (argc ≡ p.param_count)
      × (p.param_count ≤ p.local_count)
unfolding frame_fault
frame_fault-none p argc in_place base co h = ground arith

-- What pushing a frame does: it is the innermost one, at its first instruction, the stack in use ends
-- after its locals, and the cells in use below its return cell are as they were; or frames and the
-- stack in use, with its cells, are as they were.
abbrev pub Enters : Proto → ℕ → Coroutine → Option CallFault × Coroutine × Mem → Type 0
Enters p base co (none, co', m') =
    IsSafe co'
    × (co'.frames ≡ record { code = p; pc = pos 0; base = base } ∷ co.frames)
    × (co'.stack_top ≡ base + p.local_count)
    × SameCells (min (base - 1) co.stack_top) co.stack co'.stack
Enters p base co (some fault, co', m') =
    IsSafe co'
    × (co'.frames ≡ co.frames)
    × (co'.stack_top ≡ co.stack_top)
    × SameCells co.stack_top co.stack co'.stack

-- Between the steps: the coroutine is safe, and unchanged but for the growth; without an error
-- there is room for the window `n`, and in the end for one frame more.
abbrev IsReady : ℕ → ℕ → Coroutine → Option CallFault × Coroutine × Mem → Type 0
IsReady n more co (some fault, co', m') =
    IsSafe co'
    × (co'.frames ≡ co.frames)
    × (co'.stack_top ≡ co.stack_top)
    × SameCells co.stack_top co.stack co'.stack
IsReady n more co (none, co', m') =
    IsSafe co'
    × (co'.frames ≡ co.frames)
    × (co'.stack_top ≡ co.stack_top)
    × (n ≤ length co'.stack)
    × (length co'.frames + more ≤ co'.frames_cap)
    × SameCells co.stack_top co.stack co'.stack

stack-IsReady :
    (n : ℕ) (co : Coroutine) (r : Option CallFault × Coroutine × Mem)
    → IsSafe co
    → StackGrows n co r
    → IsReady n 0 co r
stack-IsReady n co (some fault, co', m') safe same = rw same (safe, refl, refl, λ _ _. refl)
stack-IsReady n co (none, co', m') safe grows =
    let (frames, caps, top, longer, enough, most, cells) = grows in
    (
      record {
        top = rw top (omega (arith, safe.top, longer));
        room = most;
        inside = rw frames (AllInside-mono _ _ co.frames longer safe.inside);
        count = rw (frames, caps) safe.count;
        limit = rw caps safe.limit;
      },
      frames,
      top,
      enough,
      rw (frames, caps) (omega (arith, safe.count)),
      λ i h. cells i (omega (arith, h, safe.top)),
    )

frames-IsReady :
    (n : ℕ) (co co1 : Coroutine) (r : Option CallFault × Coroutine × Mem)
    → IsSafe co1
    → (co1.frames ≡ co.frames)
      × (co1.stack_top ≡ co.stack_top)
      × (n ≤ length co1.stack)
      × SameCells co.stack_top co.stack co1.stack
    → FramesGrow (length co1.frames + 1) co1 r
    → IsReady n 1 co r
frames-IsReady n co co1 (some fault, co', m') safe before same =
    rw same (safe, before.0, before.1, before.3)
frames-IsReady n co co1 (none, co', m') safe before grows =
    let (frames, stack, top, enough, most) = grows in
    (
      record {
        top = rw (top, stack) safe.top;
        room = rw stack safe.room;
        inside = rw (frames, stack) safe.inside;
        count = rw frames (omega (arith, enough));
        limit = most;
      },
      frames ∙ before.0,
      top ∙ before.1,
      rw stack before.2,
      rw frames enough,
      rw stack before.3,
    )

frames_after-IsReady :
    (n : ℕ) (co : Coroutine) (r : Option CallFault × Coroutine × Mem)
    → IsReady n 0 co r
    → IsReady n 1 co (frames_after r)
unfolding frames_after
frames_after-IsReady n co (some fault, co', m') ready = ready
frames_after-IsReady n co (none, co', m') ready =
    let (safe, frames, top, enough, count, same) = ready in
    frames-IsReady n co co' _ safe (frames, top, enough, same)
      (ensure_frames-FramesGrow (length co'.frames + 1) co' m' safe.limit)

put_frame-Enters :
    (p : Proto) (argc : ℕ) (args : Option (List Ref)) (base : ℕ) (co : Coroutine)
    (r : Option CallFault × Coroutine × Mem)
    → 1 ≤ base
    → IsReady (base + p.local_count + p.stack_size) 1 co r
    → Enters p base co (put_frame p argc args base r)
unfolding put_frame
put_frame-Enters p argc args base co (some fault, co', m') h ready = ready
put_frame-Enters p argc args base co (none, co', m') h ready =
    let (safe, frames, top, enough, count, same) = ready in
    let cells = length-frame_cells p argc args base co'.stack in
    (
      record {
        top = rw cells (omega (arith, enough));
        room = rw cells safe.room;
        inside = (
          h,
          rw cells enough,
          AllInside-mono (length co'.stack) _ co'.frames (omega (arith, cells)) safe.inside,
        );
        count = omega (arith, count);
        limit = safe.limit;
      },
      ap (λ (fs : List Frame). record { code = p; pc = pos 0; base = base } ∷ fs) frames,
      refl,
      λ i h'.
          frame_cells-SameCells p argc args base co'.stack i (omega (arith, h'))
          ∙ same i (omega (arith, h')),
    )

-- A coroutine whose frames lie inside its stack stays so when a frame is pushed, with arguments in
-- place or copied, and whatever fails: the window of the new frame lies inside the stack, which stays
-- within 2^20 cells, and there are at most 1000 frames. A push keeps the cells in use below the cell
-- under its base. A failed push changes neither the frames nor the stack in use, in height or in any
-- cell.
pub push_frame_at-Enters :
    (p : Proto) (argc : ℕ) (args : Option (List Ref)) (base : ℕ) (co : Coroutine) (m : Mem)
    → IsSafe co
    → Enters p base co (push_frame_at p argc args base co m)
unfolding push_frame_at
push_frame_at-Enters p argc args base co m safe =
    let n = base + p.local_count + p.stack_size in
    elim (Option-cases (frame_fault p argc (are_in_place args) base co)) [
      | inr (fault, bad) ↦ rw (bad, push_frame_at) (safe, refl, refl, λ _ _. refl)
      | inl good ↦
          let (above, fits, count, fewer) =
            frame_fault-none p argc (are_in_place args) base co good in
          rw (good, push_frame_at)
            (put_frame-Enters p argc args base co _ above (
              frames_after-IsReady n co _ (
                stack-IsReady n co (ensure_stack n co m) safe
                  (ensure_stack-StackGrows n co m safe.room))))
    ]

-- ===== src/Vm/CallSteps.antt =====
-- src/vm/ms_vm.c: calls and returns keep every frame inside the stack.
use mslang_cc.Base.{
  Option, none, some, List, ◌∷◌, ℕ, ◌+◌, ◌-◌, ◌≤◌, ◌<◌, ◌≡◌, refl, ap, ◌∙◌, arith, length,
}
use mslang_cc.Base.Loop.{Returns, if_rule, option_rule, Returns-map}
use mslang_cc.Memory.{Mem}
use mslang_cc.Object.{Ref}
use mslang_cc.Proto.{Proto}
use mslang_cc.Vm.{
  stack_max_cap, frames_max, Frame, Coroutine, CallFault, frame_fault, frames_after, put_frame,
  are_in_place, push_frame_at,
}
use mslang_cc.Vm.Room.{StackGrows, ensure_stack-StackGrows, FramesGrow, ensure_frames-FramesGrow}
use mslang_cc.Vm.Frames.{
  AllInside, IsSafe, AllInside-mono, length-frame_cells, Enters, push_frame_at-Enters,
}
use mslang_cc.Vm.Host.{Host}
use mslang_cc.Vm.Exec.{
  window_end, Machine, Outcome, ended, returned, with_top, put_cell, push_value, push_next,
}
use mslang_cc.Vm.Run.{arguments, frame_entered, call_function, call_c_function}
use mslang_cc.Vm.Steps.{Place, Keeps, Stays, push_next-Goes}

-- A push never takes cells away.
abbrev Longer : ℕ → Option CallFault × Coroutine × Mem → Type 0
Longer n (fault, co, m) = (n ≤ length co.stack) × (co.frames_cap ≤ frames_max)

stack-Longer :
    (needed : ℕ) (co : Coroutine) (r : Option CallFault × Coroutine × Mem)
    → co.frames_cap ≤ frames_max
    → StackGrows needed co r
    → Longer (length co.stack) r
stack-Longer needed co (some fault, co', m) h same = rw same (omega arith, h)
stack-Longer needed co (none, co', m) h grows = (grows.3, rw (grows.1) h)

grown-Longer :
    (n needed : ℕ) (co : Coroutine) (r : Option CallFault × Coroutine × Mem)
    → n ≤ length co.stack
    → co.frames_cap ≤ frames_max
    → FramesGrow needed co r
    → Longer n r
grown-Longer n needed co (some fault, co', m) h c same = rw same (h, c)
grown-Longer n needed co (none, co', m) h c grows = (rw (grows.1) h, grows.4)

frames_after-Longer :
    (n : ℕ) (r : Option CallFault × Coroutine × Mem) → Longer n r → Longer n (frames_after r)
unfolding frames_after
frames_after-Longer n (some fault, co, m) h = h
frames_after-Longer n (none, co, m) h =
    grown-Longer n _ co _ h.0 h.1 (ensure_frames-FramesGrow (length co.frames + 1) co m h.1)

put_frame-Longer :
    (n : ℕ) (p : Proto) (argc : ℕ) (args : Option (List Ref)) (base : ℕ)
    (r : Option CallFault × Coroutine × Mem)
    → Longer n r
    → n ≤ length (put_frame p argc args base r).1.stack
unfolding put_frame
put_frame-Longer n p argc args base (some fault, co, m) h = h.0
put_frame-Longer n p argc args base (none, co, m) h =
    omega (arith, h.0, length-frame_cells p argc args base co.stack)

pub push_frame_at-longer :
    (p : Proto) (argc : ℕ) (args : Option (List Ref)) (base : ℕ) (co : Coroutine) (m : Mem)
    → IsSafe co
    → length co.stack ≤ length (push_frame_at p argc args base co m).1.stack
unfolding push_frame_at
push_frame_at-longer p argc args base co m safe =
    let n = base + p.local_count + p.stack_size in
    option_rule (λ (r : Option CallFault × Coroutine × Mem). length co.stack ≤ length r.1.stack)
      (frame_fault p argc (are_in_place args) base co)
      (λ _. put_frame-Longer (length co.stack) p argc args base _ (
        frames_after-Longer _ _ (
          stack-Longer n co _ (omega (arith, safe.limit))
            (ensure_stack-StackGrows n co m safe.room))))
      (λ fault _. omega arith)

-- What a C function keeps: the frames, a stack that holds them and has no cell less, and the part of
-- it in use. It may run on the same coroutine.
abbrev pub KeepsCalls : Host → Type 0
KeepsCalls host =
    (callable : Ref) (args : List Ref) (co : Coroutine) (w : host.World)
    → IsSafe co
    → let co' = (host.call_c callable args co w).1 in
      IsSafe co'
      × (co'.frames ≡ co.frames)
      × (co'.stack_top ≡ co.stack_top)
      × (length co.stack ≤ length co'.stack)

-- How an instruction of the frame on top moves the frames: it stays, at some instruction, it is
-- under a new one, or it is gone, and the stack in use ends with the cell for its value.
pub data Shape (base : ℕ) (under : List Frame) : List Frame → ℕ → Type 0 where
  stays : (g : Frame) {t : ℕ} → g.base ≡ base → Shape base under (g ∷ under) t
  enters : (e g : Frame) {t : ℕ} → g.base ≡ base → Shape base under (e ∷ g ∷ under) t
  leaves : {t : ℕ} → t ≡ base → Shape base under under t

pub record Moves (p : Place) (co : Coroutine) : Type 0 where
  pub safe : IsSafe co
  pub longer : p.cells ≤ length co.stack
  pub shape : Shape p.frame.base p.under co.frames co.stack_top

-- Before an instruction of the frame of the place.
pub record IsAt (p : Place) : Type 0 where
  pub above : 1 ≤ p.frame.base
  pub roomy : window_end p.frame ≤ p.cells
  pub inside : AllInside p.cells p.under
  pub room : p.cells ≤ stack_max_cap
  pub count : length p.under + 1 ≤ p.caps
  pub limit : p.caps ≤ frames_max

module _ (host : Host) (p : Place) (at : IsAt p) where
  pub Keeps-IsSafe : (m : Machine host) → Keeps host p m → IsSafe m.co
  Keeps-IsSafe m k = record {
    top = omega (arith, k.top, k.cells);
    room = omega (arith, k.cells, at.room);
    inside = rw k.frames (
      rw k.base at.above,
      rw (k.base, k.code) (omega (arith, at.roomy, k.cells)),
      AllInside-mono p.cells (length m.co.stack) p.under (omega (arith, k.cells)) at.inside,
    );
    count = omega (arith, ap length k.frames, k.caps, at.count);
    limit = rw k.caps at.limit;
  }

  pub Keeps-Moves : (m : Machine host) → Keeps host p m → Moves p m.co
  Keeps-Moves m k = record {
    safe = Keeps-IsSafe m k;
    longer = omega (arith, k.cells);
    shape = rw k.frames (stays k.top_frame k.base);
  }

  -- What an instruction that calls or returns does.
  abbrev pub Done : ℕ → Outcome host → Type 0
  Done stop_at (ended result m) = Moves p m.co
  Done stop_at (returned m) = Moves p m.co × (length m.co.frames ≡ stop_at)

  abbrev pub D : ℕ → Option (Outcome host) → Type 0
  D stop_at o = Returns o (Done stop_at)

  pub Stays-Done : (stop_at : ℕ) (o : Outcome host) → Stays host p o → Done stop_at o
  Stays-Done stop_at (ended result m) k = Keeps-Moves m k
  Stays-Done stop_at (returned m) k = absurd k

  frame_entered-Moves :
      (q : Proto) (base : ℕ) (m : Machine host) (r : Option CallFault × Coroutine × Mem)
      → Keeps host p m
      → Enters q base m.co r
      → p.cells ≤ length r.1.stack
      → Moves p (frame_entered host m r).1.co
  unfolding frame_entered
  frame_entered-Moves q base m (some fault, co, mem) k e longer = record {
    safe = e.0;
    longer = longer;
    shape = rw (e.1, k.frames) (stays k.top_frame k.base);
  }
  frame_entered-Moves q base m (none, co, mem) k e longer = record {
    safe = e.0;
    longer = longer;
    shape = rw (e.1, k.frames) (enters _ k.top_frame k.base);
  }

  pub call_function-Done :
      (stop_at argc base : ℕ) (callable : Ref) (m : Machine host)
      → Keeps host p m
      → D stop_at (call_function host p.frame argc base callable m)
  unfolding call_function
  call_function-Done stop_at argc base callable m k =
      let q = host.function_proto callable m.world in
      let mem = host.memory m.world in
      let safe = Keeps-IsSafe m k in
      if_rule (D stop_at) q.is_async (λ _. Keeps-Moves m k)
        (λ _.
          frame_entered-Moves q base m (push_frame_at q argc none base m.co mem) k
            (push_frame_at-Enters q argc none base m.co mem safe)
            (omega (arith, k.cells, push_frame_at-longer q argc none base m.co mem safe)))

-- The place behind a call of C: the stack and the room for frames may have grown.
abbrev place_after : Place → Coroutine → Place
place_after p co = record {
  frame = p.frame;
  under = p.under;
  cells = length co.stack;
  caps = co.frames_cap;
}

module _ (host : Host) (p : Place) (at : IsAt p) where
  place_after-IsAt :
      (co : Coroutine) (g : Frame)
      → IsSafe co
      → co.frames ≡ g ∷ p.under
      → p.cells ≤ length co.stack
      → IsAt (place_after p co)
  place_after-IsAt co g safe frames longer = record {
    above = at.above;
    roomy = omega (arith, at.roomy, longer);
    inside = AllInside-mono p.cells (length co.stack) p.under longer at.inside;
    room = safe.room;
    count = omega (arith, safe.count, ap length frames);
    limit = safe.limit;
  }

  widen :
      (stop_at : ℕ) (p' : Place)
      → IsAt p'
      → p.cells ≤ p'.cells
      → p'.frame ≡ p.frame
      → p'.under ≡ p.under
      → (o : Outcome host) → Stays host p' o
      → Done host p at stop_at o
  widen stop_at p' at' more same same' (ended result m) k =
      let moves = Keeps-Moves host p' at' m k in
      record {
        safe = moves.safe;
        longer = omega (arith, more, moves.longer);
        shape = rw (same, same') at moves.shape;
      }
  widen stop_at p' at' more same same' (returned m) k = absurd k

  pub call_c_function-Done :
      (stop_at argc base : ℕ) (callable : Ref) (m : Machine host)
      → KeepsCalls host
      → 0 < base
      → base ≤ m.co.stack_top
      → Keeps host p m
      → D host p at stop_at (call_c_function host p.frame argc base callable m)
  unfolding call_c_function push_value put_cell
  call_c_function-Done stop_at argc base callable m law h h' k =
      let safe = Keeps-IsSafe host p at m k in
      let args = arguments host base argc m in
      let called = host.call_c callable args m.co m.world in
      let (safe', frames, top, longer) = law callable args m.co m.world safe in
      let m' : Machine host = record { co = called.1; world = called.2 } in
      let here : Shape p.frame.base p.under called.1.frames called.1.stack_top =
        rw (frames, k.frames) (stays k.top_frame k.base) in
      option_rule (D host p at stop_at) called.0
        (λ _. record { safe = safe'; longer = omega (arith, longer, k.cells); shape = here })
        (λ v _.
          let p' = place_after p called.1 in
          let more : p.cells ≤ length called.1.stack = omega (arith, longer, k.cells) in
          let at' = place_after-IsAt called.1 k.top_frame safe' (frames ∙ k.frames) more in
          let k' : Keeps host p' (with_top host (base - 1) m') = record {
            top_frame = k.top_frame;
            frames = frames ∙ k.frames;
            base = k.base;
            code = k.code;
            cells = refl;
            caps = refl;
            top = omega (arith, k.top, more);
          } in
          Returns-map (Stays host p') (Done host p at stop_at)
            (push_next host v (with_top host (base - 1) m'))
            (λ o stay. widen stop_at p' at' more refl refl o stay)
            (push_next-Goes host p' (with_top host (base - 1) m') v (omega (arith, k.top, more))
              k'))

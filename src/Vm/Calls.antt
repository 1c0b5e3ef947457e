-- ===== src/Vm/Calls.antt =====
-- src/vm/ms_vm.c: `msCallProto` gives the coroutine back in order, with the value of the call.
use mslang_cc.Base.{
  true, false, Option, none, some, List, [], ◌∷◌, ℕ, ◌+◌, ◌-◌, ◌^◌, ◌≤◌, ◌<◌, ◌≡◌, refl, sym, ap,
  inl, inr, arith, ltb, ◌==◌, if◌then◌else◌, ==_iff, Bool-cases, length, get_elem?, get_elem?-lt,
}
use mslang_cc.Base.Int.{pos}
use mslang_cc.Base.Loop.{◌>>=◌, if_rule, Ends, loop_keeps, Ends-bind}
use mslang_cc.Memory.{Mem}
use mslang_cc.Object.{Ref}
use mslang_cc.Proto.{MsResult, is_ok, Proto}
use mslang_cc.Vm.{
  Frame, Coroutine, CallFault, stack_overflow, call_stack_overflow, argument_count, variadic_call,
  frame_layout, in_place_arguments, call_memory, push_frame,
}
use mslang_cc.Vm.Frames.{IsSafe, Enters, push_frame_at-Enters}
use mslang_cc.Vm.Host.{Host, runtime_error, oom, call_error}
use mslang_cc.Vm.Exec.{Machine}
use mslang_cc.Vm.Run.{frame_entered, unwind, run_round, run, returned_value, end_call, call_proto}
use mslang_cc.Vm.CallSteps.{KeepsCalls}
use mslang_cc.Vm.RunLaws.{runtime_result-error, Running, Left, unwind-Finished, run_round-Does}

push_frame-Enters :
    (p : Proto) (args : List Ref) (co : Coroutine) (m : Mem)
    → IsSafe co
    → Enters p (co.stack_top + 1) co (push_frame p args co m)
unfolding push_frame
push_frame-Enters p args co m safe =
    if_rule (Enters p (co.stack_top + 1) co) (co.stack_top == 2 ^ 31 - 1)
      (λ _. (safe, refl, refl, λ _ _. refl))
      (λ _. push_frame_at-Enters p (length args) (some args) (co.stack_top + 1) co m safe)

module _ (host : Host) (law : KeepsCalls host) where
  call_error-error :
      (fault : CallFault) (w : host.World) → is_ok (call_error host fault w).0 ≡ false
  unfolding call_error runtime_error oom
  call_error-error stack_overflow w = runtime_result-error _
  call_error-error call_stack_overflow w = runtime_result-error _
  call_error-error argument_count w = runtime_result-error _
  call_error-error variadic_call w = runtime_result-error _
  call_error-error frame_layout w = runtime_result-error _
  call_error-error in_place_arguments w = runtime_result-error _
  call_error-error call_memory w = refl

  -- A run from above the frames `kept`.
  run-Finished :
      (fuel b : ℕ) (kept : List Frame) (m : Machine host)
      → length kept < length m.co.frames
      → Running host law b m.co.stack_top kept m
      → Ends (run host fuel (length kept) m) (Left host law b m.co.stack_top kept)
  unfolding run
  run-Finished fuel b kept m h r =
      let P : Option (Option (MsResult × Machine host)) → Type 0 =
        λ o. Ends o (Left host law b m.co.stack_top kept) in
      if_rule P (ltb (length m.co.frames) (length kept)) (λ e. absurd (ground arith))
        λ _.
          if_rule P (length kept == length m.co.frames) (λ e. absurd (ground arith))
            (λ _.
              loop_keeps (Running host law b m.co.stack_top kept)
                (Left host law b m.co.stack_top kept) (run_round host (length kept) m.co.stack_top)
                (run_round-Does host law b m.co.stack_top kept) fuel m r)

  -- The frames are those of the start; the stack in use is as high, with the value of the call on top
  -- where there is no error.
  pub record Restored (m : Machine host) (result : MsResult) (value : Option Ref)
      (m' : Machine host) : Type 0 where
    pub safe : IsSafe m'.co
    pub frames : m'.co.frames ≡ m.co.frames
    pub top : m'.co.stack_top ≡ (if is_ok result then m.co.stack_top + 1 else m.co.stack_top)
    pub returns : value ≡ (if is_ok result then get_elem? m'.co.stack m.co.stack_top else none)

  abbrev pub Restores : Machine host → Option (MsResult × Option Ref × Machine host) → Type 0
  Restores m none = ⊥
  Restores m (some (result, value, m')) = Restored m result value m'

  unwind-Restored :
      (m m1 : Machine host) (result : MsResult)
      → is_ok result ≡ false
      → IsSafe m1.co
      → m1.co.frames ≡ m.co.frames
      → m.co.stack_top ≤ length m1.co.stack
      → Restored m result none (unwind host (length m.co.frames) m.co.stack_top m1)
  unfolding unwind
  unwind-Restored m m1 result bad safe frames long =
      let done =
        unwind-Finished host law m1.co.stack_top m.co.stack_top m.co.frames result m1 bad (record {
          safe = safe;
          long = long;
          own = record { above = []; split = frames; bottom = refl };
        }) in
      record { safe = done.safe; frames = done.frames; top = rw bad refl; returns = rw bad refl }

  end_call-Restores :
      (m : Machine host) (top : ℕ) (o : Option (MsResult × Machine host))
      → m.co.stack_top ≤ top
      → Left host law (m.co.stack_top + 1) top m.co.frames o
      → Restores m (end_call host (length m.co.frames) m.co.stack_top o)
  unfolding end_call returned_value
  end_call-Restores m top none h left = left
  end_call-Restores m top (some (result, m2)) h left = elim (Bool-cases (is_ok result)) [
    | inr bad ↦ rw bad (
        unwind-Restored m m2 result bad left.safe left.frames
          (omega (arith, h, left.safe.top, rw bad at left.ends)))
    | inl good ↦
        let one : m2.co.stack_top ≡ m.co.stack_top + 1 = rw good at left.ends in
        let there : (m2.co.stack_top == m.co.stack_top + 1) ≡ true =
          (==_iff m2.co.stack_top (m.co.stack_top + 1)).1 one in
        let (v, found) =
          get_elem?-lt m2.co.stack m.co.stack_top (omega (arith, one, left.safe.top)) in
        rw (good, there, found)
          (record { safe = left.safe; frames = left.frames; top = one; returns = sym found })
  ]

  pushed-Restores :
      (fuel : ℕ) (p : Proto) (m : Machine host) (r : Option CallFault × Coroutine × Mem)
      → IsSafe m.co
      → Enters p (m.co.stack_top + 1) m.co r
      → let (result, m') = frame_entered host m r in
        Ends
          (if is_ok result
            then (run host fuel (length m.co.frames) m' >>= λ end.
                some (end_call host (length m.co.frames) m.co.stack_top end))
            else some (some (result, none, unwind host (length m.co.frames) m.co.stack_top m')))
          (Restores m)
  unfolding frame_entered
  pushed-Restores fuel p m (some fault, co, mem) safe e =
      rw (call_error-error fault (host.set_memory mem m.world)) (
        unwind-Restored m _ _ (call_error-error fault (host.set_memory mem m.world)) e.0 e.1
          (omega (arith, e.0.top, e.2)))
  pushed-Restores fuel p m (none, co, mem) safe e =
      let m' : Machine host = record { co = co; world = host.set_memory mem m.world } in
      Ends-bind (Left host law (m.co.stack_top + 1) m'.co.stack_top m.co.frames) (Restores m)
        (run host fuel (length m.co.frames) m') _
        (run-Finished fuel (m.co.stack_top + 1) m.co.frames m' (omega (arith, ap length e.1))
          (record {
            safe = e.0;
            long = e.0.top;
            own = record {
              above = record { code = p; pc = pos 0; base = m.co.stack_top + 1 } ∷ [];
              split = e.1;
              bottom = refl;
            };
          }))
        (λ o left. end_call-Restores m m'.co.stack_top o (omega (arith, e.2)) left)

  -- A call of a proto, whatever its code, leaves the coroutine in order, if it ends: no access was
  -- outside the stack, the frames, the constants or a list, the frames are those from before the call,
  -- and the stack in use is as high as before, or one cell higher where the call succeeds, as the
  -- assertion at the end of `msCallProto` has it; the value in that cell is the one handed back. What the
  -- cells below it hold is left open. A C function is assumed to keep the frames and the height of the
  -- stack in use, too.
  pub call_proto-Restores :
      (fuel : ℕ) (p : Proto) (args : List Ref) (m : Machine host)
      → IsSafe m.co
      → Ends (call_proto host fuel p args m) (Restores m)
  unfolding call_proto
  call_proto-Restores fuel p args m safe =
      pushed-Restores fuel p m (push_frame p args m.co (host.memory m.world)) safe
        (push_frame-Enters p args m.co (host.memory m.world) safe)

-- ===== src/Vm/RunLaws.antt =====
-- src/vm/ms_vm.c: a run of the loop and a call of a proto keep the stack and the frames in order.
use mslang_cc.Base.{
  false, Option, none, some, List, [], ◌∷◌, ◌++◌, ℕ, ◌-◌, ◌≤◌, ◌<◌, ◌≡◌, refl, sym, ap, ◌∙◌, inl,
  inr, arith, ltb, if◌then◌else◌, Bool-cases, length, drop, length-append,
}
use mslang_cc.Base.Loop.{Round, Returns, Does, if_rule, option_rule}
use mslang_cc.Proto.{MsResult, ok, error_runtime, error_syntax, error_oom, is_ok}
use mslang_cc.Opcode.{decode_op}
use mslang_cc.Vm.{Frame}
use mslang_cc.Vm.Frames.{IsSafe}
use mslang_cc.Vm.Host.{
  Host, runtime_result, message_has_location, error_at, pending_message, is_oom, wrap_error_at,
}
use mslang_cc.Vm.Exec.{Machine, Outcome, ended, returned, with_world, with_frame}
use mslang_cc.Vm.Run.{
  exec, fetch, unwind, is_runtime, end_with_error, step_pc, frame_on_top, after_exec,
  no_instruction, run_frame, run_round,
}
use mslang_cc.Vm.Steps.{Place, Keeps}
use mslang_cc.Vm.CallSteps.{KeepsCalls, Moves, IsAt, D}
use mslang_cc.Vm.ExecLaws.{exec-Done}
use mslang_cc.Vm.Shapes.{
  Bottom-base, Above, Shape-Above, drop-append, AllInside-kept, no_frames, Top, own-Top,
}

pub runtime_result-error : (r : MsResult) → is_ok (runtime_result r) ≡ false
unfolding runtime_result
runtime_result-error ok = refl
runtime_result-error error_runtime = refl
runtime_result-error error_syntax = refl
runtime_result-error error_oom = refl

module _ (host : Host) (law : KeepsCalls host) (b top : ℕ) (kept : List Frame) where
  -- During a run: the frames kept lie under its own, and the stack still has the cells that were in
  -- use at its start.
  pub record Running (m : Machine host) : Type 0 where
    pub safe : IsSafe m.co
    pub long : top ≤ length m.co.stack
    pub own : Above b kept m.co.frames m.co.stack_top

  -- Behind a run: only the frames kept are there. The stack in use ends at `b`, or with an error where
  -- it ended at the start.
  pub record Finished (result : MsResult) (m : Machine host) : Type 0 where
    pub safe : IsSafe m.co
    pub frames : m.co.frames ≡ kept
    pub ends : m.co.stack_top ≡ (if is_ok result then b else top)

  abbrev pub Left : Option (MsResult × Machine host) → Type 0
  Left o = Returns o (λ (q : MsResult × Machine host). Finished q.0 q.1)

  pub unwind-Finished :
      (result : MsResult) (m : Machine host)
      → is_ok result ≡ false
      → Running m
      → Finished result (unwind host (length kept) top m)
  unfolding unwind
  unwind-Finished result m bad r =
      let own = r.own in
      let frames : drop (length m.co.frames - length kept) m.co.frames ≡ kept =
        rw own.split (drop-append own.above kept) in
      record {
        safe = record {
          top = r.long;
          room = r.safe.room;
          inside =
              rw frames
                (AllInside-kept (length m.co.stack) own.above kept (rw own.split at r.safe.inside));
          count =
              rw frames
                (omega (arith, r.safe.count, ap length own.split, length-append own.above kept));
          limit = r.safe.limit;
        };
        frames = frames;
        ends = rw bad refl;
      }

  pub ok-Finished :
      (m : Machine host) → length m.co.frames ≤ length kept → Running m → Finished ok m
  ok-Finished m few r =
      let own = r.own in
      let nothing : own.above ≡ [] =
        no_frames own.above kept (omega (arith, few, ap length own.split)) in
      record {
        safe = r.safe;
        frames = own.split ∙ ap (λ (l : List Frame). l ++ kept) nothing;
        ends = rw nothing at own.bottom;
      }

  same_co : (m : Machine host) (w : host.World) → Running m → Running (with_world host w m)
  same_co m w r = record { safe = r.safe; long = r.long; own = r.own }

  error_at-error :
      (f : Frame) (message : List ℕ) (w : host.World) → is_ok (error_at host f message w).0 ≡ false
  unfolding error_at
  error_at-error f message w = runtime_result-error _

  wrap_error_at-error : (f : Frame) (w : host.World) → is_ok (wrap_error_at host f w).0 ≡ false
  unfolding wrap_error_at
  wrap_error_at-error f w =
      let P : MsResult × host.World → Type 0 = λ q. is_ok q.0 ≡ false in
      if_rule P (is_oom host (host.error_result w)) (λ _. refl)
        λ _.
          if_rule P (message_has_location (pending_message host (host.error_message w))) (λ _. refl)
            (λ _. error_at-error f _ w)

  end_with_error-Left :
      (f : Frame) (result : MsResult) (m : Machine host)
      → is_ok result ≡ false
      → Running m
      → Left (some (end_with_error host (length kept) top f result m))
  unfolding end_with_error
  end_with_error-Left f result m bad r = elim (Bool-cases (is_runtime host result)) [
    | inl e ↦
        rw e
          (unwind-Finished _ (with_world host _ m) (wrap_error_at-error f m.world) (same_co m _ r))
    | inr e ↦ rw e (unwind-Finished result (with_world host m.world m) bad (same_co m m.world r))
  ]

  abbrev RoundOf : Round (Machine host) (Option (MsResult × Machine host)) → Type 0
  RoundOf r = Does r Running Left

  -- Behind an instruction of the frame on top.
  moved-Running :
      (p : Place) (t0 : ℕ) (m : Machine host)
      → top ≤ p.cells
      → Top b kept p.frame p.under t0
      → Moves p m.co
      → Running m
  moved-Running p t0 m long own moves = record {
    safe = moves.safe;
    long = omega (arith, long, moves.longer);
    own = Shape-Above b kept own.above p.frame t0 own.split own.bottom moves.shape;
  }

  after_exec-Does :
      (p : Place) (at : IsAt p) (t0 : ℕ) (o : Option (Outcome host))
      → top ≤ p.cells
      → Top b kept p.frame p.under t0
      → D host p at (length kept) o
      → RoundOf (after_exec host (length kept) top p.frame o)
  unfolding after_exec
  after_exec-Does p at t0 none long own d = absurd d
  after_exec-Does p at t0 (some (returned m)) long own d =
      ok-Finished m (omega (arith, d.1)) (moved-Running p t0 m long own d.0)
  after_exec-Does p at t0 (some (ended result m)) long own d =
      let running = moved-Running p t0 m long own d in
      if_rule RoundOf (is_ok result) (λ _. running)
        (λ bad. end_with_error-Left (frame_on_top host m.co.frames p.frame) result m bad running)

  run_frame-Does :
      (frames : List Frame) (m : Machine host)
      → m.co.frames ≡ frames
      → length kept < length frames
      → Running m
      → RoundOf (run_frame host (length kept) top frames m)
  unfolding run_frame no_instruction
  run_frame-Does [] m e h r = absurd (omega arith)
  run_frame-Does (f ∷ under) m e h r =
      let own =
        own-Top b kept r.own.above f under m.co.stack_top (sym e ∙ r.own.split) h r.own.bottom in
      let inside = rw e at r.safe.inside in
      let p : Place = record {
        frame = step_pc host f;
        under = under;
        cells = length m.co.stack;
        caps = m.co.frames_cap;
      } in
      let at : IsAt p = record {
        above = inside.0;
        roomy = inside.1;
        inside = inside.2;
        room = r.safe.room;
        count = omega (arith, r.safe.count, ap length e);
        limit = r.safe.limit;
      } in
      let k : Keeps host p (with_frame host p.frame m) = record {
        top_frame = p.frame;
        frames = ap (λ (fs : List Frame). p.frame ∷ drop 1 fs) e;
        base = refl;
        code = refl;
        cells = refl;
        caps = refl;
        top = r.safe.top;
      } in
      option_rule RoundOf (fetch host f)
        (λ _. unwind-Finished _ (with_world host _ m) (error_at-error f _ m.world) (same_co m _ r))
        (λ i _.
          after_exec-Does p at m.co.stack_top
            (exec host (length kept) p.frame (decode_op i) i (with_frame host p.frame m)) r.long
            (record {
              above = own.above;
              split = own.split;
              bottom = Bottom-base b m.co.stack_top f p.frame own.above refl own.bottom;
            })
            (exec-Done host p at law (length kept) (decode_op i) i (with_frame host p.frame m) k))

  pub run_round-Does : (m : Machine host) → Running m → RoundOf (run_round host (length kept) top m)
  unfolding run_round
  run_round-Does m r =
      if_rule RoundOf (ltb (length kept) (length m.co.frames))
        (λ e. run_frame-Does m.co.frames m refl (ground arith) r)
        (λ e. ok-Finished m (ground arith) r)

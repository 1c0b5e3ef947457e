-- ===== src/Vm/Run.antt =====
-- src/vm/ms_vm.c: the loop of the virtual machine, `msVmRun`, and the call of a proto, `msCallProto`.
use mslang_cc.Base.{
  Bool, true, false, not, Option, none, some, List, [], ◌∷◌, ℕ, ◌+◌, ◌-◌, ltb, ◌==◌, if◌then◌else◌,
  length, get_elem?, take, drop,
}
use mslang_cc.Base.Int.{pos, pos_part, ◌+ℤ◌, ltb_ℤ}
use mslang_cc.Base.Loop.{Round, again, leave, loop, ◌>>=◌}
use mslang_cc.Base.Text.{codes}
use mslang_cc.Object.{TypeTag, function_tag, c_function_tag, Ref, nil_ref, bool_ref}
use mslang_cc.Proto.{Proto, is_ok, MsResult, ok, error_runtime}
use mslang_cc.Opcode.{
  OpCode, op_load_const, op_load_nil, op_load_true, op_load_false, op_move, op_load_local,
  op_store_local, op_load_global, op_store_global, op_add, op_sub, op_mul, op_div, op_floordiv,
  op_mod, op_pow, op_neg, op_not, op_bitand, op_bitor, op_bitxor, op_shl, op_shr, op_invert, op_eq,
  op_ne, op_lt, op_le, op_gt, op_ge, op_is, op_in, op_build_dict, op_call, op_return, op_nop,
  op_of_number, decode_op, decode_a, decode_bx, decode_sax, op_build_list, op_cmp_chain, op_jump,
  op_jump_if_false, op_jump_if_nil, op_jump_if_true, op_unpack,
}
use mslang_cc.Memory.{Mem}
use mslang_cc.Vm.{push_frame, Frame, Coroutine, CallFault, push_frame_at, can_pop}
use mslang_cc.Vm.Host.{Host, runtime_error, error_at, wrap_error_at, call_error}
use mslang_cc.Vm.Exec.{
  Machine, Outcome, ended, returned, with_world, with_top, with_frame, fail_at, propagate,
  underflow, cell, push_value, pop, push_next, load, with_const, move_local, load_local,
  store_local, load_global, store_global, exec_binary, exec_unary, exec_compare, exec_chain,
  exec_jump, exec_jump_if,
}
use mslang_cc.Vm.Items.{exec_build, exec_unpack}

module _ (host : Host) where
  open host use {memory, set_memory, tag, put_global, function_proto, call_c}

  -- the `argc` cells from `base` on
  abbrev pub arguments : ℕ → ℕ → Machine host → List Ref
  arguments base argc m = take argc (drop base m.co.stack)

  -- a frame pushed, or the error of the call
  unfoldable pub frame_entered :
      Machine host → Option CallFault × Coroutine × Mem → MsResult × Machine host
  unfolding call_error
  frame_entered m (none, co, mem) = (ok, record { co = co; world = set_memory mem m.world })
  frame_entered m (some fault, co, mem) =
      let (result, w) = call_error host fault (set_memory mem m.world) in
      (result, record { co = co; world = w })

  -- the call of a function of the language
  unfoldable pub call_function : Frame → ℕ → ℕ → Ref → Machine host → Option (Outcome host)
  unfolding push_frame_at frame_entered error_at
  call_function f argc base callable m =
      let p = function_proto callable m.world in
      if p.is_async
      then fail_at host f (codes "async call requires the scheduler") m
      else (let (result, m') =
            frame_entered m (push_frame_at p argc none base m.co (memory m.world)) in
          some (ended result m'))

  -- the call of a C function
  unfoldable pub call_c_function : Frame → ℕ → ℕ → Ref → Machine host → Option (Outcome host)
  unfolding push_value wrap_error_at
  call_c_function f argc base callable m =
      let (answer, co, w) = call_c callable (arguments base argc m) m.co m.world in
      let m' : Machine host = record { co = co; world = w } in
      elim answer [
        | none ↦ propagate host f m'
        | some v ↦ push_next host v (with_top host (base - 1) m')
      ]

  abbrev pub is_function : TypeTag → Bool
  is_function function_tag = true
  is_function _ = false

  abbrev pub is_c_function : TypeTag → Bool
  is_c_function c_function_tag = true
  is_c_function _ = false

  unfoldable pub call_value : Frame → ℕ → ℕ → Machine host → Ref → Option (Outcome host)
  unfolding call_function call_c_function error_at
  call_value f argc base m callable =
      if is_function (tag callable m.world)
      then call_function f argc base callable m
      else if is_c_function (tag callable m.world)
      then call_c_function f argc base callable m
      else fail_at host f (codes "object is not callable") m

  -- `MS_OP_CALL`
  unfoldable pub exec_call : Frame → ℕ → Machine host → Option (Outcome host)
  unfolding call_value error_at
  exec_call f argc m =
      if ltb m.co.stack_top (argc + 1)
      then fail_at host f (codes "invalid call stack") m
      else (cell host (m.co.stack_top - argc - 1) m >>= call_value f argc (m.co.stack_top - argc) m)

  abbrev pub drop_frame : Machine host → Machine host
  drop_frame m = record m { co = record m.co { frames = drop 1 m.co.frames } }

  -- `MS_OP_RETURN`; the cell for the value is below the base
  unfoldable pub exec_return : ℕ → Frame → Machine host → Option (Outcome host)
  unfolding can_pop pop push_value error_at
  exec_return stop_at f m =
      if not (can_pop m.co f) then underflow host f m else if f.base == 0 then none else (do
        (v, m1) ← pop host m
        m2 ← push_value host v (with_top host (f.base - 1) (drop_frame m1))
        some (if length m2.co.frames == stop_at then returned m2 else ended ok m2))

  -- the `switch` of `msVmRun`
  unfoldable pub exec : ℕ → Frame → Option OpCode → ℕ → Machine host → Option (Outcome host)
  unfolding with_const load move_local load_local store_local load_global store_global exec_binary
      exec_unary exec_compare exec_chain exec_jump exec_jump_if exec_build exec_unpack exec_call
      exec_return decode_a decode_bx decode_sax error_at
  exec stop_at f (some op_nop) i m = some (ended ok m)
  exec stop_at f (some op_load_const) i m = with_const host f (decode_bx i) m (λ v. load host f v m)
  exec stop_at f (some op_load_nil) i m = load host f nil_ref m
  exec stop_at f (some op_load_true) i m = load host f (bool_ref true) m
  exec stop_at f (some op_load_false) i m = load host f (bool_ref false) m
  exec stop_at f (some op_move) i m = move_local host f (decode_a i) (decode_bx i) m
  exec stop_at f (some op_load_local) i m = load_local host f (decode_a i) m
  exec stop_at f (some op_store_local) i m = store_local host f (decode_a i) m
  exec stop_at f (some op_load_global) i m =
      with_const host f (decode_bx i) m (λ v. load_global host f v m)
  exec stop_at f (some op_store_global) i m =
      with_const host f (decode_bx i) m (λ v. store_global host f v m)
  exec stop_at f (some op_add) i m = exec_binary host f op_add m
  exec stop_at f (some op_sub) i m = exec_binary host f op_sub m
  exec stop_at f (some op_mul) i m = exec_binary host f op_mul m
  exec stop_at f (some op_div) i m = exec_binary host f op_div m
  exec stop_at f (some op_floordiv) i m = exec_binary host f op_floordiv m
  exec stop_at f (some op_mod) i m = exec_binary host f op_mod m
  exec stop_at f (some op_pow) i m = exec_binary host f op_pow m
  exec stop_at f (some op_bitand) i m = exec_binary host f op_bitand m
  exec stop_at f (some op_bitor) i m = exec_binary host f op_bitor m
  exec stop_at f (some op_bitxor) i m = exec_binary host f op_bitxor m
  exec stop_at f (some op_shl) i m = exec_binary host f op_shl m
  exec stop_at f (some op_shr) i m = exec_binary host f op_shr m
  exec stop_at f (some op_neg) i m = exec_unary host f op_neg m
  exec stop_at f (some op_invert) i m = exec_unary host f op_invert m
  exec stop_at f (some op_not) i m = exec_unary host f op_not m
  exec stop_at f (some op_eq) i m = exec_compare host f op_eq m
  exec stop_at f (some op_ne) i m = exec_compare host f op_ne m
  exec stop_at f (some op_lt) i m = exec_compare host f op_lt m
  exec stop_at f (some op_le) i m = exec_compare host f op_le m
  exec stop_at f (some op_gt) i m = exec_compare host f op_gt m
  exec stop_at f (some op_ge) i m = exec_compare host f op_ge m
  exec stop_at f (some op_is) i m = exec_compare host f op_is m
  exec stop_at f (some op_in) i m = exec_compare host f op_in m
  exec stop_at f (some op_cmp_chain) i m =
      exec_chain host f (op_of_number (decode_a i)) (decode_bx i) m
  exec stop_at f (some op_jump) i m = exec_jump host f (decode_sax i) m
  exec stop_at f (some op_jump_if_false) i m = exec_jump_if host f op_jump_if_false (decode_sax i) m
  exec stop_at f (some op_jump_if_true) i m = exec_jump_if host f op_jump_if_true (decode_sax i) m
  exec stop_at f (some op_jump_if_nil) i m = exec_jump_if host f op_jump_if_nil (decode_sax i) m
  exec stop_at f (some op_build_list) i m = exec_build host f false (decode_a i) m
  exec stop_at f (some op_build_dict) i m = exec_build host f true (decode_a i) m
  exec stop_at f (some op_unpack) i m = exec_unpack host f (decode_a i) (decode_bx i) m
  exec stop_at f (some op_call) i m = exec_call f (decode_a i) m
  exec stop_at f (some op_return) i m = exec_return stop_at f m
  exec stop_at f _ i m = fail_at host f (codes "opcode not implemented") m

  -- the instruction at `pc`, where there is one
  unfoldable pub fetch : Frame → Option ℕ
  fetch f = if ltb_ℤ f.pc (pos 0) then none else get_elem? f.code.code (pos_part f.pc)

  -- the state behind an error: the frames above `stop_at` are gone
  unfoldable pub unwind : ℕ → ℕ → Machine host → Machine host
  unwind stop_at top m = record m {
    co = record m.co { frames = drop (length m.co.frames - stop_at) m.co.frames; stack_top = top };
  }

  abbrev pub is_runtime : MsResult → Bool
  is_runtime error_runtime = true
  is_runtime _ = false

  -- an error of an instruction of `f`
  unfoldable pub end_with_error : ℕ → ℕ → Frame → MsResult → Machine host → MsResult × Machine host
  unfolding wrap_error_at unwind
  end_with_error stop_at top f result m =
      let (result', w) =
        if is_runtime result then wrap_error_at host f m.world else (result, m.world) in
      (result', unwind stop_at top (with_world host w m))

  abbrev pub step_pc : Frame → Frame
  step_pc f = record f { pc = f.pc +ℤ pos 1 }

  abbrev pub frame_on_top : List Frame → Frame → Frame
  frame_on_top [] f = f
  frame_on_top (g ∷ gs) f = g

  -- behind an instruction of `f`; a loop that is left with nothing has gone outside an array
  unfoldable pub after_exec :
      ℕ
      → ℕ
      → Frame
      → Option (Outcome host)
      → Round (Machine host) (Option (MsResult × Machine host))
  unfolding end_with_error
  after_exec stop_at top f none = leave none
  after_exec stop_at top f (some (returned m)) = leave (some (ok, m))
  after_exec stop_at top f (some (ended result m)) =
      if is_ok result
      then again m
      else leave (some (end_with_error stop_at top (frame_on_top m.co.frames f) result m))

  -- no instruction at `pc`
  unfoldable pub no_instruction : ℕ → ℕ → Frame → Machine host → MsResult × Machine host
  unfolding error_at unwind
  no_instruction stop_at top f m =
      let (result, w) = error_at host f (codes "instruction pointer out of bounds") m.world in
      (result, unwind stop_at top (with_world host w m))

  -- an instruction of the frame on top
  unfoldable pub run_frame :
      ℕ → ℕ → List Frame → Machine host → Round (Machine host) (Option (MsResult × Machine host))
  unfolding exec fetch after_exec no_instruction
  run_frame stop_at top [] m = leave none
  run_frame stop_at top (f ∷ frames) m = elim (fetch f) [
    | none ↦ leave (some (no_instruction stop_at top f m))
    | some i ↦
        let g = step_pc f in
        after_exec stop_at top g (exec stop_at g (decode_op i) i (with_frame host g m))
  ]

  -- The body of the loop in `msVmRun`.
  unfoldable pub run_round :
      ℕ → ℕ → Machine host → Round (Machine host) (Option (MsResult × Machine host))
  unfolding run_frame
  run_round stop_at top m =
      if ltb stop_at (length m.co.frames)
      then run_frame stop_at top m.co.frames m
      else leave (some (ok, m))

  -- `msVmRun`; on fuel, since a program may run forever
  unfoldable pub run : ℕ → ℕ → Machine host → Option (Option (MsResult × Machine host))
  unfolding loop run_round runtime_error
  run fuel stop_at m =
      if ltb (length m.co.frames) stop_at
      then (let (result, w) = runtime_error host (codes "invalid stop depth") m.world in
          some (some (result, with_world host w m)))
      else if stop_at == length m.co.frames
      then some (some (ok, m))
      else loop fuel (run_round stop_at m.co.stack_top) m

  -- the value that a call leaves, and the assertion on the stack
  unfoldable pub returned_value : ℕ → Machine host → Option (MsResult × Option Ref × Machine host)
  returned_value top m =
      if m.co.stack_top == top + 1 then (cell host top m >>= λ v. some (ok, some v, m)) else none

  -- behind the loop
  unfoldable pub end_call :
      ℕ → ℕ → Option (MsResult × Machine host) → Option (MsResult × Option Ref × Machine host)
  unfolding returned_value unwind
  end_call frames top none = none
  end_call frames top (some (result, m)) =
      if is_ok result then returned_value top m else some (result, none, unwind frames top m)

  -- `msCallProto`, with a place for the value
  unfoldable pub call_proto :
      ℕ → Proto → List Ref → Machine host → Option (Option (MsResult × Option Ref × Machine host))
  unfolding push_frame frame_entered run end_call unwind
  call_proto fuel p args m =
      let frames = length m.co.frames in
      let top = m.co.stack_top in
      let (result, m') = frame_entered m (push_frame p args m.co (memory m.world)) in
      if is_ok result
      then (run fuel frames m' >>= λ end. some (end_call frames top end))
      else some (some (result, none, unwind frames top m'))

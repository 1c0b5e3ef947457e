-- ===== src/Examples/Calls.antt =====
-- Runs of the virtual machine, over a host with only nil, the Booleans and functions of C.
use mslang_cc.Base.{
  Bool, true, false, not, ◌&&◌, ◌||◌, Option, none, some, List, [], ◌∷◌, ◌++◌, map, ℕ, zero, suc,
  ◌+◌, ◌-◌, ◌*◌, ◌/◌, ◌%◌, ◌^◌, ◌≤◌, ◌<◌, min, max, bit_and, bit_or, bit_xor, ◌≡◌, refl, sym, ap,
  ◌∙◌, ◌≡⟨◌⟩◌, ◌∎, ◌≢◌, ◌↔◌, ◌⊎◌, inl, inr, arith, ltb, leb, ◌==◌, if◌then◌else◌, ltb→lt, lt→ltb,
  leb→le, ==_iff, tests, Bool-cases, Option-cases, none≢some, length, get_elem?, set, take, drop,
  replicate, length-append, length-set, length-replicate, length-take, get_elem?-set_self,
  get_elem?-set_ne, get_elem?-lt, get_elem?-some, get_elem?-append_left, get_elem?-append_self,
  List-cases,
}
use mslang_cc.Base.Int.{negsuc}
use mslang_cc.Base.Loop.{Ends}
use mslang_cc.Memory.{Mem, zero_stats, obtain, realloc}
use mslang_cc.Object.{TypeTag, nil_tag, bool_tag, c_function_tag, Ref, nil_ref, bool_ref, cell_ref}
use mslang_cc.Proto.{MsResult, ok, error_runtime, error_oom, Proto, empty_proto}
use mslang_cc.Opcode.{
  op_number, op_load_true, op_call, encode_abc, op_not, op_return, op_jump, op_load_local,
}
use mslang_cc.Vm.{
  coroutine_init, grow_cap, resize, ensure_cap, ensure_stack, ensure_frames, write_all, frame_fault,
  frame_cells, frames_after, put_frame,
}
use mslang_cc.Vm.Frames.{IsSafe}
use mslang_cc.Vm.Host.{Host}
use mslang_cc.Vm.Exec.{Machine}
use mslang_cc.Vm.Run.{call_proto}
use mslang_cc.Vm.CallSteps.{KeepsCalls}
use mslang_cc.Vm.Calls.{Restores, call_proto-Restores}

abbrev plain_tag : Ref → TypeTag
plain_tag nil_ref = nil_tag
plain_tag (bool_ref b) = bool_tag
plain_tag _ = c_function_tag

abbrev truth : Ref → Bool
truth (bool_ref b) = b
truth _ = false

abbrev plain_host : Host
plain_host = record {
  World = Mem;
  memory = λ w. w;
  set_memory = λ m _. m;
  raise_runtime = λ _ w. w;
  raise_type = λ _ w. w;
  raise_value = λ _ w. w;
  error_result = λ _. error_runtime;
  set_error_result = λ _ w. w;
  error_message = λ _. none;
  tag = λ v _. plain_tag v;
  type_name = λ _ _. [];
  string_data = λ _ _. [];
  truthy = λ v _. truth v;
  binary = λ _ x _ w. (some x, w);
  unary = λ _ x w. (some (bool_ref (not (truth x))), w);
  compare = λ _ _ _ w. (some false, w);
  global_of = λ _ _. none;
  put_global = λ _ _ w. (ok, w);
  fresh_list = λ _ w. (none, w);
  append_item = λ _ _ w. (error_oom, w);
  list_items = λ _ _. [];
  fresh_dict = λ w. (none, w);
  set_item = λ _ _ _ w. (error_oom, w);
  function_proto = λ _ _. empty_proto;
  call_c = λ _ _ co w. (some nil_ref, co, w);
}

plain_host-KeepsCalls : KeepsCalls plain_host
plain_host-KeepsCalls callable args co w safe = (safe, refl, refl, omega arith)

-- `not x` of the one argument
abbrev negation : Proto
negation = record empty_proto {
  code = op_number op_load_local ∷ op_number op_not ∷ op_number op_return ∷ [];
  param_count = 1;
  local_count = 1;
  stack_size = 1;
}

abbrev fresh : Machine plain_host
fresh = record {
  co = coroutine_init;
  world = record { stats = zero_stats; fail_after = negsuc 0; host = [] };
}

fresh-IsSafe : IsSafe fresh.co
unfolding coroutine_init
fresh-IsSafe = record {
  top = omega arith;
  room = omega arith;
  inside = tt;
  count = omega arith;
  limit = omega arith;
}

call_proto-Restores_example :
    Ends
      (call_proto plain_host 10 negation (bool_ref true ∷ []) fresh)
      (Restores plain_host plain_host-KeepsCalls fresh)
call_proto-Restores_example =
    call_proto-Restores plain_host plain_host-KeepsCalls 10 negation (bool_ref true ∷ []) fresh
      fresh-IsSafe

-- What a call gives, and the stack in use behind it.
abbrev outcome :
    Option (Option (MsResult × Option Ref × Machine plain_host))
    → Option (MsResult × Option Ref × ℕ)
outcome (some (some (result, value, m))) = some (result, value, m.co.stack_top)
outcome _ = none

not_true :
    outcome (call_proto plain_host 10 negation (bool_ref true ∷ []) fresh)
    ≡ some (ok, some (bool_ref false), 1)
unfolding call_proto coroutine_init op_number empty_proto zero_stats frame_fault put_frame
    frames_after ensure_stack ensure_cap grow_cap resize realloc obtain ensure_frames
    mslang_cc.Opcode.decode_op mslang_cc.Opcode.op_of_number frame_cells write_all
    mslang_cc.Base.Int.◌+ℤ◌
not_true = refl

-- `CALL 2` with one cell in use from the frame's base on, and one below it, the caller's.
abbrev reaching : Proto
reaching = record empty_proto {
  code = op_number op_load_true ∷ encode_abc op_call 2 0 ∷ op_number op_return ∷ [];
  stack_size = 1;
}

abbrev one_cell : Machine plain_host
one_cell = record fresh { co = record fresh.co { stack = cell_ref 5 ∷ []; stack_top = 1 } }

-- What a call gives, and the lowest cell behind it.
abbrev lowest :
    Option (Option (MsResult × Option Ref × Machine plain_host)) → Option (MsResult × Option Ref)
lowest (some (some (result, value, m))) = some (result, get_elem? m.co.stack 0)
lowest _ = none

-- The cell of the caller is taken as the callable, and overwritten.
caller_overwritten :
    (get_elem? one_cell.co.stack 0 ≡ some (cell_ref 5))
    × (lowest (call_proto plain_host 10 reaching [] one_cell) ≡ some (error_runtime, some nil_ref))
unfolding call_proto coroutine_init op_number empty_proto zero_stats frame_fault put_frame
    frames_after ensure_stack ensure_cap grow_cap resize realloc obtain ensure_frames
    mslang_cc.Opcode.decode_op mslang_cc.Opcode.op_of_number frame_cells write_all
    mslang_cc.Base.Int.◌+ℤ◌ encode_abc mslang_cc.Vm.next_cap
caller_overwritten = (refl, refl)

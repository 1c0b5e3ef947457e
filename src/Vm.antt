-- ===== src/Vm.antt =====
-- src/vm/ms_vm.c and ms_vm.h: the stack and the frames of a coroutine. The stack is the list of all
-- its cells, of which the first `stack_top` are in use; a cell never written holds nil here. The
-- frames are those in use, the innermost first. Counts are natural numbers and a proto is there, so
-- the tests for negative counts and for null pointers have no counterpart.
pub mod Growth
pub mod Room
pub mod Frames
pub mod Host
pub mod Exec
pub mod Items
pub mod Run
pub mod Steps
pub mod Instructions
pub mod Branches
pub mod ItemSteps
pub mod UnpackSteps
pub mod CallSteps
pub mod ExecLaws
pub mod Shapes
pub mod RunLaws
pub mod Calls
use mslang_cc.Base.{
  Bool, true, false, not, ◌&&◌, ◌||◌, Option, none, some, List, [], ◌∷◌, ◌++◌, map, ℕ, zero, suc,
  ◌+◌, ◌-◌, ◌*◌, ◌/◌, ◌%◌, ◌^◌, ◌≤◌, ◌<◌, min, max, bit_and, bit_or, bit_xor, ◌≡◌, refl, sym, ap,
  ◌∙◌, ◌≡⟨◌⟩◌, ◌∎, ◌≢◌, ◌↔◌, ◌⊎◌, inl, inr, arith, ltb, leb, ◌==◌, if◌then◌else◌, ltb→lt, lt→ltb,
  leb→le, ==_iff, tests, Bool-cases, Option-cases, none≢some, length, get_elem?, set, take, drop,
  replicate, length-append, length-set, length-replicate, length-take, get_elem?-set_self,
  get_elem?-set_ne, get_elem?-lt, get_elem?-some, get_elem?-append_left, get_elem?-append_self,
  List-cases,
}
use mslang_cc.Base.Int.{
  ℤ, pos, negsuc, pos_part, neg_part, sub_ℕ, ◌+ℤ◌, ◌-ℤ◌, ◌*ℤ◌, ◌≤ℤ◌, ltb_ℤ, +ℤ_comm, +ℤ_assoc,
  +ℤ_cancel, ≤ℤ_total, +ℤ_parts, -ℤ_parts, eq_of_parts, int_laws, +ℤ_mono, *ℤ_comm, one-*ℤ,
  *ℤ_parts, *ℤ_assoc,
}
use mslang_cc.Memory.{
  size_max, header_size, wrap, MemStats, Mem, zero_stats, consume_fail_after, ask_host, raise_peak,
  account_alloc, account_realloc, bad_size, obtain, alloc, realloc, free, reset_stats,
  set_fail_after,
}
use mslang_cc.Object.{
  TypeTag, nil_tag, bool_tag, int_tag, float_tag, string_tag, bytes_tag, list_tag, tuple_tag,
  dict_tag, set_tag, function_tag, class_tag, instance_tag, module_tag, channel_tag, coroutine_tag,
  iterator_tag, bound_method_tag, c_function_tag, c_type_tag, proto_tag, tag_number, same_bool, Ref,
  nil_ref, bool_ref, cached_ref, type_ref, proto_ref, cell_ref, Object, nil, bool, int, float,
  string, list, dict, function, c_function, class, proto, tag_of, Store, cache_value, deref,
  same_ref,
}
use mslang_cc.Proto.{
  MsResult, ok, error_runtime, error_syntax, error_oom, is_ok, TryBlock, LineEntry, Proto, Builder,
  empty_proto, builder_init, grow_array, make_room, fail, last_line, line_entry, put_instr,
  lines_room, emit, emit_abc, is_wide, emit_sax, set_line, jump_op, patched_op, patch_sax,
  add_try_block, shrink_array, shrink_all, proto_size, arrays, build, line_search, line_at,
}

abbrev pub stack_init_cap : ℕ
stack_init_cap = 64

abbrev pub stack_max_cap : ℕ
stack_max_cap = 2 ^ 20

abbrev pub frames_init_cap : ℕ
frames_init_cap = 8

abbrev pub frames_max : ℕ
frames_max = 1000

-- `struct MsCallFrame`, without upvalues, which nothing reads
pub record Frame : Type 0 where
  pub code : Proto
  pub pc : ℤ
  pub base : ℕ

-- `struct MsCoroutine`
pub record Coroutine : Type 0 where
  pub frames : List Frame
  pub frames_cap : ℕ
  pub stack : List Ref
  pub stack_top : ℕ

-- `msCoroutineInit`
unfoldable pub coroutine_init : Coroutine
coroutine_init = record { frames = []; frames_cap = 0; stack = []; stack_top = 0 }

-- The errors of a call, by their messages; `call_memory` is `msVmOom`.
pub data CallFault : Type 0 where
  stack_overflow call_stack_overflow argument_count variadic_call frame_layout : CallFault
  in_place_arguments call_memory : CallFault

-- `msVmJumpBy`, for an offset of 24 bits
unfoldable pub jump_by : ℤ → Frame → Frame
jump_by offset frame =
    let target = frame.pc +ℤ offset in
    record frame {
      pc =
          if ltb_ℤ target (pos 0)
          then negsuc 0
          else if ltb_ℤ (pos (2 ^ 31 - 1)) target
          then pos (2 ^ 31 - 1)
          else target;
    }

-- one round of it
unfoldable pub next_cap : ℕ → ℕ → ℕ
next_cap most cap = if ltb (most / 2) cap then most else cap * 2

-- The loop that doubles a capacity up to a maximum, on fuel.
unfoldable pub grow_cap : ℕ → ℕ → ℕ → ℕ → Option ℕ
grow_cap zero most needed cap = none
grow_cap (suc fuel) most needed cap = elim (ltb cap needed) [
  | false ↦ some cap
  | true ↦ grow_cap fuel most needed (next_cap most cap)
]

-- the reallocation of an array of `cap` items to one of `new_cap`
unfoldable pub resize : ℕ → ℕ → ℕ → Mem → Bool × Mem
resize size cap new_cap m =
    if ltb (size_max / size) new_cap
    then (false, m)
    else realloc (if cap == 0 then none else some (cap * size)) (new_cap * size) m

-- The growth of both arrays: the capacity after it, or nothing; 21 rounds double 1 past 2^20.
unfoldable pub ensure_cap : ℕ → ℕ → ℕ → ℕ → ℕ → Mem → Option ℕ × Mem
ensure_cap size initial most needed cap m =
    if leb needed cap
    then (some cap, m)
    else elim (grow_cap 22 most needed (if cap == 0 then initial else cap)) [
      | none ↦ (none, m)
      | some new_cap ↦
          let (granted, m') = resize size cap new_cap m in
          (if granted then some new_cap else none, m')
    ]

-- `msVmEnsureStack`
unfoldable pub ensure_stack : ℕ → Coroutine → Mem → Option CallFault × Coroutine × Mem
ensure_stack needed co m =
    if ltb stack_max_cap needed
    then (some stack_overflow, co, m)
    else (let (room, m') = ensure_cap 8 stack_init_cap stack_max_cap needed (length co.stack) m in
        elim room [
          | none ↦ (some call_memory, co, m')
          | some cap ↦ (
            none,
            record co { stack = co.stack ++ replicate (cap - length co.stack) nil_ref },
            m',
          )
        ])

-- `msVmEnsureFrames`; a frame takes 32 bytes
unfoldable pub ensure_frames : ℕ → Coroutine → Mem → Option CallFault × Coroutine × Mem
ensure_frames needed co m =
    if ltb frames_max needed
    then (some call_stack_overflow, co, m)
    else (let (room, m') = ensure_cap 32 frames_init_cap frames_max needed co.frames_cap m in
        elim room [
          | none ↦ (some call_memory, co, m')
          | some cap ↦ (none, record co { frames_cap = cap }, m')
        ])

-- values written to the cells from `i` on
unfoldable pub write_all : List Ref → ℕ → List Ref → List Ref
write_all stack i [] = stack
write_all stack i (v ∷ vs) = write_all (set stack i v) (suc i) vs

-- the tests of `msVmPushFrameAt` before it touches anything
unfoldable pub frame_fault : Proto → ℕ → Bool → ℕ → Coroutine → Option CallFault
frame_fault p argc in_place base co =
    if not (argc == p.param_count)
    then some argument_count
    else if p.has_var_args || p.has_kw_args
    then some variadic_call
    else if ltb p.local_count p.param_count || ltb base 1
    then some frame_layout
    else if ltb stack_max_cap (base + p.local_count + p.stack_size)
    then some stack_overflow
    else if leb frames_max (length co.frames)
    then some call_stack_overflow
    else if in_place && ltb co.stack_top (base + argc)
    then some in_place_arguments
    else none

-- the cells that it writes: nil below the arguments, the arguments, and nil in the other locals;
-- arguments in place are left alone
unfoldable pub frame_cells : Proto → ℕ → Option (List Ref) → ℕ → List Ref → List Ref
frame_cells p argc args base stack =
    let rest = replicate (p.local_count - argc) nil_ref in
    elim args [
      | none ↦ write_all stack (base + argc) rest
      | some values ↦ write_all (write_all stack (base - 1) (nil_ref ∷ values)) (base + argc) rest
    ]

-- the growth of the frames after that of the stack
unfoldable pub frames_after :
    Option CallFault × Coroutine × Mem → Option CallFault × Coroutine × Mem
frames_after (some fault, co, m) = (some fault, co, m)
frames_after (none, co, m) = ensure_frames (length co.frames + 1) co m

-- the writes after both
unfoldable pub put_frame :
    Proto
    → ℕ
    → Option (List Ref)
    → ℕ
    → Option CallFault × Coroutine × Mem
    → Option CallFault × Coroutine × Mem
put_frame p argc args base (some fault, co, m) = (some fault, co, m)
put_frame p argc args base (none, co, m) = (
  none,
  record co {
    stack = frame_cells p argc args base co.stack;
    stack_top = base + p.local_count;
    frames = record { code = p; pc = pos 0; base = base } ∷ co.frames;
  },
  m,
)

abbrev pub are_in_place : Option (List Ref) → Bool
are_in_place none = true
are_in_place (some values) = false

-- `msVmPushFrameAt`: `args` are the arguments at `argv`, wherever it points to, and `none` where they
-- are in place
unfoldable pub push_frame_at :
    Proto → ℕ → Option (List Ref) → ℕ → Coroutine → Mem → Option CallFault × Coroutine × Mem
push_frame_at p argc args base co m = elim (frame_fault p argc (are_in_place args) base co) [
  | some fault ↦ (some fault, co, m)
  | none ↦
      put_frame p argc args base
        (frames_after (ensure_stack (base + p.local_count + p.stack_size) co m))
]

-- `msVmPushFrame`
unfoldable pub push_frame : Proto → List Ref → Coroutine → Mem → Option CallFault × Coroutine × Mem
push_frame p args co m =
    if co.stack_top == 2 ^ 31 - 1
    then (some stack_overflow, co, m)
    else push_frame_at p (length args) (some args) (co.stack_top + 1) co m

-- `msVmCanPush` and `msVmCanPop`
unfoldable pub can_push : Coroutine → Frame → ℕ → Bool
can_push co f window_end =
    leb (f.base + f.code.local_count) co.stack_top && ltb co.stack_top window_end

unfoldable pub can_pop : Coroutine → Frame → Bool
can_pop co f = ltb (f.base + f.code.local_count) co.stack_top

-- ===== src/Vm/Host.antt =====
-- src/vm/ms_vm.c: what the loop of the virtual machine calls of the rest of the state, and its errors.
-- Strings are their bytes.
use mslang_cc.Base.{
  Bool, true, false, ◌&&◌, Option, none, some, List, [], ◌∷◌, ◌++◌, ℕ, zero, suc, ◌+◌, ◌-◌, ◌/◌,
  ◌%◌, ltb, leb, ◌==◌, if◌then◌else◌, length,
}
use mslang_cc.Base.Int.{pos_part}
use mslang_cc.Base.Text.{codes}
use mslang_cc.Memory.{Mem}
use mslang_cc.Object.{TypeTag, Ref}
use mslang_cc.Proto.{MsResult, error_runtime, error_oom, Proto, line_at}
use mslang_cc.Opcode.{OpCode}
use mslang_cc.Vm.{
  Frame, Coroutine, CallFault, stack_overflow, call_stack_overflow, argument_count, variadic_call,
  frame_layout, in_place_arguments, call_memory,
}

-- The operations on objects, globals and errors, over the state `World` without the coroutine.
-- `binary`, `unary` and `compare` are `msVmBinaryOp`, `msVmUnaryOp` and what `msVmCompare` does with
-- its two operands; `call_c` calls a C function, which may run on the same coroutine.
pub record Host : Type 1 where
  pub World : Type 0
  pub memory : World → Mem
  pub set_memory : Mem → World → World
  pub raise_runtime : List ℕ → World → World
  pub raise_type : List ℕ → World → World
  pub raise_value : List ℕ → World → World
  pub error_result : World → MsResult
  pub set_error_result : MsResult → World → World
  pub error_message : World → Option (List ℕ)
  pub tag : Ref → World → TypeTag
  pub type_name : TypeTag → World → List ℕ
  pub string_data : Ref → World → List ℕ
  pub truthy : Ref → World → Bool
  pub binary : OpCode → Ref → Ref → World → Option Ref × World
  pub unary : OpCode → Ref → World → Option Ref × World
  pub compare : OpCode → Ref → Ref → World → Option Bool × World
  pub global_of : Ref → World → Option Ref
  pub put_global : Ref → Ref → World → MsResult × World
  pub fresh_list : ℕ → World → Option Ref × World
  pub append_item : Ref → Ref → World → MsResult × World
  pub list_items : Ref → World → List Ref
  pub fresh_dict : World → Option Ref × World
  pub set_item : Ref → Ref → Ref → World → MsResult × World
  pub function_proto : Ref → World → Proto
  pub call_c : Ref → List Ref → Coroutine → World → Option Ref × Coroutine × World

-- `%u`, on fuel: a number of 32 bits has at most ten digits
unfoldable pub decimal_digits : ℕ → ℕ → List ℕ
decimal_digits zero n = []
decimal_digits (suc fuel) n =
    let higher = decimal_digits fuel (n / 10) in
    (if ltb n 10 then [] else higher) ++ (b'0' + n % 10) ∷ []

-- `MS_ERROR_OOM` is kept, any other result is a runtime error
unfoldable pub runtime_result : MsResult → MsResult
runtime_result error_oom = error_oom
runtime_result _ = error_runtime

-- the line of the instruction before `pc`
unfoldable pub frame_line : Frame → ℕ
unfolding line_at
frame_line frame = elim (line_at frame.code.lines (pos_part frame.pc - 1)) [
  | none ↦ 0
  | some line ↦ line
]

unfoldable pub source_of : Frame → List ℕ
source_of frame = elim frame.code.source_file [ none ↦ codes "<unknown>" | some file ↦ file ]

-- the message with the place in front, `"%s:%u: %s"`
unfoldable pub located : Frame → List ℕ → List ℕ
unfolding source_of frame_line decimal_digits
located frame message =
    source_of frame ++ b':' ∷ decimal_digits 10 (frame_line frame) ++ codes ": " ++ message

-- the digits in front of a position, which is read backwards
unfoldable pub drop_digits : List ℕ → List ℕ
drop_digits [] = []
drop_digits (c ∷ before) =
    let rest = drop_digits before in if leb b'0' c && leb c b'9' then rest else c ∷ before

-- a colon with a byte before it
abbrev pub colon_behind : List ℕ → Bool
colon_behind (c ∷ d ∷ before) = c == b':'
colon_behind _ = false

-- `strstr(message, ": ")`: the bytes before it, backwards
unfoldable pub before_space : List ℕ → List ℕ → Option (List ℕ)
before_space before [] = none
before_space before (c ∷ rest) =
    let later = before_space (c ∷ before) rest in
    if c == b':' && (elim rest [ [] ↦ false | d ∷ _ ↦ d == b' ' ]) then some before else later

-- `msVmMessageHasLocation`
unfoldable pub message_has_location : List ℕ → Bool
unfolding before_space drop_digits
message_has_location message = elim (before_space [] message) [
  | none ↦ false
  | some before ↦
      let start = drop_digits before in ltb (length start) (length before) && colon_behind start
]

module _ (host : Host) where
  open host use {World, raise_runtime, error_result, set_error_result, error_message, string_data}

  -- `msVmRuntimeError`
  unfoldable pub runtime_error : List ℕ → World → MsResult × World
  unfolding runtime_result
  runtime_error message w =
      let w' = raise_runtime message w in (runtime_result (error_result w'), w')

  -- `msVmOom`
  unfoldable pub oom : World → MsResult × World
  oom w = (error_oom, set_error_result error_oom (raise_runtime (codes "out of memory") w))

  -- `msVmErrorAt`
  unfoldable pub error_at : Frame → List ℕ → World → MsResult × World
  unfolding located runtime_error
  error_at frame message w = runtime_error (located frame message) w

  -- the message there is, or a default
  abbrev pub pending_message : Option (List ℕ) → List ℕ
  pending_message none = codes "operation failed"
  pending_message (some message) = message

  abbrev pub is_oom : MsResult → Bool
  is_oom error_oom = true
  is_oom _ = false

  -- `msVmWrapErrorAt` and `msVmPropagatedErrorAt`
  unfoldable pub wrap_error_at : Frame → World → MsResult × World
  unfolding error_at message_has_location
  wrap_error_at frame w =
      let message = pending_message (error_message w) in
      if is_oom (error_result w)
      then (error_oom, w)
      else if message_has_location message
      then (error_runtime, w)
      else error_at frame message w

  -- `msVmUndefinedGlobalAt`
  unfoldable pub undefined_global_at : Frame → Ref → World → MsResult × World
  unfolding error_at
  undefined_global_at frame name w =
      error_at frame (codes "undefined name '" ++ string_data name w ++ codes "'") w

  -- the error of a call that fails
  unfoldable pub call_error : CallFault → World → MsResult × World
  unfolding runtime_error oom
  call_error stack_overflow w = runtime_error (codes "stack overflow") w
  call_error call_stack_overflow w = runtime_error (codes "call stack overflow") w
  call_error argument_count w = runtime_error (codes "argument count mismatch") w
  call_error variadic_call w = runtime_error (codes "variadic calls not supported") w
  call_error frame_layout w = runtime_error (codes "invalid frame layout") w
  call_error in_place_arguments w = runtime_error (codes "invalid in-place arguments") w
  call_error call_memory w = oom w

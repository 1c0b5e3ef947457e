-- ===== src/Vm/Exec.antt =====
-- src/vm/ms_vm.c: the instructions, as `msVmRun` carries them out. `none` is an access outside the
-- stack, the items of a list or the arguments of a frame.
use mslang_cc.Base.{
  Bool, true, false, not, ◌||◌, Option, none, some, List, ◌∷◌, ℕ, ◌+◌, ◌-◌, ltb, leb, ◌==◌,
  if◌then◌else◌, length, get_elem?, set, drop,
}
use mslang_cc.Base.Int.{ℤ, pos, ◌+ℤ◌}
use mslang_cc.Base.Loop.{◌>>=◌}
use mslang_cc.Base.Text.{codes}
use mslang_cc.Object.{TypeTag, nil_tag, string_tag, Ref, bool_ref, same_ref}
use mslang_cc.Proto.{MsResult, ok}
use mslang_cc.Opcode.{op_jump_if_nil, op_jump_if_true, OpCode, op_eq, op_is, op_in, op_number}
use mslang_cc.Vm.{Frame, Coroutine, jump_by, can_push, can_pop}
use mslang_cc.Vm.Host.{Host, error_at, wrap_error_at, undefined_global_at}

abbrev pub no_star : ℕ
no_star = 0xFFFF

-- the first cell above the locals of a frame, and the end of its window
abbrev pub floor_of : Frame → ℕ
floor_of f = f.base + f.code.local_count

abbrev pub window_end : Frame → ℕ
window_end f = f.base + f.code.local_count + f.code.stack_size

module _ (host : Host) where
  open host use {
    World, memory, set_memory, raise_type, raise_value, tag, type_name, truthy, binary, unary,
    compare, global_of, put_global, fresh_list, append_item, list_items, fresh_dict, set_item,
    function_proto, call_c,
  }

  pub record Machine : Type 0 where
    pub co : Coroutine
    pub world : World

  -- The end of an instruction: its result, or the return of the loop.
  pub data Outcome : Type 0 where
    ended : MsResult → Machine → Outcome
    returned : Machine → Outcome

  abbrev pub with_world : World → Machine → Machine
  with_world w m = record m { world = w }

  abbrev pub with_top : ℕ → Machine → Machine
  with_top n m = record m { co = record m.co { stack_top = n } }

  abbrev pub with_frame : Frame → Machine → Machine
  with_frame f m = record m { co = record m.co { frames = f ∷ drop 1 m.co.frames } }

  abbrev pub failing : MsResult × World → Machine → Option Outcome
  failing (result, w) m = some (ended result (with_world w m))

  abbrev pub fail_at : Frame → List ℕ → Machine → Option Outcome
  fail_at f message m = failing (error_at host f message m.world) m

  -- `msVmPropagatedErrorAt`
  abbrev pub propagate : Frame → Machine → Option Outcome
  propagate f m = failing (wrap_error_at host f m.world) m

  abbrev pub underflow : Frame → Machine → Option Outcome
  underflow f m = fail_at f (codes "evaluation stack underflow") m

  -- `co->stack[i]`
  abbrev pub cell : ℕ → Machine → Option Ref
  cell i m = get_elem? m.co.stack i

  -- `co->stack[i] = v`
  unfoldable pub put_cell : ℕ → Ref → Machine → Option Machine
  put_cell i v m =
      if ltb i (length m.co.stack)
      then some (record m { co = record m.co { stack = set m.co.stack i v } })
      else none

  -- `co->stack[co->stackTop++] = v`
  unfoldable pub push_value : Ref → Machine → Option Machine
  unfolding put_cell
  push_value v m = put_cell m.co.stack_top v m >>= λ m'. some (with_top (m.co.stack_top + 1) m')

  -- `co->stack[--co->stackTop]`
  unfoldable pub pop : Machine → Option (Ref × Machine)
  pop m =
      if m.co.stack_top == 0
      then none
      else (cell (m.co.stack_top - 1) m >>= λ v. some (v, with_top (m.co.stack_top - 1) m))

  abbrev pub push_next : Ref → Machine → Option Outcome
  push_next v m = push_value v m >>= λ m'. some (ended ok m')

  -- a value pushed where there is room in the window
  unfoldable pub load : Frame → Ref → Machine → Option Outcome
  unfolding can_push push_value error_at
  load f v m =
      if not (can_push m.co f (window_end f))
      then fail_at f (codes "evaluation stack overflow") m
      else push_next v m

  -- `msVmConstAt`
  unfoldable pub with_const : Frame → ℕ → Machine → (Ref → Option Outcome) → Option Outcome
  unfolding error_at
  with_const f i m k = elim (get_elem? f.code.consts i) [
    | none ↦ fail_at f (codes "constant index out of bounds") m
    | some v ↦ k v
  ]

  unfoldable pub move_local : Frame → ℕ → ℕ → Machine → Option Outcome
  unfolding put_cell error_at
  move_local f to from m =
      if leb f.code.local_count to || leb f.code.local_count from
      then fail_at f (codes "local index out of bounds") m
      else (do v ← cell (f.base + from) m; m' ← put_cell (f.base + to) v m; some (ended ok m'))

  unfoldable pub load_local : Frame → ℕ → Machine → Option Outcome
  unfolding can_push push_value error_at
  load_local f slot m =
      if leb f.code.local_count slot
      then fail_at f (codes "local index out of bounds") m
      else if not (can_push m.co f (window_end f))
      then fail_at f (codes "evaluation stack overflow") m
      else (cell (f.base + slot) m >>= λ v. push_next v m)

  unfoldable pub store_local : Frame → ℕ → Machine → Option Outcome
  unfolding can_pop pop put_cell error_at
  store_local f slot m =
      if leb f.code.local_count slot
      then fail_at f (codes "local index out of bounds") m
      else if not (can_pop m.co f)
      then underflow f m
      else (do (v, m1) ← pop m; m2 ← put_cell (f.base + slot) v m1; some (ended ok m2))

  abbrev pub is_string : TypeTag → Bool
  is_string string_tag = true
  is_string _ = false

  unfoldable pub load_global : Frame → Ref → Machine → Option Outcome
  unfolding can_push push_value error_at undefined_global_at
  load_global f name m =
      if not (is_string (tag name m.world))
      then fail_at f (codes "invalid global name") m
      else if not (can_push m.co f (window_end f))
      then fail_at f (codes "evaluation stack overflow") m
      else elim (global_of name m.world) [
        | none ↦ failing (undefined_global_at host f name m.world) m
        | some v ↦ push_next v m
      ]

  unfoldable pub store_global : Frame → Ref → Machine → Option Outcome
  unfolding can_pop pop error_at
  store_global f name m =
      if not (is_string (tag name m.world))
      then fail_at f (codes "invalid global name") m
      else if not (can_pop m.co f)
      then underflow f m
      else (do (v, m1) ← pop m; failing (put_global name v m1.world) m1)

  -- what an operator handed back: pushed, or its error
  unfoldable pub push_answer : Frame → Machine → Option Ref × World → Option Outcome
  unfolding push_value wrap_error_at
  push_answer f m (none, w) = propagate f (with_world w m)
  push_answer f m (some v, w) = push_next v (with_world w m)

  -- the two operands that an instruction takes
  abbrev pub has_two : Frame → Machine → Bool
  has_two f m = leb (floor_of f + 2) m.co.stack_top

  unfoldable pub exec_binary : Frame → OpCode → Machine → Option Outcome
  unfolding pop push_answer error_at
  exec_binary f op m =
      if not (has_two f m)
      then underflow f m
      else (do (rhs, m1) ← pop m; (lhs, m2) ← pop m1; push_answer f m2 (binary op lhs rhs m2.world))

  unfoldable pub exec_unary : Frame → OpCode → Machine → Option Outcome
  unfolding can_pop pop push_answer error_at
  exec_unary f op m =
      if not (can_pop m.co f)
      then underflow f m
      else (do (v, m1) ← pop m; push_answer f m1 (unary op v m1.world))

  abbrev pub is_op_is : OpCode → Bool
  is_op_is op_is = true
  is_op_is _ = false

  -- the comparison of two values; identity needs no call
  abbrev pub compare_refs : OpCode → Ref → Ref → World → Option Bool × World
  compare_refs op lhs rhs w =
      if is_op_is op then (some (same_ref lhs rhs), w) else compare op lhs rhs w

  -- `msVmCompare`, with what follows it where it succeeds
  unfoldable pub with_compared :
      Frame → OpCode → Machine → (Bool → Machine → Option Outcome) → Option Outcome
  unfolding pop wrap_error_at error_at
  with_compared f op m k = if not (has_two f m) then underflow f m else (do
    (rhs, m1) ← pop m
    (lhs, m2) ← pop m1
    let (answer, w) = compare_refs op lhs rhs m2.world
    elim answer [ none ↦ propagate f (with_world w m2) | some b ↦ k b (with_world w m2) ])

  unfoldable pub exec_compare : Frame → OpCode → Machine → Option Outcome
  unfolding with_compared push_value
  exec_compare f op m = with_compared f op m (λ b m'. push_next (bool_ref b) m')

  -- the end of a comparison in a chain
  unfoldable pub chain_end : Frame → ℕ → Ref → Bool → Machine → Option Outcome
  unfolding push_value
  chain_end f offset right true m = push_next right m
  chain_end f offset right false m =
      push_next (bool_ref false) (with_frame (record f { pc = f.pc +ℤ pos offset }) m)

  unfoldable pub exec_chain : Frame → Option OpCode → ℕ → Machine → Option Outcome
  unfolding with_compared chain_end op_number error_at
  exec_chain f none offset m = fail_at f (codes "invalid comparison chain opcode") m
  exec_chain f (some op) offset m =
      if ltb (op_number op) (op_number op_eq) || ltb (op_number op_in) (op_number op)
      then fail_at f (codes "invalid comparison chain opcode") m
      else if not (has_two f m)
      then underflow f m
      else (cell (m.co.stack_top - 1) m >>= λ right.
          with_compared f op m (chain_end f offset right))

  abbrev pub is_nil : TypeTag → Bool
  is_nil nil_tag = true
  is_nil _ = false

  -- whether a conditional jump is taken
  unfoldable pub should_jump : OpCode → Ref → World → Bool
  should_jump op_jump_if_nil v w = is_nil (tag v w)
  should_jump op_jump_if_true v w = truthy v w
  should_jump _ v w = not (truthy v w)

  unfoldable pub exec_jump : Frame → ℤ → Machine → Option Outcome
  unfolding jump_by
  exec_jump f offset m = some (ended ok (with_frame (jump_by offset f) m))

  unfoldable pub exec_jump_if : Frame → OpCode → ℤ → Machine → Option Outcome
  unfolding can_pop pop should_jump exec_jump error_at
  exec_jump_if f op offset m = if not (can_pop m.co f) then underflow f m else (do
    (v, m1) ← pop m
    if should_jump op v m1.world then exec_jump f offset m1 else some (ended ok m1))

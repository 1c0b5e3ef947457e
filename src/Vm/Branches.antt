-- ===== src/Vm/Branches.antt =====
-- src/vm/ms_vm.c: comparisons and jumps stay inside the stack.
use mslang_cc.Base.{
  Bool, true, false, not, ◌||◌, Option, none, some, ℕ, ◌-◌, ◌≤◌, ◌<◌, ◌≡◌, refl, arith, ltb,
}
use mslang_cc.Base.Int.{ℤ, pos, ◌+ℤ◌}
use mslang_cc.Base.Loop.{if_rule, option_rule, bind_rule}
use mslang_cc.Object.{Ref, bool_ref}
use mslang_cc.Opcode.{op_eq, op_in, OpCode, op_eq, op_in, op_number}
use mslang_cc.Vm.{Frame, jump_by, can_pop}
use mslang_cc.Vm.Host.{Host}
use mslang_cc.Vm.Exec.{
  window_end, Machine, Outcome, with_world, with_frame, cell, pop, has_two, compare_refs,
  with_compared, exec_compare, chain_end, exec_chain, should_jump, exec_jump, exec_jump_if,
}
use mslang_cc.Vm.Steps.{
  Place, K, Stays, Goes, world-Keeps, frame-Keeps, cell-Returns, push_next-Goes, Pops, pop-Keeps,
  propagate-Goes,
}
use mslang_cc.Vm.Instructions.{can_pop-above, has_two-above, pop_two-Goes}

jump_by-same :
    (offset : ℤ) (f : Frame)
    → ((jump_by offset f).base ≡ f.base) × ((jump_by offset f).code ≡ f.code)
unfolding jump_by
jump_by-same offset f = (refl, refl)

module _ (host : Host) (p : Place) (roomy : window_end p.frame ≤ p.cells) where
  abbrev B : Option (Outcome host) → Type 0
  B o = Goes host p o

  with_compared-Goes :
      (op : OpCode) (m : Machine host) (after : Bool → Machine host → Option (Outcome host))
      → K host p m
      → ((b : Bool) (m' : Machine host) → K host p m' → m'.co.stack_top < p.cells → B (after b m'))
      → B (with_compared host p.frame op m after)
  unfolding with_compared
  with_compared-Goes op m after k good =
      if_rule B (not (has_two host p.frame m)) (λ _. world-Keeps host p m _ k)
        (λ e.
          pop_two-Goes host p roomy m _ k (has_two-above p.frame m.co.stack_top e)
            (λ rhs lhs m' k' h.
              let answer = compare_refs host op lhs rhs m'.world in
              option_rule B answer.0
                (λ _.
                  propagate-Goes host p p.frame (with_world host answer.1 m')
                    (world-Keeps host p m' answer.1 k'))
                (λ b _.
                  good b (with_world host answer.1 m') (world-Keeps host p m' answer.1 k') h)))

  pub exec_compare-Goes :
      (op : OpCode) (m : Machine host) → K host p m → B (exec_compare host p.frame op m)
  unfolding exec_compare
  exec_compare-Goes op m k =
      with_compared-Goes op m _ k (λ b m' k' h. push_next-Goes host p m' (bool_ref b) h k')

  chain_end-Goes :
      (offset : ℕ) (right : Ref) (b : Bool) (m : Machine host)
      → K host p m
      → m.co.stack_top < p.cells
      → B (chain_end host p.frame offset right b m)
  unfolding chain_end
  chain_end-Goes offset right true m k h = push_next-Goes host p m right h k
  chain_end-Goes offset right false m k h =
      push_next-Goes host p (with_frame host (record p.frame { pc = p.frame.pc +ℤ pos offset }) m)
        (bool_ref false) h (frame-Keeps host p m _ refl refl k)

  pub exec_chain-Goes :
      (op : Option OpCode) (offset : ℕ) (m : Machine host)
      → K host p m
      → B (exec_chain host p.frame op offset m)
  unfolding exec_chain
  exec_chain-Goes none offset m k = world-Keeps host p m _ k
  exec_chain-Goes (some op) offset m k =
      if_rule B (ltb (op_number op) (op_number op_eq) || ltb (op_number op_in) (op_number op))
        (λ _. world-Keeps host p m _ k)
        λ _.
          if_rule B (not (has_two host p.frame m)) (λ _. world-Keeps host p m _ k)
            (λ e.
              let two = has_two-above p.frame m.co.stack_top e in
              bind_rule _ (Stays host p) (cell host (m.co.stack_top - 1) m) _
                (cell-Returns host p m (m.co.stack_top - 1) (omega (arith, two, k.top)) k)
                (λ right _.
                  with_compared-Goes op m _ k (λ b m' k' h. chain_end-Goes offset right b m' k' h)))

  pub exec_jump-Goes :
      (offset : ℤ) (m : Machine host) → K host p m → B (exec_jump host p.frame offset m)
  unfolding exec_jump
  exec_jump-Goes offset m k =
      let same = jump_by-same offset p.frame in
      frame-Keeps host p m (jump_by offset p.frame) same.0 same.1 k

  pub exec_jump_if-Goes :
      (op : OpCode) (offset : ℤ) (m : Machine host)
      → K host p m
      → B (exec_jump_if host p.frame op offset m)
  unfolding exec_jump_if
  exec_jump_if-Goes op offset m k =
      if_rule B (not (can_pop m.co p.frame)) (λ _. world-Keeps host p m _ k)
        (λ e.
          bind_rule (Pops host p m) (Stays host p) (pop host m) _
            (pop-Keeps host p m (can_pop-above m.co p.frame e) k)
            (λ q popped.
              if_rule B (should_jump host op q.0 q.1.world)
                (λ _. exec_jump-Goes offset q.1 popped.0) (λ _. popped.0)))

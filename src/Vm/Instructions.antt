-- ===== src/Vm/Instructions.antt =====
-- src/vm/ms_vm.c: every instruction on single values stays inside the stack.
use mslang_cc.Base.{
  false, not, ◌||◌, Option, none, some, ℕ, ◌+◌, ◌≤◌, ◌<◌, ◌≡◌, arith, leb, get_elem?,
}
use mslang_cc.Base.Loop.{◌>>=◌, if_rule, option_rule, bind_rule}
use mslang_cc.Object.{Ref}
use mslang_cc.Opcode.{OpCode}
use mslang_cc.Vm.{Frame, Coroutine, can_push, can_pop}
use mslang_cc.Vm.Host.{Host, undefined_global_at}
use mslang_cc.Vm.Exec.{
  floor_of, window_end, Machine, Outcome, with_world, cell, put_cell, pop, load, with_const,
  move_local, load_local, store_local, is_string, load_global, store_global, push_answer, has_two,
  exec_binary, exec_unary,
}
use mslang_cc.Vm.Steps.{
  Place, K, Stays, Goes, world-Keeps, failing-Goes, cell-Returns, put_cell-Keeps, push_next-Goes,
  Pops, pop-Keeps, propagate-Goes,
}

-- What `msVmCanPush` and `msVmCanPop` make sure of.
pub can_push-below :
    (co : Coroutine) (f : Frame)
    → not (can_push co f (window_end f)) ≡ false
    → co.stack_top < window_end f
unfolding can_push
can_push-below co f h = ground arith

pub can_pop-above : (co : Coroutine) (f : Frame) → not (can_pop co f) ≡ false → 0 < co.stack_top
unfolding can_pop
can_pop-above co f h = ground arith

pub has_two-above : (f : Frame) (t : ℕ) → not (leb (floor_of f + 2) t) ≡ false → 2 ≤ t
has_two-above f t h = ground arith

module _ (host : Host) (p : Place) (roomy : window_end p.frame ≤ p.cells) where
  abbrev pub G : Option (Outcome host) → Type 0
  G o = Goes host p o

  pub load-Goes : (v : Ref) (m : Machine host) → K host p m → G (load host p.frame v m)
  unfolding load
  load-Goes v m k =
      if_rule G (not (can_push m.co p.frame (window_end p.frame))) (λ _. world-Keeps host p m _ k)
        (λ e. push_next-Goes host p m v (omega (arith, roomy, can_push-below m.co p.frame e)) k)

  pub with_const-Goes :
      (i : ℕ) (m : Machine host) (after : Ref → Option (Outcome host))
      → K host p m
      → ((v : Ref) → G (after v))
      → G (with_const host p.frame i m after)
  unfolding with_const
  with_const-Goes i m after k good =
      option_rule G (get_elem? p.frame.code.consts i) (λ _. world-Keeps host p m _ k)
        (λ v _. good v)

  pub move_local-Goes :
      (to from : ℕ) (m : Machine host) → K host p m → G (move_local host p.frame to from m)
  unfolding move_local
  move_local-Goes to from m k =
      if_rule G (leb p.frame.code.local_count to || leb p.frame.code.local_count from)
        (λ _. world-Keeps host p m _ k)
        (λ e.
          bind_rule _ (Stays host p) (cell host (p.frame.base + from) m) _
            (cell-Returns host p m _ (ground (arith, roomy)) k)
            (λ v _.
              bind_rule _ (Stays host p) (put_cell host (p.frame.base + to) v m) _
                (put_cell-Keeps host p m _ v (ground (arith, roomy)) k) (λ m' k'. k'.0)))

  pub load_local-Goes :
      (slot : ℕ) (m : Machine host) → K host p m → G (load_local host p.frame slot m)
  unfolding load_local
  load_local-Goes slot m k =
      if_rule G (leb p.frame.code.local_count slot) (λ _. world-Keeps host p m _ k)
        λ inside.
          if_rule G (not (can_push m.co p.frame (window_end p.frame)))
            (λ _. world-Keeps host p m _ k)
            (λ e.
              bind_rule _ (Stays host p) (cell host (p.frame.base + slot) m) _
                (cell-Returns host p m _ (ground (arith, roomy)) k)
                (λ v _.
                  push_next-Goes host p m v (omega (arith, roomy, can_push-below m.co p.frame e))
                    k))

  pub store_local-Goes :
      (slot : ℕ) (m : Machine host) → K host p m → G (store_local host p.frame slot m)
  unfolding store_local
  store_local-Goes slot m k =
      if_rule G (leb p.frame.code.local_count slot) (λ _. world-Keeps host p m _ k)
        λ inside.
          if_rule G (not (can_pop m.co p.frame)) (λ _. world-Keeps host p m _ k)
            (λ e.
              bind_rule (Pops host p m) (Stays host p) (pop host m) _
                (pop-Keeps host p m (can_pop-above m.co p.frame e) k)
                (λ q popped.
                  bind_rule _ (Stays host p) (put_cell host (p.frame.base + slot) q.0 q.1) _
                    (put_cell-Keeps host p q.1 _ q.0 (ground (arith, roomy)) popped.0)
                    (λ m' k'. k'.0)))

  pub load_global-Goes :
      (name : Ref) (m : Machine host) → K host p m → G (load_global host p.frame name m)
  unfolding load_global
  load_global-Goes name m k =
      if_rule G (not (is_string host (host.tag name m.world))) (λ _. world-Keeps host p m _ k)
        λ _.
          if_rule G (not (can_push m.co p.frame (window_end p.frame)))
            (λ _. world-Keeps host p m _ k)
            (λ e.
              option_rule G (host.global_of name m.world)
                (λ _. failing-Goes host p m (undefined_global_at host p.frame name m.world) k)
                (λ v _.
                  push_next-Goes host p m v (omega (arith, roomy, can_push-below m.co p.frame e))
                    k))

  pub store_global-Goes :
      (name : Ref) (m : Machine host) → K host p m → G (store_global host p.frame name m)
  unfolding store_global
  store_global-Goes name m k =
      if_rule G (not (is_string host (host.tag name m.world))) (λ _. world-Keeps host p m _ k)
        λ _.
          if_rule G (not (can_pop m.co p.frame)) (λ _. world-Keeps host p m _ k)
            (λ e.
              bind_rule (Pops host p m) (Stays host p) (pop host m) _
                (pop-Keeps host p m (can_pop-above m.co p.frame e) k)
                (λ q popped. failing-Goes host p q.1 (host.put_global name q.0 q.1.world) popped.0))

  push_answer-Goes :
      (m : Machine host) (answer : Option Ref × host.World)
      → m.co.stack_top < p.cells
      → K host p m
      → G (push_answer host p.frame m answer)
  unfolding push_answer
  push_answer-Goes m (none, w) h k =
      propagate-Goes host p p.frame (with_world host w m) (world-Keeps host p m w k)
  push_answer-Goes m (some v, w) h k =
      push_next-Goes host p (with_world host w m) v h (world-Keeps host p m w k)

  pub exec_unary-Goes :
      (op : OpCode) (m : Machine host) → K host p m → G (exec_unary host p.frame op m)
  unfolding exec_unary
  exec_unary-Goes op m k =
      if_rule G (not (can_pop m.co p.frame)) (λ _. world-Keeps host p m _ k)
        (λ e.
          bind_rule (Pops host p m) (Stays host p) (pop host m) _
            (pop-Keeps host p m (can_pop-above m.co p.frame e) k)
            (λ q popped.
              push_answer-Goes q.1 (host.unary op q.0 q.1.world) (omega (arith, popped.1, k.top))
                popped.0))

  -- Two values taken, and what follows.
  pub pop_two-Goes :
      (m : Machine host) (after : Ref → Ref → Machine host → Option (Outcome host))
      → K host p m
      → 2 ≤ m.co.stack_top
      → ((rhs lhs : Ref) (m' : Machine host)
          → K host p m'
          → m'.co.stack_top < p.cells
          → G (after rhs lhs m'))
      → G (
          pop host m >>= λ (q : Ref × Machine host).
          pop host q.1 >>= λ (r : Ref × Machine host). after q.0 r.0 r.1)
  pop_two-Goes m after k two good =
      bind_rule (Pops host p m) (Stays host p) (pop host m) _ (pop-Keeps host p m (omega arith) k)
        (λ q popped.
          bind_rule (Pops host p q.1) (Stays host p) (pop host q.1) _
            (pop-Keeps host p q.1 (omega (arith, popped.1)) popped.0)
            (λ r again. good q.0 r.0 r.1 again.0 (omega (arith, again.1, popped.1, k.top))))

  pub exec_binary-Goes :
      (op : OpCode) (m : Machine host) → K host p m → G (exec_binary host p.frame op m)
  unfolding exec_binary
  exec_binary-Goes op m k =
      if_rule G (not (has_two host p.frame m)) (λ _. world-Keeps host p m _ k)
        (λ e.
          pop_two-Goes m
            (λ rhs lhs m'. push_answer host p.frame m' (host.binary op lhs rhs m'.world)) k
            (has_two-above p.frame m.co.stack_top e)
            (λ rhs lhs m' k' h. push_answer-Goes m' (host.binary op lhs rhs m'.world) h k'))

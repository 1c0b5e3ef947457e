-- ===== src/Vm/ItemSteps.antt =====
-- src/vm/ms_vm.c: building a list or a dict stays inside the stack.
use mslang_cc.Base.{
  Bool, true, false, not, ◌&&◌, Option, none, some, ℕ, zero, suc, ◌+◌, ◌-◌, ◌*◌, ◌≤◌, ◌<◌, ◌≡◌,
  refl, arith, ltb, ◌==◌, if◌then◌else◌,
}
use mslang_cc.Base.Loop.{Returns, if_rule, bind_rule}
use mslang_cc.Object.{Ref}
use mslang_cc.Proto.{MsResult, is_ok}
use mslang_cc.Vm.{can_push}
use mslang_cc.Vm.Host.{Host}
use mslang_cc.Vm.Exec.{floor_of, window_end, Machine, Outcome, with_world, with_top, cell}
use mslang_cc.Vm.Items.{append_cells, set_cells, fill, new_container, fill_container, exec_build}
use mslang_cc.Vm.Steps.{
  Place, K, Stays, Goes, world-Keeps, top-Keeps, cell-Returns, push_next-Goes, propagate-Goes,
}
use mslang_cc.Vm.Instructions.{can_push-below}

module _ (host : Host) (p : Place) (roomy : window_end p.frame ≤ p.cells) where
  abbrev pub I : Option (Outcome host) → Type 0
  I o = Goes host p o

  -- A loop over cells or items: the state it leaves, with the same part of the stack in use.
  abbrev pub Loops : Machine host → MsResult × Machine host → Type 0
  Loops m (result, m') = K host p m' × (m'.co.stack_top ≡ m.co.stack_top)

  append_cells-Loops :
      (made : Ref) (count i : ℕ) (m : Machine host)
      → i + count ≤ p.cells
      → K host p m
      → Returns (append_cells host made count i m) (Loops m)
  unfolding append_cells
  append_cells-Loops made zero i m h k = (k, refl)
  append_cells-Loops made (suc count) i m h k =
      bind_rule _ (Loops m) (cell host i m) _ (cell-Returns host p m i (omega arith) k) (λ v _.
        let (result, w) = host.append_item made v m.world in
        let k' = world-Keeps host p m w k in
        if_rule (λ (r : Option (MsResult × Machine host)). Returns r (Loops m)) (is_ok result)
          (λ _. append_cells-Loops made count (suc i) (with_world host w m) (omega arith) k')
          (λ _. (k', refl)))

  set_cells-Loops :
      (made : Ref) (count i : ℕ) (m : Machine host)
      → i + count * 2 ≤ p.cells
      → K host p m
      → Returns (set_cells host made count i m) (Loops m)
  unfolding set_cells
  set_cells-Loops made zero i m h k = (k, refl)
  set_cells-Loops made (suc count) i m h k =
      bind_rule _ (Loops m) (cell host i m) _ (cell-Returns host p m i (omega arith) k) (λ key _.
        bind_rule _ (Loops m) (cell host (suc i) m) _
          (cell-Returns host p m (suc i) (omega arith) k)
          (λ v _.
            let (result, w) = host.set_item made key v m.world in
            let k' = world-Keeps host p m w k in
            if_rule (λ (r : Option (MsResult × Machine host)). Returns r (Loops m)) (is_ok result)
              (λ _. set_cells-Loops made count (suc (suc i)) (with_world host w m) (omega arith) k')
              (λ _. (k', refl))))

  fill-Loops :
      (is_dict : Bool) (made : Ref) (items i : ℕ) (m : Machine host)
      → i + (if is_dict then items * 2 else items) ≤ p.cells
      → K host p m
      → Returns (fill host is_dict made items i m) (Loops m)
  fill-Loops true made items i m h k = set_cells-Loops made items i m h k
  fill-Loops false made items i m h k = append_cells-Loops made items i m h k

  fill_container-Goes :
      (is_dict : Bool) (items base : ℕ) (m : Machine host) (made : Option Ref × host.World)
      → base < p.cells
      → base + (if is_dict then items * 2 else items) ≤ p.cells
      → K host p m
      → I (fill_container host p.frame is_dict items base m made)
  unfolding fill_container
  fill_container-Goes is_dict items base m (none, w) h h' k =
      propagate-Goes host p p.frame (with_world host w m) (world-Keeps host p m w k)
  fill_container-Goes is_dict items base m (some made, w) h h' k =
      let m1 = with_world host w m in
      bind_rule (Loops m1) (Stays host p) (fill host is_dict made items base m1) _
        (fill-Loops is_dict made items base m1 h' (world-Keeps host p m w k))
        (λ q k'.
          if_rule I (is_ok q.0)
            (λ _.
              push_next-Goes host p (with_top host base q.1) made h
                (top-Keeps host p q.1 base (omega arith) k'.0))
            (λ _. propagate-Goes host p p.frame q.1 k'.0))

  pub exec_build-Goes :
      (is_dict : Bool) (items : ℕ) (m : Machine host)
      → K host p m
      → I (exec_build host p.frame is_dict items m)
  unfolding exec_build
  exec_build-Goes is_dict items m k =
      let count = if is_dict then items * 2 else items in
      if_rule I (ltb m.co.stack_top (floor_of p.frame + count)) (λ _. world-Keeps host p m _ k)
        λ enough.
          if_rule I (count == 0 && not (can_push m.co p.frame (window_end p.frame)))
            (λ _. world-Keeps host p m _ k)
            (λ e.
              fill_container-Goes is_dict items (m.co.stack_top - count) m
                (new_container host is_dict items m.world)
                (base_below m count enough e (omega (arith, k.top))) (ground (arith, k.top)) k)
    where
      base_below :
          (m : Machine host) (count : ℕ)
          → ltb m.co.stack_top (floor_of p.frame + count) ≡ false
          → (count == 0 && not (can_push m.co p.frame (window_end p.frame))) ≡ false
          → m.co.stack_top ≤ p.cells
          → m.co.stack_top - count < p.cells
      base_below m zero a e t = omega (arith, roomy, can_push-below m.co p.frame e)
      base_below m (suc count) a e t = ground arith

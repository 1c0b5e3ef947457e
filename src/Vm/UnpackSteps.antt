-- ===== src/Vm/UnpackSteps.antt =====
-- src/vm/ms_vm.c: unpacking a list stays inside the stack and the list.
use mslang_cc.Base.{
  true, false, not, ◌&&◌, Option, none, some, List, ℕ, zero, suc, ◌+◌, ◌-◌, ◌≤◌, ◌<◌, ◌≡◌, ◌⊎◌, inl,
  inr, arith, ltb, leb, ◌==◌, if◌then◌else◌, Bool-cases, length, get_elem?-lt,
}
use mslang_cc.Base.Loop.{Returns, if_rule, bind_rule}
use mslang_cc.Object.{Ref}
use mslang_cc.Proto.{MsResult, is_ok}
use mslang_cc.Vm.{can_pop}
use mslang_cc.Vm.Host.{Host}
use mslang_cc.Vm.Exec.{no_star, window_end, Machine, with_world, cell, put_cell}
use mslang_cc.Vm.Items.{
  append_rest, put_unpacked, unpack_rest, unpack_one, unpack_all, move_down, unpack_items,
  is_bad_unpack, is_list, unpack_value, exec_unpack,
}
use mslang_cc.Vm.Steps.{
  Place, K, Stays, Goes, world-Keeps, top-Keeps, cell-Returns, put_cell-Keeps, propagate-Goes,
}
use mslang_cc.Vm.Instructions.{can_pop-above}

-- The length of a list matches the targets: equal to their number, or with a star for the rest.
abbrev pub Fits : List Ref → ℕ → ℕ → Type 0
Fits items star count =
    (count < no_star)
    × (((star ≡ no_star) × (length items ≡ count)) ⊎ ((star < count) × (count ≤ length items + 1)))

-- The index of a target's value.
abbrev index_of : ℕ → ℕ → ℕ → ℕ → ℕ
index_of len star count i = if not (star == no_star) && ltb star i then len - (count - i) else i

index_of-Fits :
    (items : List Ref) (star count i : ℕ)
    → i < count
    → Fits items star count
    → (i == star) ≡ false
    → index_of (length items) star count i < length items
index_of-Fits items star count i h (small, inl (s, same)) e = ground arith
index_of-Fits items star count i h (small, inr (below, enough)) e = ground arith

rest_of-Fits :
    (items : List Ref) (star count i : ℕ)
    → i < count
    → Fits items star count
    → (i == star) ≡ true
    → i + (length items - (count - 1)) ≤ length items
rest_of-Fits items star count i h (small, inl (s, same)) e = absurd (ground arith)
rest_of-Fits items star count i h (small, inr (below, enough)) e = omega arith

module _ (host : Host) (p : Place) (roomy : window_end p.frame ≤ p.cells) where
  -- A part of the instruction leaves the frame and the stack in place.
  abbrev Going : MsResult × Machine host → Type 0
  Going (result, m) = K host p m

  abbrev Gone : Option (MsResult × Machine host) → Type 0
  Gone o = Returns o Going

  append_rest-Gone :
      (made : Ref) (items : List Ref) (count i : ℕ) (m : Machine host)
      → i + count ≤ length items
      → K host p m
      → Gone (append_rest host made items count i m)
  unfolding append_rest
  append_rest-Gone made items zero i m h k = k
  append_rest-Gone made items (suc count) i m h k =
      let (v, found) = get_elem?-lt items i (omega arith) in
      rw found (
        let (result, w) = host.append_item made v m.world in
        let k' = world-Keeps host p m w k in
        if_rule Gone (is_ok result)
          (λ _. append_rest-Gone made items count (suc i) (with_world host w m) (omega arith) k')
          (λ _. k'))

  put_unpacked-Keeps :
      (source i : ℕ) (v : Ref) (m : Machine host)
      → source + 1 + i < p.cells
      → K host p m
      → Returns (put_unpacked host source i v m) (K host p)
  unfolding put_unpacked
  put_unpacked-Keeps source i v m h k =
      bind_rule _ (K host p) (put_cell host (source + 1 + i) v m) _
        (put_cell-Keeps host p m (source + 1 + i) v h k)
        (λ m' k'. top-Keeps host p m' (source + i + 2) (omega arith) k'.0)

  unpack_rest-Gone :
      (items : List Ref) (middle source i : ℕ) (m : Machine host) (made : Option Ref × host.World)
      → source + 1 + i < p.cells
      → i + middle ≤ length items
      → K host p m
      → Gone (unpack_rest host items middle source i m made)
  unfolding unpack_rest
  unpack_rest-Gone items middle source i m (none, w) h h' k = world-Keeps host p m w k
  unpack_rest-Gone items middle source i m (some made, w) h h' k =
      bind_rule (K host p) Going (put_unpacked host source i made (with_world host w m)) _
        (put_unpacked-Keeps source i made (with_world host w m) h (world-Keeps host p m w k))
        (λ m' k'. append_rest-Gone made items middle i m' h' k')

  unpack_one-Gone :
      (items : List Ref) (star count source i : ℕ) (m : Machine host)
      → i < count
      → Fits items star count
      → source + 1 + i < p.cells
      → K host p m
      → Gone (unpack_one host items star count source i m)
  unfolding unpack_one
  unpack_one-Gone items star count source i m h fits room k =
      if_rule Gone (i == star)
        (λ e.
          unpack_rest-Gone items _ source i m (host.fresh_list _ m.world) room
            (rest_of-Fits items star count i h fits e) k)
        (λ e.
          let (v, found) =
            get_elem?-lt items (index_of (length items) star count i)
              (index_of-Fits items star count i h fits e) in
          rw found (
            bind_rule (K host p) Going (put_unpacked host source i v m) _
              (put_unpacked-Keeps source i v m room k) (λ m' k'. k')))

  unpack_all-Gone :
      (items : List Ref) (star count source left i : ℕ) (m : Machine host)
      → i + left ≤ count
      → Fits items star count
      → source + count < p.cells
      → K host p m
      → Gone (unpack_all host items star count source left i m)
  unfolding unpack_all
  unpack_all-Gone items star count source zero i m h fits room k = k
  unpack_all-Gone items star count source (suc left) i m h fits room k =
      bind_rule Going Going (unpack_one host items star count source i m) _
        (unpack_one-Gone items star count source i m (omega arith) fits (omega arith) k)
        (λ q k'.
          if_rule Gone (is_ok q.0)
            (λ _.
              unpack_all-Gone items star count source left (suc i) q.1 (omega arith) fits room k')
            (λ _. k'))

  move_down-Keeps :
      (left i : ℕ) (m : Machine host)
      → i + left < p.cells
      → K host p m
      → Returns (move_down host left i m) (K host p)
  unfolding move_down
  move_down-Keeps zero i m h k = k
  move_down-Keeps (suc left) i m h k =
      bind_rule _ (K host p) (cell host (suc i) m) _ (cell-Returns host p m (suc i) (omega arith) k)
        (λ v _.
          bind_rule _ (K host p) (put_cell host i v m) _
            (put_cell-Keeps host p m i v (omega arith) k)
            (λ m' k'. move_down-Keeps left (suc i) m' (omega arith) k'.0))

  unpack_items-Goes :
      (items : List Ref) (count star : ℕ) (m : Machine host)
      → Fits items star count
      → m.co.stack_top - 1 + count < p.cells
      → K host p m
      → Goes host p (unpack_items host p.frame items count star m)
  unfolding unpack_items
  unpack_items-Goes items count star m fits room k =
      let source = m.co.stack_top - 1 in
      bind_rule Going (Stays host p) (unpack_all host items star count source count 0 m) _
        (unpack_all-Gone items star count source count 0 m (omega arith) fits room k)
        (λ q k'.
          if_rule (Goes host p) (is_ok q.0)
            (λ _.
              bind_rule (K host p) (Stays host p) (move_down host count source q.1) _
                (move_down-Keeps count source q.1 room k')
                (λ m2 k2. top-Keeps host p m2 (source + count) (omega arith) k2))
            (λ _. propagate-Goes host p p.frame q.1 k'))

  tests-Fits :
      (items : List Ref) (count star : ℕ) (m : Machine host)
      → count ≤ 255
      → not (if star == no_star then length items == count else leb count (length items + 1))
        ≡ false
      → is_bad_unpack host p.frame count star m ≡ false
      → Fits items star count × (m.co.stack_top - 1 + count < window_end p.frame)
  unfolding is_bad_unpack
  tests-Fits items count star m small valid good = elim (Bool-cases (star == no_star)) [
    | inl e ↦ ((omega arith, inl (ground arith, ground arith)), ground arith)
    | inr e ↦ ((omega arith, inr (ground arith, ground arith)), ground arith)
  ]

  unpack_value-Goes :
      (count star : ℕ) (m : Machine host) (source : Ref)
      → count ≤ 255
      → K host p m
      → Goes host p (unpack_value host p.frame count star m source)
  unfolding unpack_value
  unpack_value-Goes count star m source small k =
      let items = host.list_items source m.world in
      if_rule (Goes host p) (not (is_list host (host.tag source m.world)))
        (λ _. propagate-Goes host p p.frame (with_world host _ m) (world-Keeps host p m _ k))
        λ _.
          if_rule (Goes host p)
            (not (if star == no_star then length items == count else leb count (length items + 1)))
            (λ _. propagate-Goes host p p.frame (with_world host _ m) (world-Keeps host p m _ k))
            λ valid.
              if_rule (Goes host p) (is_bad_unpack host p.frame count star m)
                (λ _. world-Keeps host p m _ k)
                (λ good.
                  let (fits, below) = tests-Fits items count star m small valid good in
                  unpack_items-Goes items count star m fits (omega (arith, below, roomy)) k)

  pub exec_unpack-Goes :
      (count star : ℕ) (m : Machine host)
      → count ≤ 255
      → K host p m
      → Goes host p (exec_unpack host p.frame count star m)
  unfolding exec_unpack
  exec_unpack-Goes count star m small k =
      if_rule (Goes host p) (not (can_pop m.co p.frame)) (λ _. world-Keeps host p m _ k)
        (λ e.
          bind_rule _ (Stays host p) (cell host (m.co.stack_top - 1) m) _
            (cell-Returns host p m (m.co.stack_top - 1)
              (omega (arith, k.top, can_pop-above m.co p.frame e)) k)
            (λ source _. unpack_value-Goes count star m source small k))

-- ===== src/Vm/Steps.antt =====
-- src/vm/ms_vm.c: the instructions on one or two values stay inside the stack.
use mslang_cc.Base.{
  true, false, Option, List, ◌∷◌, ℕ, ◌+◌, ◌-◌, ◌≤◌, ◌<◌, ◌≡◌, refl, ap, ◌∙◌, arith, ltb, ◌==◌,
  length, drop, length-set, get_elem?-lt,
}
use mslang_cc.Base.Loop.{Returns, bind_rule}
use mslang_cc.Object.{Ref}
use mslang_cc.Proto.{MsResult}
use mslang_cc.Vm.{Frame}
use mslang_cc.Vm.Host.{wrap_error_at, error_at, Host}
use mslang_cc.Vm.Exec.{
  fail_at, propagate, Machine, Outcome, ended, returned, with_world, with_top, with_frame, failing,
  cell, put_cell, push_value, pop, push_next,
}

-- A frame on top, those under it, the number of the cells of the stack, and the room for frames.
pub record Place : Type 0 where
  pub frame : Frame
  pub under : List Frame
  pub cells : ℕ
  pub caps : ℕ

-- The frame of the place is on top, at any instruction, over the same frames; the stack has as many
-- cells, and its part in use ends within them.
pub record Keeps (host : Host) (p : Place) (m : Machine host) : Type 0 where
  pub top_frame : Frame
  pub frames : m.co.frames ≡ top_frame ∷ p.under
  pub base : top_frame.base ≡ p.frame.base
  pub code : top_frame.code ≡ p.frame.code
  pub cells : length m.co.stack ≡ p.cells
  pub caps : m.co.frames_cap ≡ p.caps
  pub top : m.co.stack_top ≤ p.cells

module _ (host : Host) (p : Place) where
  abbrev pub K : Machine host → Type 0
  K m = Keeps host p m

  abbrev pub Stays : Outcome host → Type 0
  Stays (ended result m) = K m
  Stays (returned m) = ⊥

  abbrev pub Goes : Option (Outcome host) → Type 0
  Goes o = Returns o Stays

  pub world-Keeps : (m : Machine host) (w : host.World) → K m → K (with_world host w m)
  world-Keeps m w k = record {
    top_frame = k.top_frame;
    frames = k.frames;
    base = k.base;
    code = k.code;
    cells = k.cells;
    caps = k.caps;
    top = k.top;
  }

  pub top-Keeps : (m : Machine host) (t : ℕ) → t ≤ p.cells → K m → K (with_top host t m)
  top-Keeps m t h k = record {
    top_frame = k.top_frame;
    frames = k.frames;
    base = k.base;
    code = k.code;
    cells = k.cells;
    caps = k.caps;
    top = h;
  }

  pub frame-Keeps :
      (m : Machine host) (g : Frame)
      → g.base ≡ p.frame.base
      → g.code ≡ p.frame.code
      → K m
      → K (with_frame host g m)
  frame-Keeps m g b c k = record {
    top_frame = g;
    frames = ap (λ (fs : List Frame). g ∷ drop 1 fs) k.frames;
    base = b;
    code = c;
    cells = k.cells;
    caps = k.caps;
    top = k.top;
  }

  pub failing-Goes : (m : Machine host) (r : MsResult × host.World) → K m → Goes (failing host r m)
  failing-Goes m r k = world-Keeps m r.1 k

  pub cell-Returns :
      (m : Machine host) (i : ℕ) → i < p.cells → K m → Returns (cell host i m) (λ _. Unit {0})
  cell-Returns m i h k =
      let (v, found) = get_elem?-lt m.co.stack i (omega (arith, k.cells)) in rw found tt

  pub put_cell-Keeps :
      (m : Machine host) (i : ℕ) (v : Ref)
      → i < p.cells
      → K m
      → Returns (put_cell host i v m) (λ m'. K m' × (m'.co.stack_top ≡ m.co.stack_top))
  unfolding put_cell
  put_cell-Keeps m i v h k =
      let there : ltb i (length m.co.stack) ≡ true = ground (arith, k.cells) in
      rw there (
        record {
          top_frame = k.top_frame;
          frames = k.frames;
          base = k.base;
          code = k.code;
          cells = length-set m.co.stack i v ∙ k.cells;
          caps = k.caps;
          top = k.top;
        },
        refl,
      )

  pub push_value-Keeps :
      (m : Machine host) (v : Ref)
      → m.co.stack_top < p.cells
      → K m
      → Returns (push_value host v m) K
  unfolding push_value
  push_value-Keeps m v h k =
      bind_rule _ _ (put_cell host m.co.stack_top v m) _ (put_cell-Keeps m m.co.stack_top v h k)
        (λ m' k'. top-Keeps m' (m.co.stack_top + 1) (omega arith) k'.0)

  pub push_next-Goes :
      (m : Machine host) (v : Ref) → m.co.stack_top < p.cells → K m → Goes (push_next host v m)
  push_next-Goes m v h k =
      bind_rule K Stays (push_value host v m) _ (push_value-Keeps m v h k) (λ m' k'. k')

  -- What taking a value does.
  abbrev pub Pops : Machine host → Ref × Machine host → Type 0
  Pops m (v, m') = K m' × (m'.co.stack_top + 1 ≡ m.co.stack_top)

  pub pop-Keeps : (m : Machine host) → 0 < m.co.stack_top → K m → Returns (pop host m) (Pops m)
  unfolding pop
  pop-Keeps m h k =
      let some_value : (m.co.stack_top == 0) ≡ false = ground arith in
      let t = m.co.stack_top - 1 in
      rw some_value (
        bind_rule _ (Pops m) (cell host t m) _ (cell-Returns m t (omega (arith, k.top)) k)
          (λ v _. (top-Keeps m t (omega (arith, k.top)) k, omega arith)))

  pub fail_at-Goes :
      (f : Frame) (message : List ℕ) (m : Machine host) → K m → Goes (fail_at host f message m)
  fail_at-Goes f message m k = failing-Goes m (error_at host f message m.world) k

  pub propagate-Goes : (f : Frame) (m : Machine host) → K m → Goes (propagate host f m)
  propagate-Goes f m k = failing-Goes m (wrap_error_at host f m.world) k

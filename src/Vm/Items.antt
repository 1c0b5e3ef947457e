-- ===== src/Vm/Items.antt =====
-- src/vm/ms_vm.c: the instructions that build a list or a and the one that unpacks a list.
use mslang_cc.Base.{
  Bool, true, false, not, ◌&&◌, ◌||◌, Option, none, some, List, ◌++◌, ℕ, zero, suc, ◌+◌, ◌-◌, ◌*◌,
  ltb, leb, ◌==◌, if◌then◌else◌, length, get_elem?,
}
use mslang_cc.Base.Loop.{◌>>=◌}
use mslang_cc.Base.Text.{codes}
use mslang_cc.Object.{TypeTag, list_tag, Ref}
use mslang_cc.Proto.{MsResult, ok, error_runtime, is_ok}
use mslang_cc.Vm.{Frame, can_push, can_pop}
use mslang_cc.Vm.Host.{Host, decimal_digits, error_at, wrap_error_at}
use mslang_cc.Vm.Exec.{
  no_star, floor_of, window_end, Machine, Outcome, ended, with_world, with_top, fail_at, propagate,
  underflow, cell, put_cell, push_value, push_next,
}

module _ (host : Host) where
  open host use {
    World, raise_type, raise_value, tag, type_name, fresh_list, append_item, list_items, fresh_dict,
    set_item,
  }

  -- the loop over `count` items from the cell `i` on
  unfoldable pub append_cells : Ref → ℕ → ℕ → Machine host → Option (MsResult × Machine host)
  append_cells made zero i m = some (ok, m)
  append_cells made (suc count) i m = do
    v ← cell host i m
    let (result, w) = append_item made v m.world
    let rest = append_cells made count (suc i) (with_world host w m)
    if is_ok result then rest else some (result, with_world host w m)

  -- the loop over `count` pairs of a key and a value
  unfoldable pub set_cells : Ref → ℕ → ℕ → Machine host → Option (MsResult × Machine host)
  set_cells made zero i m = some (ok, m)
  set_cells made (suc count) i m = do
    key ← cell host i m
    value ← cell host (suc i) m
    let (result, w) = set_item made key value m.world
    let rest = set_cells made count (suc (suc i)) (with_world host w m)
    if is_ok result then rest else some (result, with_world host w m)

  abbrev pub fill : Bool → Ref → ℕ → ℕ → Machine host → Option (MsResult × Machine host)
  fill is_dict container items i m =
      if is_dict then set_cells container items i m else append_cells container items i m

  abbrev pub new_container : Bool → ℕ → World → Option Ref × World
  new_container is_dict items w = if is_dict then fresh_dict w else fresh_list items w

  -- the container that is there, filled and pushed in place of the items
  unfoldable pub fill_container :
      Frame → Bool → ℕ → ℕ → Machine host → Option Ref × World → Option (Outcome host)
  unfolding append_cells set_cells push_value wrap_error_at
  fill_container f is_dict items base m (none, w) = propagate host f (with_world host w m)
  fill_container f is_dict items base m (some container, w) = do
    (result, m') ← fill is_dict container items base (with_world host w m)
    if is_ok result then push_next host container (with_top host base m') else propagate host f m'

  -- `MS_OP_BUILD_LIST` and `MS_OP_BUILD_DICT`
  unfoldable pub exec_build : Frame → Bool → ℕ → Machine host → Option (Outcome host)
  unfolding fill_container can_push error_at
  exec_build f is_dict items m =
      let count = if is_dict then items * 2 else items in
      if ltb m.co.stack_top (floor_of f + count)
      then underflow host f m
      else if count == 0 && not (can_push m.co f (window_end f))
      then fail_at host f (codes "evaluation stack overflow") m
      else fill_container f is_dict items (m.co.stack_top - count) m
          (new_container is_dict items m.world)

  -- the loop that appends `count` of the items, from `i` on, to the list of the rest
  unfoldable pub append_rest :
      Ref → List Ref → ℕ → ℕ → Machine host → Option (MsResult × Machine host)
  append_rest made items zero i m = some (ok, m)
  append_rest made items (suc count) i m = do
    v ← get_elem? items i
    let (result, w) = append_item made v m.world
    let rest = append_rest made items count (suc i) (with_world host w m)
    if is_ok result then rest else some (result, with_world host w m)

  -- a value unpacked to its cell, with the stack in use up to it
  unfoldable pub put_unpacked : ℕ → ℕ → Ref → Machine host → Option (Machine host)
  unfolding put_cell
  put_unpacked source i v m =
      put_cell host (source + 1 + i) v m >>= λ m'. some (with_top host (source + i + 2) m')

  -- the list of the rest, which takes what the other targets leave over
  unfoldable pub unpack_rest :
      List Ref → ℕ → ℕ → ℕ → Machine host → Option Ref × World → Option (MsResult × Machine host)
  unfolding put_unpacked append_rest
  unpack_rest items middle source i m (none, w) = some (error_runtime, with_world host w m)
  unpack_rest items middle source i m (some made, w) = do
    m' ← put_unpacked source i made (with_world host w m)
    append_rest made items middle i m'

  -- the round `i` of the loop over the targets
  unfoldable pub unpack_one :
      List Ref → ℕ → ℕ → ℕ → ℕ → Machine host → Option (MsResult × Machine host)
  unfolding put_unpacked unpack_rest
  unpack_one items star count source i m =
      let len = length items in
      if i == star
      then unpack_rest items (len - (count - 1)) source i m (fresh_list (len - (count - 1)) m.world)
      else (do
        v ← get_elem? items (if not (star == no_star) && ltb star i then len - (count - i) else i)
        m' ← put_unpacked source i v m
        some (ok, m'))

  -- the loop over the targets, of which `left` are left
  unfoldable pub unpack_all :
      List Ref → ℕ → ℕ → ℕ → ℕ → ℕ → Machine host → Option (MsResult × Machine host)
  unfolding unpack_one
  unpack_all items star count source zero i m = some (ok, m)
  unpack_all items star count source (suc left) i m = do
    (result, m') ← unpack_one items star count source i m
    let rest = unpack_all items star count source left (suc i) m'
    if is_ok result then rest else some (result, m')

  -- the values moved down by one cell, over the list
  unfoldable pub move_down : ℕ → ℕ → Machine host → Option (Machine host)
  unfolding put_cell
  move_down zero i m = some m
  move_down (suc left) i m = do
    v ← cell host (suc i) m
    m' ← put_cell host i v m
    move_down left (suc i) m'

  -- the error of a length that does not match
  unfoldable pub bad_length : Bool → ℕ → ℕ → World → World
  unfolding decimal_digits
  bad_length exact count len w =
      if exact
      then raise_value
          (codes "expected "
            ++ decimal_digits 10 count
            ++ codes " values to unpack, got "
            ++ decimal_digits 20 len)
          w
      else raise_value
          (codes "expected at least "
            ++ decimal_digits 10 (count - 1)
            ++ codes " values to unpack, got "
            ++ decimal_digits 20 len)
          w

  -- past the tests
  unfoldable pub unpack_items : Frame → List Ref → ℕ → ℕ → Machine host → Option (Outcome host)
  unfolding unpack_all move_down wrap_error_at
  unpack_items f items count star m = do
    let source = m.co.stack_top - 1
    (result, m') ← unpack_all items star count source count 0 m
    if is_ok result
        then (move_down count source m' >>= λ m2.
            some (ended ok (with_top host (source + count) m2)))
        else propagate host f m'

  unfoldable pub is_bad_unpack : Frame → ℕ → ℕ → Machine host → Bool
  is_bad_unpack f count star m =
      ltb count 1
      || (not (star == no_star) && leb count star)
      || leb (window_end f) (m.co.stack_top - 1 + count)

  abbrev pub is_list : TypeTag → Bool
  is_list list_tag = true
  is_list _ = false

  -- the value on top, and the tests on it
  unfoldable pub unpack_value : Frame → ℕ → ℕ → Machine host → Ref → Option (Outcome host)
  unfolding unpack_items is_bad_unpack bad_length wrap_error_at error_at
  unpack_value f count star m source =
      let items = list_items source m.world in
      let exact = star == no_star in
      if not (is_list (tag source m.world))
      then propagate host f (
          with_world host
            (raise_type
              (codes "cannot unpack non-list '"
                ++ type_name (tag source m.world) m.world
                ++ codes "'")
              m.world)
            m)
      else if not (if exact then length items == count else leb count (length items + 1))
      then propagate host f (with_world host (bad_length exact count (length items) m.world) m)
      else if is_bad_unpack f count star m
      then fail_at host f (codes "invalid unpack instruction") m
      else unpack_items f items count star m

  -- `MS_OP_UNPACK`; the items of the list are read once, since a new list is another one
  unfoldable pub exec_unpack : Frame → ℕ → ℕ → Machine host → Option (Outcome host)
  unfolding unpack_value can_pop error_at
  exec_unpack f count star m =
      if not (can_pop m.co f)
      then underflow host f m
      else (cell host (m.co.stack_top - 1) m >>= unpack_value f count star m)

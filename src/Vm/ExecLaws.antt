-- ===== src/Vm/ExecLaws.antt =====
-- src/vm/ms_vm.c: every instruction keeps the frames inside the stack.
use mslang_cc.Base.{
  true, false, not, Option, none, some, ℕ, ◌+◌, ◌-◌, ◌/◌, ◌%◌, ◌^◌, ◌≤◌, bit_and, ◌≡◌, ap, ◌∙◌,
  arith, ltb, ◌==◌, ==_iff, length, set, drop, length-set,
}
use mslang_cc.Base.Bits.{bit_and_mask}
use mslang_cc.Base.Loop.{if_rule, bind_rule, Returns-map}
use mslang_cc.Object.{Ref, nil_ref, bool_ref}
use mslang_cc.Opcode.{
  OpCode, op_of_number, decode_a, decode_bx, decode_sax, op_load_const, op_load_nil, op_load_true,
  op_load_false, op_move, op_load_local, op_store_local, op_load_upval, op_store_upval,
  op_close_upvals, op_load_global, op_store_global, op_import, op_import_from, op_add, op_sub,
  op_mul, op_div, op_floordiv, op_mod, op_pow, op_neg, op_not, op_bitand, op_bitor, op_bitxor,
  op_shl, op_shr, op_invert, op_eq, op_ne, op_lt, op_le, op_gt, op_ge, op_is, op_in, op_cmp_chain,
  op_jump, op_jump_if_false, op_jump_if_true, op_jump_if_nil, op_build_list, op_build_tuple,
  op_build_dict, op_build_set, op_index, op_set_index, op_del_index, op_slice, op_append, op_call,
  op_call_kw, op_tail_call, op_return, op_load_method, op_call_method, op_make_function,
  op_make_class, op_make_lambda, op_get_attr, op_set_attr, op_del_attr, op_get_iter, op_iter_next,
  op_unpack, op_setup_try, op_pop_try, op_raise, op_reraise, op_spawn, op_await, op_chan_new,
  op_chan_send, op_chan_recv, op_chan_try_recv, op_select_begin, op_select_add_recv,
  op_select_add_send, op_select_exec, op_print_expr, op_nop,
}
use mslang_cc.Vm.{can_pop}
use mslang_cc.Vm.Host.{Host}
use mslang_cc.Vm.Exec.{
  Machine, Outcome, cell, put_cell, push_value, pop, load, with_const, move_local, load_local,
  store_local, load_global, store_global, exec_binary, exec_unary, exec_compare, exec_chain,
  exec_jump, exec_jump_if,
}
use mslang_cc.Vm.Items.{exec_build, exec_unpack}
use mslang_cc.Vm.Run.{is_function, is_c_function, call_value, exec_call, exec_return, exec}
use mslang_cc.Vm.Steps.{Place, Keeps, Stays, Goes, cell-Returns, Pops, pop-Keeps}
use mslang_cc.Vm.Instructions.{
  can_pop-above, load-Goes, with_const-Goes, move_local-Goes, load_local-Goes, store_local-Goes,
  load_global-Goes, store_global-Goes, exec_unary-Goes, exec_binary-Goes,
}
use mslang_cc.Vm.Branches.{exec_compare-Goes, exec_chain-Goes, exec_jump-Goes, exec_jump_if-Goes}
use mslang_cc.Vm.ItemSteps.{exec_build-Goes}
use mslang_cc.Vm.UnpackSteps.{exec_unpack-Goes}
use mslang_cc.Vm.CallSteps.{
  KeepsCalls, leaves, Moves, IsAt, Keeps-Moves, Done, D, Stays-Done, call_function-Done,
  call_c_function-Done,
}

decode_a_small : (i : ℕ) → decode_a i ≤ 255
unfolding decode_a
decode_a_small i =
    let masked : bit_and (i / 2 ^ 8) 0xff ≡ i / 2 ^ 8 % 256 = bit_and_mask 8 (i / 2 ^ 8) in
    omega (arith, masked)

module _ (host : Host) (p : Place) (at : IsAt p) where
  here : (stop_at : ℕ) (o : Option (Outcome host)) → Goes host p o → D host p at stop_at o
  here stop_at o g =
      Returns-map (Stays host p) (Done host p at stop_at) o (Stays-Done host p at stop_at) g

  exec_call-Done :
      (stop_at argc : ℕ) (m : Machine host)
      → KeepsCalls host
      → Keeps host p m
      → D host p at stop_at (exec_call host p.frame argc m)
  unfolding exec_call call_value
  exec_call-Done stop_at argc m law k =
      let base = m.co.stack_top - argc in
      let P = D host p at stop_at in
      if_rule P (ltb m.co.stack_top (argc + 1)) (λ _. Keeps-Moves host p at m k)
        (λ enough.
          bind_rule _ (Done host p at stop_at) (cell host (base - 1) m) _
            (cell-Returns host p m (base - 1) (ground (arith, k.top)) k)
            (λ callable _.
              if_rule P (is_function host (host.tag callable m.world))
                (λ _. call_function-Done host p at stop_at argc base callable m k)
                λ _.
                  if_rule P (is_c_function host (host.tag callable m.world))
                    (λ _.
                      call_c_function-Done host p at stop_at argc base callable m law (ground arith)
                        (omega arith) k)
                    (λ _. Keeps-Moves host p at m k)))

  -- The state behind the removal of the frame and the write of the value.
  left-Moves :
      (m : Machine host) (v : Ref)
      → Keeps host p m
      → Moves p (record m.co {
        frames = drop 1 m.co.frames;
        stack = set m.co.stack (p.frame.base - 1) v;
        stack_top = p.frame.base - 1 + 1;
      })
  left-Moves m v k =
      let under : drop 1 m.co.frames ≡ p.under = ap (drop 1) k.frames in
      let cells : length (set m.co.stack (p.frame.base - 1) v) ≡ p.cells =
        length-set m.co.stack (p.frame.base - 1) v ∙ k.cells in
      record {
        safe = record {
          top = rw cells (omega (arith, at.roomy, at.above));
          room = rw cells at.room;
          inside = rw (under, cells) at.inside;
          count = rw (under, k.caps) (omega (arith, at.count));
          limit = rw k.caps at.limit;
        };
        longer = rw cells (omega arith);
        shape = rw under (leaves (omega (arith, at.above)));
      }

  exec_return-Done :
      (stop_at : ℕ) (m : Machine host)
      → Keeps host p m
      → D host p at stop_at (exec_return host stop_at p.frame m)
  unfolding exec_return push_value put_cell
  exec_return-Done stop_at m k =
      let P = D host p at stop_at in
      if_rule P (not (can_pop m.co p.frame)) (λ _. Keeps-Moves host p at m k)
        (λ e.
          let based : (p.frame.base == 0) ≡ false = ground (arith, at.above) in
          rw based (
            bind_rule (Pops host p m) (Done host p at stop_at) (pop host m) _
              (pop-Keeps host p m (can_pop-above m.co p.frame e) k)
              (λ q popped.
                let there : ltb (p.frame.base - 1) (length q.1.co.stack) ≡ true =
                  ground (arith, popped.0.cells, at.above, at.roomy) in
                let moves = left-Moves q.1 q.0 popped.0 in
                rw there (
                  if_rule (Done host p at stop_at) (length (drop 1 q.1.co.frames) == stop_at)
                    (λ e. (moves, (==_iff (length (drop 1 q.1.co.frames)) stop_at).0 e))
                    (λ _. moves)))))

  -- Whatever the opcode, no access is outside an array.
  pub exec-Done :
      KeepsCalls host
      → (stop_at : ℕ) (op : Option OpCode) (i : ℕ) (m : Machine host) → Keeps host p m
      → D host p at stop_at (exec host stop_at p.frame op i m)
  unfolding exec
  exec-Done law stop_at none i m k = Keeps-Moves host p at m k
  exec-Done law stop_at (some op_load_const) i m k =
      here stop_at (with_const host p.frame (decode_bx i) m (λ v. load host p.frame v m))
        (with_const-Goes host p at.roomy (decode_bx i) m _ k (λ v. load-Goes host p at.roomy v m k))
  exec-Done law stop_at (some op_load_nil) i m k =
      here stop_at (load host p.frame nil_ref m) (load-Goes host p at.roomy nil_ref m k)
  exec-Done law stop_at (some op_load_true) i m k =
      here stop_at (load host p.frame (bool_ref true) m)
        (load-Goes host p at.roomy (bool_ref true) m k)
  exec-Done law stop_at (some op_load_false) i m k =
      here stop_at (load host p.frame (bool_ref false) m)
        (load-Goes host p at.roomy (bool_ref false) m k)
  exec-Done law stop_at (some op_move) i m k =
      here stop_at (move_local host p.frame (decode_a i) (decode_bx i) m)
        (move_local-Goes host p at.roomy (decode_a i) (decode_bx i) m k)
  exec-Done law stop_at (some op_load_local) i m k =
      here stop_at (load_local host p.frame (decode_a i) m)
        (load_local-Goes host p at.roomy (decode_a i) m k)
  exec-Done law stop_at (some op_store_local) i m k =
      here stop_at (store_local host p.frame (decode_a i) m)
        (store_local-Goes host p at.roomy (decode_a i) m k)
  exec-Done law stop_at (some op_load_upval) i m k = Keeps-Moves host p at m k
  exec-Done law stop_at (some op_store_upval) i m k = Keeps-Moves host p at m k
  exec-Done law stop_at (some op_close_upvals) i m k = Keeps-Moves host p at m k
  exec-Done law stop_at (some op_load_global) i m k =
      here stop_at (with_const host p.frame (decode_bx i) m (λ v. load_global host p.frame v m)) (
        with_const-Goes host p at.roomy (decode_bx i) m _ k
          (λ v. load_global-Goes host p at.roomy v m k))
  exec-Done law stop_at (some op_store_global) i m k =
      here stop_at (with_const host p.frame (decode_bx i) m (λ v. store_global host p.frame v m)) (
        with_const-Goes host p at.roomy (decode_bx i) m _ k
          (λ v. store_global-Goes host p at.roomy v m k))
  exec-Done law stop_at (some op_import) i m k = Keeps-Moves host p at m k
  exec-Done law stop_at (some op_import_from) i m k = Keeps-Moves host p at m k
  exec-Done law stop_at (some op_add) i m k =
      here stop_at (exec_binary host p.frame op_add m) (exec_binary-Goes host p at.roomy op_add m k)
  exec-Done law stop_at (some op_sub) i m k =
      here stop_at (exec_binary host p.frame op_sub m) (exec_binary-Goes host p at.roomy op_sub m k)
  exec-Done law stop_at (some op_mul) i m k =
      here stop_at (exec_binary host p.frame op_mul m) (exec_binary-Goes host p at.roomy op_mul m k)
  exec-Done law stop_at (some op_div) i m k =
      here stop_at (exec_binary host p.frame op_div m) (exec_binary-Goes host p at.roomy op_div m k)
  exec-Done law stop_at (some op_floordiv) i m k =
      here stop_at (exec_binary host p.frame op_floordiv m)
        (exec_binary-Goes host p at.roomy op_floordiv m k)
  exec-Done law stop_at (some op_mod) i m k =
      here stop_at (exec_binary host p.frame op_mod m) (exec_binary-Goes host p at.roomy op_mod m k)
  exec-Done law stop_at (some op_pow) i m k =
      here stop_at (exec_binary host p.frame op_pow m) (exec_binary-Goes host p at.roomy op_pow m k)
  exec-Done law stop_at (some op_neg) i m k =
      here stop_at (exec_unary host p.frame op_neg m) (exec_unary-Goes host p at.roomy op_neg m k)
  exec-Done law stop_at (some op_not) i m k =
      here stop_at (exec_unary host p.frame op_not m) (exec_unary-Goes host p at.roomy op_not m k)
  exec-Done law stop_at (some op_bitand) i m k =
      here stop_at (exec_binary host p.frame op_bitand m)
        (exec_binary-Goes host p at.roomy op_bitand m k)
  exec-Done law stop_at (some op_bitor) i m k =
      here stop_at (exec_binary host p.frame op_bitor m)
        (exec_binary-Goes host p at.roomy op_bitor m k)
  exec-Done law stop_at (some op_bitxor) i m k =
      here stop_at (exec_binary host p.frame op_bitxor m)
        (exec_binary-Goes host p at.roomy op_bitxor m k)
  exec-Done law stop_at (some op_shl) i m k =
      here stop_at (exec_binary host p.frame op_shl m) (exec_binary-Goes host p at.roomy op_shl m k)
  exec-Done law stop_at (some op_shr) i m k =
      here stop_at (exec_binary host p.frame op_shr m) (exec_binary-Goes host p at.roomy op_shr m k)
  exec-Done law stop_at (some op_invert) i m k =
      here stop_at (exec_unary host p.frame op_invert m)
        (exec_unary-Goes host p at.roomy op_invert m k)
  exec-Done law stop_at (some op_eq) i m k =
      here stop_at (exec_compare host p.frame op_eq m) (exec_compare-Goes host p at.roomy op_eq m k)
  exec-Done law stop_at (some op_ne) i m k =
      here stop_at (exec_compare host p.frame op_ne m) (exec_compare-Goes host p at.roomy op_ne m k)
  exec-Done law stop_at (some op_lt) i m k =
      here stop_at (exec_compare host p.frame op_lt m) (exec_compare-Goes host p at.roomy op_lt m k)
  exec-Done law stop_at (some op_le) i m k =
      here stop_at (exec_compare host p.frame op_le m) (exec_compare-Goes host p at.roomy op_le m k)
  exec-Done law stop_at (some op_gt) i m k =
      here stop_at (exec_compare host p.frame op_gt m) (exec_compare-Goes host p at.roomy op_gt m k)
  exec-Done law stop_at (some op_ge) i m k =
      here stop_at (exec_compare host p.frame op_ge m) (exec_compare-Goes host p at.roomy op_ge m k)
  exec-Done law stop_at (some op_is) i m k =
      here stop_at (exec_compare host p.frame op_is m) (exec_compare-Goes host p at.roomy op_is m k)
  exec-Done law stop_at (some op_in) i m k =
      here stop_at (exec_compare host p.frame op_in m) (exec_compare-Goes host p at.roomy op_in m k)
  exec-Done law stop_at (some op_cmp_chain) i m k =
      here stop_at (exec_chain host p.frame (op_of_number (decode_a i)) (decode_bx i) m)
        (exec_chain-Goes host p at.roomy (op_of_number (decode_a i)) (decode_bx i) m k)
  exec-Done law stop_at (some op_jump) i m k =
      here stop_at (exec_jump host p.frame (decode_sax i) m)
        (exec_jump-Goes host p at.roomy (decode_sax i) m k)
  exec-Done law stop_at (some op_jump_if_false) i m k =
      here stop_at (exec_jump_if host p.frame op_jump_if_false (decode_sax i) m)
        (exec_jump_if-Goes host p at.roomy op_jump_if_false (decode_sax i) m k)
  exec-Done law stop_at (some op_jump_if_true) i m k =
      here stop_at (exec_jump_if host p.frame op_jump_if_true (decode_sax i) m)
        (exec_jump_if-Goes host p at.roomy op_jump_if_true (decode_sax i) m k)
  exec-Done law stop_at (some op_jump_if_nil) i m k =
      here stop_at (exec_jump_if host p.frame op_jump_if_nil (decode_sax i) m)
        (exec_jump_if-Goes host p at.roomy op_jump_if_nil (decode_sax i) m k)
  exec-Done law stop_at (some op_build_list) i m k =
      here stop_at (exec_build host p.frame false (decode_a i) m)
        (exec_build-Goes host p at.roomy false (decode_a i) m k)
  exec-Done law stop_at (some op_build_tuple) i m k = Keeps-Moves host p at m k
  exec-Done law stop_at (some op_build_dict) i m k =
      here stop_at (exec_build host p.frame true (decode_a i) m)
        (exec_build-Goes host p at.roomy true (decode_a i) m k)
  exec-Done law stop_at (some op_build_set) i m k = Keeps-Moves host p at m k
  exec-Done law stop_at (some op_index) i m k = Keeps-Moves host p at m k
  exec-Done law stop_at (some op_set_index) i m k = Keeps-Moves host p at m k
  exec-Done law stop_at (some op_del_index) i m k = Keeps-Moves host p at m k
  exec-Done law stop_at (some op_slice) i m k = Keeps-Moves host p at m k
  exec-Done law stop_at (some op_append) i m k = Keeps-Moves host p at m k
  exec-Done law stop_at (some op_call) i m k = exec_call-Done stop_at (decode_a i) m law k
  exec-Done law stop_at (some op_call_kw) i m k = Keeps-Moves host p at m k
  exec-Done law stop_at (some op_tail_call) i m k = Keeps-Moves host p at m k
  exec-Done law stop_at (some op_return) i m k = exec_return-Done stop_at m k
  exec-Done law stop_at (some op_load_method) i m k = Keeps-Moves host p at m k
  exec-Done law stop_at (some op_call_method) i m k = Keeps-Moves host p at m k
  exec-Done law stop_at (some op_make_function) i m k = Keeps-Moves host p at m k
  exec-Done law stop_at (some op_make_class) i m k = Keeps-Moves host p at m k
  exec-Done law stop_at (some op_make_lambda) i m k = Keeps-Moves host p at m k
  exec-Done law stop_at (some op_get_attr) i m k = Keeps-Moves host p at m k
  exec-Done law stop_at (some op_set_attr) i m k = Keeps-Moves host p at m k
  exec-Done law stop_at (some op_del_attr) i m k = Keeps-Moves host p at m k
  exec-Done law stop_at (some op_get_iter) i m k = Keeps-Moves host p at m k
  exec-Done law stop_at (some op_iter_next) i m k = Keeps-Moves host p at m k
  exec-Done law stop_at (some op_unpack) i m k =
      here stop_at (exec_unpack host p.frame (decode_a i) (decode_bx i) m)
        (exec_unpack-Goes host p at.roomy (decode_a i) (decode_bx i) m (decode_a_small i) k)
  exec-Done law stop_at (some op_setup_try) i m k = Keeps-Moves host p at m k
  exec-Done law stop_at (some op_pop_try) i m k = Keeps-Moves host p at m k
  exec-Done law stop_at (some op_raise) i m k = Keeps-Moves host p at m k
  exec-Done law stop_at (some op_reraise) i m k = Keeps-Moves host p at m k
  exec-Done law stop_at (some op_spawn) i m k = Keeps-Moves host p at m k
  exec-Done law stop_at (some op_await) i m k = Keeps-Moves host p at m k
  exec-Done law stop_at (some op_chan_new) i m k = Keeps-Moves host p at m k
  exec-Done law stop_at (some op_chan_send) i m k = Keeps-Moves host p at m k
  exec-Done law stop_at (some op_chan_recv) i m k = Keeps-Moves host p at m k
  exec-Done law stop_at (some op_chan_try_recv) i m k = Keeps-Moves host p at m k
  exec-Done law stop_at (some op_select_begin) i m k = Keeps-Moves host p at m k
  exec-Done law stop_at (some op_select_add_recv) i m k = Keeps-Moves host p at m k
  exec-Done law stop_at (some op_select_add_send) i m k = Keeps-Moves host p at m k
  exec-Done law stop_at (some op_select_exec) i m k = Keeps-Moves host p at m k
  exec-Done law stop_at (some op_print_expr) i m k = Keeps-Moves host p at m k
  exec-Done law stop_at (some op_nop) i m k = Keeps-Moves host p at m k

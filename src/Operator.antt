-- ===== src/Operator.antt =====
-- src/object/ms_operator.c: the operators on any two values. A function that returns a new object
-- returns here what it asks the heap for, or the error that it raises.
pub mod Fast
pub mod Agreement
pub mod Exact
pub mod Quotient
pub mod Ordering
pub mod Numeric
use mslang_cc.Base.{
  Bool, true, false, not, ◌&&◌, ◌||◌, Option, none, some, List, [], ◌∷◌, ◌++◌, map, ℕ, zero, suc,
  ◌+◌, ◌-◌, ◌*◌, ◌/◌, ◌%◌, ◌^◌, ◌≤◌, ◌<◌, min, max, bit_and, bit_or, bit_xor, ◌≡◌, refl, sym, ap,
  ◌∙◌, ◌≡⟨◌⟩◌, ◌∎, ◌≢◌, ◌↔◌, ◌⊎◌, inl, inr, arith, ltb, leb, ◌==◌, if◌then◌else◌, ltb→lt, lt→ltb,
  leb→le, ==_iff, tests, Bool-cases, Option-cases, none≢some, length, get_elem?, set, take, drop,
  replicate, length-append, length-set, length-replicate, length-take, get_elem?-set_self,
  get_elem?-set_ne, get_elem?-lt, get_elem?-some, get_elem?-append_left, get_elem?-append_self,
  List-cases,
}
use mslang_cc.Base.Int.{
  ℤ, pos, negsuc, pos_part, neg_part, sub_ℕ, ◌+ℤ◌, ◌-ℤ◌, ◌*ℤ◌, ◌≤ℤ◌, ltb_ℤ, +ℤ_comm, +ℤ_assoc,
  +ℤ_cancel, ≤ℤ_total, +ℤ_parts, -ℤ_parts, eq_of_parts, int_laws, +ℤ_mono, *ℤ_comm, one-*ℤ,
  *ℤ_parts, *ℤ_assoc,
}
use mslang_cc.Base.Words.{
  to_uint32, to_uint64, to_int32, to_int64, IsInt64, int64_max, int64_min, to_int64-to_uint64,
  to_uint64-lt,
}
use mslang_cc.Arith.{
  neg_ℕ, tdiv, trem, is_pos, is_neg, mul_overflows, checked_mul, checked_add, checked_sub,
  divides_badly, rounds_up, floor_div, floor_mod, checked_floor_div, checked_floor_mod, PowResult,
  done, overflow, out_of_fuel, pow_result, pow_base, pow_round, pow_loop, int_pow, shift_right,
  checked_shift_left,
}
use mslang_cc.Floats.{Floats, float_zero, in_int64, IsIeee}
use mslang_cc.Memory.{size_max}
use mslang_cc.Object.{
  TypeTag, nil_tag, bool_tag, int_tag, float_tag, string_tag, bytes_tag, list_tag, tuple_tag,
  dict_tag, set_tag, function_tag, class_tag, instance_tag, module_tag, channel_tag, coroutine_tag,
  iterator_tag, bound_method_tag, c_function_tag, c_type_tag, proto_tag, tag_number, same_bool, Ref,
  nil_ref, bool_ref, cached_ref, type_ref, proto_ref, cell_ref, Object, nil, bool, int, float,
  string, list, dict, function, c_function, class, proto, tag_of, Store, cache_value, deref,
  same_ref,
}
use mslang_cc.Object.Compare.{
  Order, less, same, greater, unordered, flip, string_compare, int_compare, int_compare_float,
  float_compare, object_compare,
}
use mslang_cc.Object.Equals.{
  same_int, same_bytes, string_equals, int_equals_float, equal_items, equal_objects, equal_itself,
  value_equals,
}
use mslang_cc.Object.Hash.{is_truthy}
use mslang_cc.Opcode.{
  OpFormat, abc, sax, OpCode, op_load_const, op_load_nil, op_load_true, op_load_false, op_move,
  op_load_local, op_store_local, op_load_upval, op_store_upval, op_close_upvals, op_load_global,
  op_store_global, op_import, op_import_from, op_add, op_sub, op_mul, op_div, op_floordiv, op_mod,
  op_pow, op_neg, op_not, op_bitand, op_bitor, op_bitxor, op_shl, op_shr, op_invert, op_eq, op_ne,
  op_lt, op_le, op_gt, op_ge, op_is, op_in, op_cmp_chain, op_jump, op_jump_if_false,
  op_jump_if_true, op_jump_if_nil, op_build_list, op_build_tuple, op_build_dict, op_build_set,
  op_index, op_set_index, op_del_index, op_slice, op_append, op_call, op_call_kw, op_tail_call,
  op_return, op_load_method, op_call_method, op_make_function, op_make_class, op_make_lambda,
  op_get_attr, op_set_attr, op_del_attr, op_get_iter, op_iter_next, op_unpack, op_setup_try,
  op_pop_try, op_raise, op_reraise, op_spawn, op_await, op_chan_new, op_chan_send, op_chan_recv,
  op_chan_try_recv, op_select_begin, op_select_add_recv, op_select_add_send, op_select_exec,
  op_print_expr, op_nop, op_number, op_count, op_table, op_of_number, op_format, encode_abc,
  encode_sax, decode_op, decode_a, decode_bx, decode_sax,
}

-- The errors, by their messages; `memory_fault` is `msObjectSetOom`.
pub data Fault : Type 0 where
  integer_overflow division_by_zero binary_operands unary_operand shift_count memory_fault : Fault

-- The calls of `msNewInt`, `msNewFloat`, `msNewBool` and `msStringNew`; for the last the bytes stand in
-- a buffer of `buffer` bytes, which is allocated before and freed after.
pub data Answer (D : Type 0) : Type 0 where
  new_int : ℤ → Answer D
  new_float : D → Answer D
  new_bool : Bool → Answer D
  new_string : (bytes : List ℕ) → (buffer : ℕ) → Answer D
  raises : Fault → Answer D

-- `&`, `|` and `^` on `int64_t`
unfoldable pub int_and : ℤ → ℤ → ℤ
int_and l r = to_int64 (bit_and (to_uint64 l) (to_uint64 r))

unfoldable pub int_or : ℤ → ℤ → ℤ
int_or l r = to_int64 (bit_or (to_uint64 l) (to_uint64 r))

unfoldable pub int_xor : ℤ → ℤ → ℤ
int_xor l r = to_int64 (bit_xor (to_uint64 l) (to_uint64 r))

-- `~v`
unfoldable pub int_invert : ℤ → ℤ
int_invert v = negsuc 0 -ℤ v

-- the count of a shift is out of range
abbrev pub bad_shift : ℤ → Bool
bad_shift r = is_neg r || leb 64 (pos_part r)

-- the comparisons of `msObjectStringBinaryOp`; `none` is its `default:`
unfoldable pub string_order : OpCode → Order → Option Bool
string_order op_eq o = elim o [ same ↦ some true | _ ↦ some false ]
string_order op_ne o = elim o [ same ↦ some false | _ ↦ some true ]
string_order op_lt o = elim o [ less ↦ some true | _ ↦ some false ]
string_order op_le o = elim o [ less ↦ some true | same ↦ some true | _ ↦ some false ]
string_order op_gt o = elim o [ greater ↦ some true | _ ↦ some false ]
string_order op_ge o = elim o [ greater ↦ some true | same ↦ some true | _ ↦ some false ]
string_order _ o = none

-- `op == MS_OP_EQ ? equal : !equal`, and `none` for another operator
unfoldable pub equality : OpCode → Bool → Option Bool
equality op_eq equal = some equal
equality op_ne equal = some (not equal)
equality _ equal = none

module _ (F : Floats) where
  open F use {Double, of_int, feq, flt, fneg, fadd, fsub, fmul, fdiv, fpow, fmod, floor, copysign}

  -- the concatenation
  unfoldable pub concat : List ℕ → List ℕ → Answer Double
  concat a b =
      if ltb (size_max - length b) (length a) || length a + length b == size_max
      then raises memory_fault
      else new_string (a ++ b) (length a + length b + 1)

  -- `msObjectStringBinaryOp`
  unfoldable pub string_binary_op : OpCode → List ℕ → List ℕ → Answer Double
  string_binary_op op_add a b = concat a b
  string_binary_op op a b = elim (string_order op (string_compare a b)) [
    | none ↦ raises binary_operands
    | some holds ↦ new_bool holds
  ]

  -- `msObjectIntBinaryOp`: it is called where the VM found no result that fits
  unfoldable pub int_binary_op : OpCode → ℤ → ℤ → Answer Double
  int_binary_op op_add l r = raises integer_overflow
  int_binary_op op_sub l r = raises integer_overflow
  int_binary_op op_mul l r = raises integer_overflow
  int_binary_op op_pow l r = raises integer_overflow
  int_binary_op op_shl l r = raises integer_overflow
  int_binary_op op_div l r =
      if same_int r (pos 0) then raises division_by_zero else new_float (fdiv (of_int l) (of_int r))
  int_binary_op op_floordiv l r =
      if same_int r (pos 0) then raises division_by_zero else raises integer_overflow
  int_binary_op op_mod l r =
      if same_int r (pos 0) then raises division_by_zero else raises integer_overflow
  int_binary_op op_bitand l r = new_int (int_and l r)
  int_binary_op op_bitor l r = new_int (int_or l r)
  int_binary_op op_bitxor l r = new_int (int_xor l r)
  int_binary_op op_shr l r =
      if bad_shift r then raises shift_count else new_int (shift_right l (pos_part r))
  int_binary_op _ l r = raises binary_operands

  -- the remainder that `MS_OP_MOD` makes of `fmod`
  unfoldable pub float_mod : Double → Double → Double
  float_mod a b =
      let rem = fmod a b in
      if feq rem (float_zero F)
      then copysign (float_zero F) b
      else if not (same_bool (flt rem (float_zero F)) (flt b (float_zero F)))
      then fadd rem b
      else rem

  -- `msObjectNumericBinaryOp`
  unfoldable pub numeric_binary_op : OpCode → Double → Double → Answer Double
  numeric_binary_op op_add a b = new_float (fadd a b)
  numeric_binary_op op_sub a b = new_float (fsub a b)
  numeric_binary_op op_mul a b = new_float (fmul a b)
  numeric_binary_op op_div a b =
      if feq b (float_zero F) then raises division_by_zero else new_float (fdiv a b)
  numeric_binary_op op_floordiv a b =
      if feq b (float_zero F) then raises division_by_zero else new_float (floor (fdiv a b))
  numeric_binary_op op_mod a b =
      if feq b (float_zero F) then raises division_by_zero else new_float (float_mod a b)
  numeric_binary_op op_pow a b = new_float (fpow a b)
  numeric_binary_op _ a b = raises binary_operands

  -- the branches of `msObjectBinaryOp` by the tags, without equality
  unfoldable pub tagged_binary_op : OpCode → Object Double → Object Double → Answer Double
  tagged_binary_op op (int l) (int r) = int_binary_op op l r
  tagged_binary_op op (int l) (float r) = numeric_binary_op op (of_int l) r
  tagged_binary_op op (float l) (int r) = numeric_binary_op op l (of_int r)
  tagged_binary_op op (float l) (float r) = numeric_binary_op op l r
  tagged_binary_op op _ _ = raises binary_operands

  -- `msObjectBinaryOp`; `equal` is the result of `msObjectValueEquals` on the operands, `none` where
  -- that runs out of fuel
  unfoldable pub object_binary_op :
      Option Bool → OpCode → Object Double → Object Double → Option (Answer Double)
  object_binary_op equal op (string h a) (string k b) = some (string_binary_op op a b)
  object_binary_op equal op x y = elim (equality op true) [
    | none ↦ some (tagged_binary_op op x y)
    | some _ ↦ elim equal [
      | none ↦ none
      | some e ↦ elim (equality op e) [
        | none ↦ some (tagged_binary_op op x y)
        | some holds ↦ some (new_bool holds)
      ]
    ]
  ]

  -- `msObjectUnaryOp`
  unfoldable pub object_unary_op : OpCode → Object Double → Answer Double
  object_unary_op op_not x = new_bool (not (is_truthy F x))
  object_unary_op op_neg (float d) = new_float (fneg d)
  object_unary_op op_neg (int v) = raises integer_overflow
  object_unary_op op_invert (int v) = new_int (int_invert v)
  object_unary_op _ _ = raises unary_operand

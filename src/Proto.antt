-- ===== src/Proto.antt =====
-- src/vm/ms_proto.c and ms_proto.h: the builder of a function's code. An array is the list of its
-- entries in use, beside its capacity. The counts of a proto are never negative. A capacity is
-- doubled on ℕ: past 2^30 entries the `int` of the source overflows.
pub mod Consts
pub mod Emit
pub mod Lines
pub mod Patch
pub mod Pool
pub mod Build
use mslang_cc.Base.{
  Bool, true, false, not, ◌&&◌, ◌||◌, Option, none, some, List, [], ◌∷◌, ◌++◌, map, ℕ, zero, suc,
  ◌+◌, ◌-◌, ◌*◌, ◌/◌, ◌%◌, ◌^◌, ◌≤◌, ◌<◌, min, max, bit_and, bit_or, bit_xor, ◌≡◌, refl, sym, ap,
  ◌∙◌, ◌≡⟨◌⟩◌, ◌∎, ◌≢◌, ◌↔◌, ◌⊎◌, inl, inr, arith, ltb, leb, ◌==◌, if◌then◌else◌, ltb→lt, lt→ltb,
  leb→le, ==_iff, tests, Bool-cases, Option-cases, none≢some, length, get_elem?, set, take, drop,
  replicate, length-append, length-set, length-replicate, length-take, get_elem?-set_self,
  get_elem?-set_ne, get_elem?-lt, get_elem?-some, get_elem?-append_left, get_elem?-append_self,
  List-cases,
}
use mslang_cc.Base.Int.{
  ℤ, pos, negsuc, pos_part, neg_part, sub_ℕ, ◌+ℤ◌, ◌-ℤ◌, ◌*ℤ◌, ◌≤ℤ◌, ltb_ℤ, +ℤ_comm, +ℤ_assoc,
  +ℤ_cancel, ≤ℤ_total, +ℤ_parts, -ℤ_parts, eq_of_parts, int_laws, +ℤ_mono, *ℤ_comm, one-*ℤ,
  *ℤ_parts, *ℤ_assoc,
}
use mslang_cc.Base.Words.{
  to_uint32, to_uint64, to_int32, to_int64, IsInt64, int64_max, int64_min, to_int64-to_uint64,
  to_uint64-lt,
}
use mslang_cc.Floats.{Floats, float_zero, in_int64, IsIeee}
use mslang_cc.Memory.{
  size_max, header_size, wrap, MemStats, Mem, zero_stats, consume_fail_after, ask_host, raise_peak,
  account_alloc, account_realloc, bad_size, obtain, alloc, realloc, free, reset_stats,
  set_fail_after,
}
use mslang_cc.Object.{
  TypeTag, nil_tag, bool_tag, int_tag, float_tag, string_tag, bytes_tag, list_tag, tuple_tag,
  dict_tag, set_tag, function_tag, class_tag, instance_tag, module_tag, channel_tag, coroutine_tag,
  iterator_tag, bound_method_tag, c_function_tag, c_type_tag, proto_tag, tag_number, same_bool, Ref,
  nil_ref, bool_ref, cached_ref, type_ref, proto_ref, cell_ref, Object, nil, bool, int, float,
  string, list, dict, function, c_function, class, proto, tag_of, Store, cache_value, deref,
  same_ref,
}
use mslang_cc.Object.Equals.{
  same_int, same_bytes, string_equals, int_equals_float, equal_items, equal_objects, equal_itself,
  value_equals,
}
use mslang_cc.Opcode.{
  OpFormat, abc, sax, OpCode, op_load_const, op_load_nil, op_load_true, op_load_false, op_move,
  op_load_local, op_store_local, op_load_upval, op_store_upval, op_close_upvals, op_load_global,
  op_store_global, op_import, op_import_from, op_add, op_sub, op_mul, op_div, op_floordiv, op_mod,
  op_pow, op_neg, op_not, op_bitand, op_bitor, op_bitxor, op_shl, op_shr, op_invert, op_eq, op_ne,
  op_lt, op_le, op_gt, op_ge, op_is, op_in, op_cmp_chain, op_jump, op_jump_if_false,
  op_jump_if_true, op_jump_if_nil, op_build_list, op_build_tuple, op_build_dict, op_build_set,
  op_index, op_set_index, op_del_index, op_slice, op_append, op_call, op_call_kw, op_tail_call,
  op_return, op_load_method, op_call_method, op_make_function, op_make_class, op_make_lambda,
  op_get_attr, op_set_attr, op_del_attr, op_get_iter, op_iter_next, op_unpack, op_setup_try,
  op_pop_try, op_raise, op_reraise, op_spawn, op_await, op_chan_new, op_chan_send, op_chan_recv,
  op_chan_try_recv, op_select_begin, op_select_add_recv, op_select_add_send, op_select_exec,
  op_print_expr, op_nop, op_number, op_count, op_table, op_of_number, op_format, encode_abc,
  encode_sax, decode_op, decode_a, decode_bx, decode_sax,
}

-- `MsResult`
pub data MsResult : Type 0 where
  ok error_runtime error_syntax error_oom : MsResult

abbrev pub is_ok : MsResult → Bool
is_ok ok = true
is_ok _ = false

-- `struct MsTryBlock` and `struct MsLineEntry`
pub record TryBlock : Type 0 where
  pub pc_start : ℕ
  pub pc_end : ℕ
  pub handler_pc : ℕ
  pub finally_pc : ℕ

pub record LineEntry : Type 0 where
  pub first_pc : ℕ
  pub line : ℕ

-- `struct MsProto`; `name` and `sourceFile` are the bytes of the strings.
pub record Proto : Type 0 where
  pub code : List ℕ
  pub consts : List Ref
  pub param_count : ℕ
  pub local_count : ℕ
  pub stack_size : ℕ
  pub try_blocks : List TryBlock
  pub lines : List LineEntry
  pub name : Option (List ℕ)
  pub source_file : Option (List ℕ)
  pub is_async : Bool
  pub has_var_args : Bool
  pub has_kw_args : Bool

-- `struct MsProtoBuilder`; `pending_line` has a value where `hasPendingLine` is set.
pub record Builder : Type 0 where
  pub proto : Proto
  pub code_cap : ℕ
  pub consts_cap : ℕ
  pub try_cap : ℕ
  pub lines_cap : ℕ
  pub pending_line : Option ℕ
  pub error : MsResult

-- `msProtoBuilderInit`
unfoldable pub empty_proto : Proto
empty_proto = record {
  code = [];
  consts = [];
  param_count = 0;
  local_count = 0;
  stack_size = 0;
  try_blocks = [];
  lines = [];
  name = none;
  source_file = none;
  is_async = false;
  has_var_args = false;
  has_kw_args = false;
}

unfoldable pub builder_init : Builder
builder_init = record {
  proto = empty_proto;
  code_cap = 0;
  consts_cap = 0;
  try_cap = 0;
  lines_cap = 0;
  pending_line = none;
  error = ok;
}

-- `msProtoGrowArray`: the new capacity, if there is memory
unfoldable pub grow_array : ℕ → ℕ → Mem → Option ℕ × Mem
grow_array item_size cap m =
    let new_cap = if cap == 0 then 8 else cap * 2 in
    let (granted, m') =
      realloc (if cap == 0 then none else some (cap * item_size)) (wrap (new_cap * item_size)) m in
    (if granted then some new_cap else none, m')

-- the test for a full array before it; the capacity there is then
unfoldable pub make_room : ℕ → ℕ → ℕ → Mem → Option ℕ × Mem
make_room item_size len cap m = if len == cap then grow_array item_size cap m else (some cap, m)

-- a failure, which sticks
abbrev pub fail : MsResult → Builder → Builder
fail error b = record b { error = error }

unfoldable pub last_line : List LineEntry → Option ℕ
last_line [] = none
last_line (e ∷ es) = let rest = last_line es in elim rest [ none ↦ some e.line | some l ↦ some l ]

-- `needLineEntry`: the line of the entry to append
unfoldable pub line_entry : Builder → Option ℕ
line_entry b = elim b.pending_line [
  | none ↦ none
  | some line ↦ elim (last_line b.proto.lines) [
    | none ↦ some line
    | some previous ↦ if previous == line then none else some line
  ]
]

-- what `msProtoEmit` writes once there is room
unfoldable pub put_instr : ℕ → Builder → Builder
put_instr instr b =
    let pc = length b.proto.code in
    record b {
      proto = record b.proto {
        code = b.proto.code ++ instr ∷ [];
        lines = elim (line_entry b) [
          | none ↦ b.proto.lines
          | some line ↦ b.proto.lines ++ record { first_pc = pc; line = line } ∷ []
        ];
      };
      pending_line = none;
    }

-- the second growth, of `lines`
unfoldable pub lines_room : Builder → Mem → Option ℕ × Mem
lines_room b m = elim (line_entry b) [
  | none ↦ (some b.lines_cap, m)
  | some line ↦ make_room 8 (length b.proto.lines) b.lines_cap m
]

-- `msProtoEmit`: the pc, or `none` for -1
unfoldable pub emit : ℕ → Builder → Mem → Option ℕ × Builder × Mem
emit instr b m =
    if not (is_ok b.error)
    then (none, b, m)
    else (let (grown, m1) = make_room 4 (length b.proto.code) b.code_cap m in
        elim grown [
          | none ↦ (none, fail error_oom b, m1)
          | some code_cap ↦
              let b1 = record b { code_cap = code_cap } in
              let (lines_grown, m2) = lines_room b1 m1 in
              elim lines_grown [
                | none ↦ (none, fail error_oom b1, m2)
                | some lines_cap ↦ (
                  some (length b.proto.code),
                  put_instr instr (record b1 { lines_cap = lines_cap }),
                  m2,
                )
              ]
        ])

-- `msProtoEmitABC`
unfoldable pub emit_abc : OpCode → ℕ → ℕ → Builder → Mem → Option ℕ × Builder × Mem
emit_abc op a bx = emit (encode_abc op a bx)

-- `sax < -8388608 || sax > 8388607`
unfoldable pub is_wide : ℤ → Bool
is_wide offset = ltb_ℤ offset (negsuc 8388607) || ltb_ℤ (pos 8388607) offset

-- `msProtoEmitSAx`
unfoldable pub emit_sax : OpCode → ℤ → Builder → Mem → Option ℕ × Builder × Mem
emit_sax op offset b m =
    if not (is_ok b.error)
    then (none, b, m)
    else if is_wide offset
    then (none, fail error_syntax b, m)
    else emit (encode_sax op offset) b m

-- `msProtoSetLine`
unfoldable pub set_line : ℕ → Builder → Builder
set_line line b = record b { pending_line = some line }

-- the opcode of an instruction whose format is `MS_OPFMT_SAX`; nothing, too, for a word with no valid
-- opcode, where `msOpFormatOf` asserts one: emission writes no such word
unfoldable pub jump_op : ℕ → Option OpCode
jump_op instr = elim (decode_op instr) [
  | none ↦ none
  | some op ↦ elim (op_format op) [ abc ↦ none | sax ↦ some op ]
]

-- the opcode to patch: `pc` is in range and has such an instruction
unfoldable pub patched_op : List ℕ → ℤ → Option OpCode
patched_op code (negsuc n) = none
patched_op code (pos pc) = elim (get_elem? code pc) [ none ↦ none | some instr ↦ jump_op instr ]

-- `msProtoPatchSAx`
unfoldable pub patch_sax : ℤ → ℤ → Builder → MsResult × Builder
patch_sax pc offset b =
    if not (is_ok b.error) then (b.error, b) else elim (patched_op b.proto.code pc) [
      | none ↦ (error_syntax, fail error_syntax b)
      | some op ↦ if is_wide offset then (error_syntax, fail error_syntax b) else (
        ok,
        record b {
          proto = record b.proto { code = set b.proto.code (pos_part pc) (encode_sax op offset) };
        },
      )
    ]

-- `msProtoAddTryBlock`
unfoldable pub add_try_block : TryBlock → Builder → Mem → MsResult × Builder × Mem
add_try_block block b m =
    if not (is_ok b.error)
    then (b.error, b, m)
    else (let (grown, m') = make_room 16 (length b.proto.try_blocks) b.try_cap m in
        elim grown [
          | none ↦ (error_oom, fail error_oom b, m')
          | some cap ↦ (
            ok,
            record b {
              proto = record b.proto { try_blocks = b.proto.try_blocks ++ block ∷ [] };
              try_cap = cap;
            },
            m',
          )
        ])

-- `msProtoShrinkArray`
unfoldable pub shrink_array : ℕ → ℕ → ℕ → Mem → Bool × Mem
shrink_array item_size len cap m =
    let block = if cap == 0 then none else some (cap * item_size) in
    if len == 0 then (true, free block m) else realloc block (wrap (len * item_size)) m

-- the four calls of it, up to the first that fails
unfoldable pub shrink_all : List (ℕ × ℕ × ℕ) → Mem → Bool × Mem
shrink_all [] m = (true, m)
shrink_all ((item_size, len, cap) ∷ rest) m =
    let (shrunk, m') = shrink_array item_size len cap m in
    elim shrunk [ false ↦ (false, m') | true ↦ shrink_all rest m' ]

-- the size of a `struct MsProto`
abbrev pub proto_size : ℕ
proto_size = 120

abbrev pub arrays : Builder → List (ℕ × ℕ × ℕ)
arrays b =
    (4, length b.proto.code, b.code_cap)
    ∷ (8, length b.proto.consts, b.consts_cap)
    ∷ (16, length b.proto.try_blocks, b.try_cap)
    ∷ (8, length b.proto.lines, b.lines_cap)
    ∷ []

-- `msProtoBuild`: the proto, or the error
unfoldable pub build : Builder → Mem → Option Proto × Builder × Mem
build b m =
    if not (is_ok b.error)
    then (none, b, m)
    else if length b.proto.code == 0
    then (none, fail error_syntax b, m)
    else (let (shrunk, m1) = shrink_all (arrays b) m in
        if shrunk
        then (let (granted, m2) = alloc proto_size m1 in
            if granted then (some b.proto, builder_init, m2) else (none, fail error_oom b, m2))
        else (none, fail error_oom b, m1))

-- The loop of `msProtoLineAt`, on fuel. `lo` and `hi` are in range, so `none` is no fuel.
unfoldable pub line_search : ℕ → List LineEntry → ℕ → ℕ → ℕ → Option ℕ
line_search zero lines pc lo hi = none
line_search (suc fuel) lines pc lo hi = elim (ltb lo hi) [
  | false ↦ some lo
  | true ↦
      let mid = (lo + hi + 1) / 2 in
      elim (get_elem? lines mid) [
        | none ↦ none
        | some e ↦ elim (leb e.first_pc pc) [
          | true ↦ line_search fuel lines pc mid hi
          | false ↦ line_search fuel lines pc lo (mid - 1)
        ]
      ]
]

-- `msProtoLineAt`, for a pc that is not negative
unfoldable pub line_at : List LineEntry → ℕ → Option ℕ
line_at [] pc = some 0
line_at (e ∷ es) pc =
    if ltb pc e.first_pc
    then some e.line
    else elim (line_search (length es + 1) (e ∷ es) pc 0 (length es)) [
      | none ↦ none
      | some i ↦ elim (get_elem? (e ∷ es) i) [ none ↦ none | some found ↦ some found.line ]
    ]

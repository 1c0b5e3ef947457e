-- ===== src/Opcode.antt =====
-- src/vm/ms_opcode.h and src/vm/ms_opcode.c: the opcodes, their table and the two formats of an
-- instruction word.
pub mod Codec
use mslang_cc.Base.{
  ℕ, suc, ◌+◌, ◌-◌, ◌*◌, ◌/◌, ◌%◌, ◌^◌, Bool, true, false, Option, List, [], ◌∷◌, get_elem?, ◌==◌,
  if◌then◌else◌, bit_and, bit_or, not,
}
use mslang_cc.Base.Int.{ℤ}
use mslang_cc.Base.Words.{to_uint32, to_int32}

pub data OpFormat : Type 0 where
  abc sax : OpFormat

-- In the order of the enumeration.
pub data OpCode : Type 0 where
  op_load_const op_load_nil op_load_true op_load_false op_move op_load_local op_store_local : OpCode
  op_load_upval op_store_upval op_close_upvals op_load_global op_store_global op_import : OpCode
  op_import_from op_add op_sub op_mul op_div op_floordiv op_mod op_pow op_neg op_not op_bitand :
      OpCode
  op_bitor op_bitxor op_shl op_shr op_invert op_eq op_ne op_lt op_le op_gt op_ge op_is op_in :
      OpCode
  op_cmp_chain op_jump op_jump_if_false op_jump_if_true op_jump_if_nil op_build_list
        op_build_tuple :
      OpCode
  op_build_dict op_build_set op_index op_set_index op_del_index op_slice op_append op_call : OpCode
  op_call_kw op_tail_call op_return op_load_method op_call_method op_make_function op_make_class :
      OpCode
  op_make_lambda op_get_attr op_set_attr op_del_attr op_get_iter op_iter_next op_unpack
        op_setup_try :
      OpCode
  op_pop_try op_raise op_reraise op_spawn op_await op_chan_new op_chan_send op_chan_recv : OpCode
  op_chan_try_recv op_select_begin op_select_add_recv op_select_add_send op_select_exec : OpCode
  op_print_expr op_nop : OpCode

-- The number of an opcode in the enumeration.
unfoldable pub op_number : OpCode → ℕ
op_number op_load_const = 0
op_number op_load_nil = 1
op_number op_load_true = 2
op_number op_load_false = 3
op_number op_move = 4
op_number op_load_local = 5
op_number op_store_local = 6
op_number op_load_upval = 7
op_number op_store_upval = 8
op_number op_close_upvals = 9
op_number op_load_global = 10
op_number op_store_global = 11
op_number op_import = 12
op_number op_import_from = 13
op_number op_add = 14
op_number op_sub = 15
op_number op_mul = 16
op_number op_div = 17
op_number op_floordiv = 18
op_number op_mod = 19
op_number op_pow = 20
op_number op_neg = 21
op_number op_not = 22
op_number op_bitand = 23
op_number op_bitor = 24
op_number op_bitxor = 25
op_number op_shl = 26
op_number op_shr = 27
op_number op_invert = 28
op_number op_eq = 29
op_number op_ne = 30
op_number op_lt = 31
op_number op_le = 32
op_number op_gt = 33
op_number op_ge = 34
op_number op_is = 35
op_number op_in = 36
op_number op_cmp_chain = 37
op_number op_jump = 38
op_number op_jump_if_false = 39
op_number op_jump_if_true = 40
op_number op_jump_if_nil = 41
op_number op_build_list = 42
op_number op_build_tuple = 43
op_number op_build_dict = 44
op_number op_build_set = 45
op_number op_index = 46
op_number op_set_index = 47
op_number op_del_index = 48
op_number op_slice = 49
op_number op_append = 50
op_number op_call = 51
op_number op_call_kw = 52
op_number op_tail_call = 53
op_number op_return = 54
op_number op_load_method = 55
op_number op_call_method = 56
op_number op_make_function = 57
op_number op_make_class = 58
op_number op_make_lambda = 59
op_number op_get_attr = 60
op_number op_set_attr = 61
op_number op_del_attr = 62
op_number op_get_iter = 63
op_number op_iter_next = 64
op_number op_unpack = 65
op_number op_setup_try = 66
op_number op_pop_try = 67
op_number op_raise = 68
op_number op_reraise = 69
op_number op_spawn = 70
op_number op_await = 71
op_number op_chan_new = 72
op_number op_chan_send = 73
op_number op_chan_recv = 74
op_number op_chan_try_recv = 75
op_number op_select_begin = 76
op_number op_select_add_recv = 77
op_number op_select_add_send = 78
op_number op_select_exec = 79
op_number op_print_expr = 80
op_number op_nop = 81

-- `MS_OP_COUNT`
abbrev pub op_count : ℕ
op_count = 82

unfoldable pub op_table : List OpCode
op_table =
    op_load_const ∷ op_load_nil ∷ op_load_true ∷ op_load_false ∷ op_move ∷ op_load_local
    ∷ op_store_local ∷ op_load_upval ∷ op_store_upval ∷ op_close_upvals ∷ op_load_global
    ∷ op_store_global ∷ op_import ∷ op_import_from ∷ op_add ∷ op_sub ∷ op_mul ∷ op_div ∷ op_floordiv
    ∷ op_mod ∷ op_pow ∷ op_neg ∷ op_not ∷ op_bitand ∷ op_bitor ∷ op_bitxor ∷ op_shl ∷ op_shr
    ∷ op_invert ∷ op_eq ∷ op_ne ∷ op_lt ∷ op_le ∷ op_gt ∷ op_ge ∷ op_is ∷ op_in ∷ op_cmp_chain
    ∷ op_jump ∷ op_jump_if_false ∷ op_jump_if_true ∷ op_jump_if_nil ∷ op_build_list ∷ op_build_tuple
    ∷ op_build_dict ∷ op_build_set ∷ op_index ∷ op_set_index ∷ op_del_index ∷ op_slice ∷ op_append
    ∷ op_call ∷ op_call_kw ∷ op_tail_call ∷ op_return ∷ op_load_method ∷ op_call_method
    ∷ op_make_function ∷ op_make_class ∷ op_make_lambda ∷ op_get_attr ∷ op_set_attr ∷ op_del_attr
    ∷ op_get_iter ∷ op_iter_next ∷ op_unpack ∷ op_setup_try ∷ op_pop_try ∷ op_raise ∷ op_reraise
    ∷ op_spawn ∷ op_await ∷ op_chan_new ∷ op_chan_send ∷ op_chan_recv ∷ op_chan_try_recv
    ∷ op_select_begin ∷ op_select_add_recv ∷ op_select_add_send ∷ op_select_exec ∷ op_print_expr
    ∷ op_nop ∷ []

-- `(MsOpCode)n`, if `n` is the number of an opcode; the VM's `default:` branch takes the others.
unfoldable pub op_of_number : ℕ → Option OpCode
unfolding op_table
op_of_number n = get_elem? op_table n

-- `msOpFormatOf`
unfoldable pub op_format : OpCode → OpFormat
op_format op_jump = sax
op_format op_jump_if_false = sax
op_format op_jump_if_true = sax
op_format op_jump_if_nil = sax
op_format op_iter_next = sax
op_format _ = abc

-- `msOpEncodeABC`: the arguments are a `uint8_t` and a `uint16_t`.
unfoldable pub encode_abc : OpCode → ℕ → ℕ → ℕ
encode_abc op a bx = bit_or (bit_or (op_number op) (a * 2 ^ 8)) (bx * 2 ^ 16)

-- `msOpEncodeSAx`
unfoldable pub encode_sax : OpCode → ℤ → ℕ
encode_sax op s = bit_or (op_number op) (bit_and (to_uint32 s) 0xff_ffff * 2 ^ 8)

unfoldable pub decode_op : ℕ → Option OpCode
decode_op instr = op_of_number (bit_and instr 0xff)

unfoldable pub decode_a : ℕ → ℕ
decode_a instr = bit_and (instr / 2 ^ 8) 0xff

-- the cast to `uint16_t`
unfoldable pub decode_bx : ℕ → ℕ
decode_bx instr = instr / 2 ^ 16 % 2 ^ 16

-- `msOpDecodeSAx`: sign extension of the upper 24 bits
unfoldable pub decode_sax : ℕ → ℤ
decode_sax instr =
    let raw = instr / 2 ^ 8 in
    if not (bit_and raw 0x80_0000 == 0) then to_int32 (bit_or raw 0xff00_0000) else to_int32 raw

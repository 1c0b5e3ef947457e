-- ===== src/Opcode/Codec.antt =====
-- The instruction words of src/vm/ms_opcode.h: what is encoded is decoded.
use Prim.Native.Nat.{bit_and, bit_or}
use mslang_cc.Base.{
  ℕ, ◌+◌, ◌*◌, ◌/◌, ◌%◌, ◌^◌, ◌<◌, ◌≡◌, refl, some, arith, ◌∙◌, if◌then◌else◌, not, ◌==◌,
}
use mslang_cc.Base.Bits.{bit_or_fields, bit_and_mask, bit_and_bit}
use mslang_cc.Base.Int.{ℤ, pos, negsuc, ◌≤ℤ◌}
use mslang_cc.Base.Words.{to_uint32, to_int32}
use mslang_cc.Opcode.{
  OpCode, op_load_const, op_number, op_of_number, encode_abc, encode_sax, decode_op, decode_a,
  decode_bx, decode_sax, op_count,
}

pub op_of_number-op_number : (op : OpCode) → op_of_number (op_number op) ≡ some op
unfolding op_of_number op_number
op_of_number-op_number op_load_const = refl
op_of_number-op_number _ = refl

pub op_number-lt : (op : OpCode) → op_number op < op_count
unfolding op_number
op_number-lt op_load_const = omega arith
op_number-lt _ = omega arith

encode_abc_sum :
    (op : OpCode) (a bx : ℕ)
    → a < 2 ^ 8
    → encode_abc op a bx ≡ op_number op + a * 2 ^ 8 + bx * 2 ^ 16
unfolding encode_abc
encode_abc_sum op a bx ha =
    let n : op_number op < 2 ^ 8 = omega (arith, op_number-lt op) in
    rw (bit_or_fields 8 (op_number op) a n)
      (bit_or_fields 16 (op_number op + a * 2 ^ 8) bx (omega arith))

encode_sax_sum :
    (op : OpCode) (s : ℤ) → encode_sax op s ≡ op_number op + to_uint32 s % 2 ^ 24 * 2 ^ 8
unfolding encode_sax
encode_sax_sum op s =
    let n : op_number op < 2 ^ 8 = omega (arith, op_number-lt op) in
    rw (bit_and_mask 24 (to_uint32 s)) (bit_or_fields 8 (op_number op) _ n)

low_byte : (op : OpCode) (rest : ℕ) → decode_op (op_number op + rest * 2 ^ 8) ≡ some op
unfolding decode_op
low_byte op rest =
    let e : bit_and (op_number op + rest * 2 ^ 8) 0xff ≡ op_number op =
      bit_and_mask 8 _ ∙ omega (arith, op_number-lt op) in
    rw e (op_of_number-op_number op)

regroup :
    (op : OpCode) (a bx : ℕ)
    → op_number op + a * 2 ^ 8 + bx * 2 ^ 16 ≡ op_number op + (a + bx * 2 ^ 8) * 2 ^ 8
regroup op a bx = omega arith

-- Decoding an instruction of the first format gives back its opcode and both operands, whenever
-- the operands fit their 8 and 16 bits, and the word fits 32 bits.
pub decode-encode_abc :
    (op : OpCode) (a bx : ℕ)
    → a < 2 ^ 8
    → bx < 2 ^ 16
    → (decode_op (encode_abc op a bx) ≡ some op)
      × (decode_a (encode_abc op a bx) ≡ a)
      × (decode_bx (encode_abc op a bx) ≡ bx)
      × (encode_abc op a bx < 2 ^ 32)
unfolding decode_a decode_bx
decode-encode_abc op a bx ha hb =
    let e = encode_abc_sum op a bx ha in
    let n = op_number-lt op in
    (
      rw (e, regroup op a bx) (low_byte op (a + bx * 2 ^ 8)),
      bit_and_mask 8 _ ∙ rw e (omega arith),
      rw e (omega arith),
      rw e (omega arith),
    )

sign_bit : (w : ℕ) → w < 2 ^ 24 → bit_and w 0x80_0000 ≡ w / 2 ^ 23 * 2 ^ 23
sign_bit w h = bit_and_bit 23 w ∙ omega arith

sign_fill : (w : ℕ) → w < 2 ^ 24 → bit_or w 0xff00_0000 ≡ w + 0xff00_0000
sign_fill w h = bit_or_fields 24 w 255 h

extend :
    (z : ℤ)
    → negsuc 8388607 ≤ℤ z
    → z ≤ℤ pos 8388607
    → (if not (to_uint32 z % 2 ^ 24 / 2 ^ 23 * 2 ^ 23 == 0)
        then to_int32 (to_uint32 z % 2 ^ 24 + 0xff00_0000)
        else to_int32 (to_uint32 z % 2 ^ 24))
      ≡ z
unfolding to_int32 to_uint32
extend (pos m) l h = ground arith
extend (negsuc m) l h = ground arith

-- Decoding a jump gives back its opcode and its signed 24-bit offset, over the whole range that the
-- builder accepts, and the word fits 32 bits.
pub decode-encode_sax :
    (op : OpCode) (s : ℤ)
    → negsuc 8388607 ≤ℤ s
    → s ≤ℤ pos 8388607
    → (decode_op (encode_sax op s) ≡ some op)
      × (decode_sax (encode_sax op s) ≡ s)
      × (encode_sax op s < 2 ^ 32)
unfolding decode_sax
decode-encode_sax op s lo hi =
    let e = encode_sax_sum op s in
    let n = op_number-lt op in
    let w = to_uint32 s % 2 ^ 24 in
    let raw : encode_sax op s / 2 ^ 8 ≡ w = rw e (omega arith) in
    (
      rw e (low_byte op _),
      rw (raw, sign_bit w (omega arith), sign_fill w (omega arith)) (extend s lo hi),
      rw e (omega arith),
    )

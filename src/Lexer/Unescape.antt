-- ===== src/Lexer/Unescape.antt =====
-- src/lexer/ms_lexer.c: the bytes that the body of a literal stands for.
use mslang_cc.Base.{
  Bool, true, false, not, ◌&&◌, ◌||◌, Option, none, some, List, [], ◌∷◌, ℕ, zero, suc, ◌+◌, ◌/◌,
  bit_and, bit_or, ltb, ◌==◌, if◌then◌else◌, length, drop,
}
use mslang_cc.Base.Loop.{Round, again, leave, loop, ◌>>=◌}
use mslang_cc.Proto.{MsResult, ok, error_oom}
use mslang_cc.Lexer.Cursor.{no_bytes, first, second}
use mslang_cc.Lexer.Strings.{
  hex_digits, is_simple_escape, is_hex_escape, escape_digits, is_no_code_point,
}

-- What one call hands back: the count that it returns, and the bytes that it writes to `out`, where
-- `out` is not NULL.
pub record Piece : Type 0 where
  pub count : ℕ
  pub written : List ℕ

abbrev pub one_byte : ℕ → Piece
one_byte b = record { count = 1; written = b ∷ [] }

-- a byte that continues a sequence, with the low six bits of `value`
abbrev pub continuation : ℕ → ℕ
continuation value = bit_or 0x80 (bit_and value 0x3F)

-- `msLexerEncodeUtf8`; nothing is a failed assertion
unfoldable pub encode_utf8 : ℕ → Option Piece
encode_utf8 value =
    if is_no_code_point value
    then none
    else if ltb value 0x80
    then some (one_byte value)
    else if ltb value 0x800
    then some (record { count = 2; written = bit_or 0xC0 (value / 64) ∷ continuation value ∷ [] })
    else if ltb value 0x10000
    then some (record {
      count = 3;
      written = bit_or 0xE0 (value / 4096) ∷ continuation (value / 64) ∷ continuation value ∷ [];
    })
    else some (record {
      count = 4;
      written =
          bit_or 0xF0 (value / 262144)
          ∷ continuation (value / 4096)
          ∷ continuation (value / 64)
          ∷ continuation value
          ∷ [];
    })

-- the byte of an escape of one letter
unfoldable pub letter_value : ℕ → ℕ
letter_value kind =
    if kind == b'n'
    then b'\n'
    else if kind == b't'
    then b'\t'
    else if kind == b'r'
    then b'\r'
    else if kind == b'0'
    then 0
    else kind

-- a value of hex digits: a raw byte behind `\x`, a code point behind `\u` and `\U`
unfoldable pub hex_piece : ℕ → ℕ → Option Piece
unfolding encode_utf8
hex_piece kind value = if kind == b'x' then some (one_byte value) else encode_utf8 value

-- `msLexerDecodeEscape`: what is left behind the escape, and its piece
unfoldable pub decode_escape : List ℕ → Option (List ℕ × Piece)
unfolding letter_value hex_piece hex_digits
decode_escape raw =
    let kind = second raw in
    if not (ltb 1 (length raw) && first raw == b'\\')
    then none
    else if is_simple_escape kind
    then some (drop 2 raw, one_byte (letter_value kind))
    else if is_hex_escape kind
    then (do
      let digits = escape_digits kind
      value ← hex_digits digits 0 (drop 2 raw)
      piece ← hex_piece kind value
      some (drop digits (drop 2 raw), piece))
    else none

abbrev pub is_brace : ℕ → Bool
is_brace c = c == b'{' || c == b'}'

-- What either loop of `msLexerUnescapeImpl` finds at `raw[pos]`.
unfoldable pub next_piece : Bool → List ℕ → Option (List ℕ × Piece)
unfolding decode_escape
next_piece brace_escapes raw =
    let c = first raw in
    if c == b'\\'
    then decode_escape raw
    else if brace_escapes && is_brace c
    then (if ltb 1 (length raw) && second raw == c then some (drop 2 raw, one_byte c) else none)
    else some (drop 1 raw, one_byte c)

-- The variables of the first loop: the bytes from `pos` on, and `decodedLen`.
pub record Sizing : Type 0 where
  pub rest : List ℕ
  pub size : ℕ

-- The body of the first loop; it is left with nothing by a failed assertion.
unfoldable pub size_round : Bool → Sizing → Round Sizing (Option ℕ)
unfolding next_piece
size_round brace_escapes s =
    if no_bytes s.rest then leave (some s.size) else elim (next_piece brace_escapes s.rest) [
      | none ↦ leave none
      | some (rest, piece) ↦ again (record { rest = rest; size = s.size + piece.count })
    ]

unfoldable pub decoded_size : Bool → List ℕ → Option ℕ
unfolding loop size_round
decoded_size brace_escapes raw =
    loop (suc (length raw)) (size_round brace_escapes) (record { rest = raw; size = 0 }) >>= λ size.
    size

-- Writes to `buffer + pos`; nothing is a write outside the buffer.
unfoldable pub write_at : ℕ → List ℕ → List ℕ → Option (List ℕ)
write_at zero [] buffer = some buffer
write_at zero (b ∷ bs) [] = none
write_at zero (b ∷ bs) (_ ∷ buffer) = write_at zero bs buffer >>= λ after. some (b ∷ after)
write_at (suc pos) bs [] = none
write_at (suc pos) bs (c ∷ buffer) = write_at pos bs buffer >>= λ after. some (c ∷ after)

-- The variables of the second loop: the bytes from `pos` on, `outPos`, and the buffer.
pub record Writing : Type 0 where
  pub rest : List ℕ
  pub out_pos : ℕ
  pub buffer : List ℕ

-- The body of the second loop.
unfoldable pub write_round : Bool → Writing → Round Writing (Option Writing)
unfolding next_piece write_at
write_round brace_escapes w =
    if no_bytes w.rest then leave (some w) else elim (next_piece brace_escapes w.rest) [
      | none ↦ leave none
      | some (rest, piece) ↦ elim (write_at w.out_pos piece.written w.buffer) [
        | none ↦ leave none
        | some buffer ↦
            again (record { rest = rest; out_pos = w.out_pos + piece.count; buffer = buffer })
      ]
    ]

-- What is handed back: the result, the buffer and its length.
pub record Unescaped : Type 0 where
  pub result : MsResult
  pub out : List ℕ
  pub out_len : ℕ

-- the second pass, and the assertion behind it
unfoldable pub write_decoded : Bool → List ℕ → ℕ → List ℕ → Option Unescaped
unfolding loop write_round
write_decoded brace_escapes raw size buffer = do
  end ←
      loop (suc (length raw)) (write_round brace_escapes)
        (record { rest = raw; out_pos = 0; buffer = buffer })
  w ← end
  if w.out_pos == size then some (record { result = ok; out = w.buffer; out_len = size }) else none

-- The size to ask for: no block of size 0.
unfoldable pub block_size : ℕ → ℕ
block_size size = if ltb 0 size then size else 1

-- `msLexerUnescapeImpl`, with `msAlloc` as an argument: a block of that size with any bytes, or none
unfoldable pub unescape_impl : (ℕ → Option (List ℕ)) → Bool → List ℕ → Option Unescaped
unfolding decoded_size write_decoded
unescape_impl alloc brace_escapes raw = do
  size ← decoded_size brace_escapes raw
  elim (alloc (block_size size)) [
    | none ↦ some (record { result = error_oom; out = []; out_len = 0 })
    | some buffer ↦ write_decoded brace_escapes raw size buffer
  ]

-- `msLexerUnescape`
unfoldable pub unescape : (ℕ → Option (List ℕ)) → List ℕ → Option Unescaped
unfolding unescape_impl
unescape alloc raw = unescape_impl alloc false raw

-- `msLexerUnescapeFstringText`
unfoldable pub unescape_fstring_text : (ℕ → Option (List ℕ)) → List ℕ → Option Unescaped
unfolding unescape_impl
unescape_fstring_text alloc raw = unescape_impl alloc true raw

-- ===== src/Lexer/Meaning.antt =====
-- What the body of a literal stands for: a description apart from the code of src/lexer/ms_lexer.c.
use mslang_cc.Base.{
  Bool, true, List, [], ◌∷◌, ◌++◌, ℕ, ◌+◌, ◌*◌, ◌/◌, ◌%◌, ◌≤◌, ◌<◌, ◌≡◌, ◌≢◌, ◌⊎◌, length,
}
use mathlib.Core.List.{append_assoc}

-- The escapes of one letter, and their bytes.
pub data LetterByte : ℕ → ℕ → Type 0 where
  newline : LetterByte b'n' 10
  tab : LetterByte b't' 9
  carriage_return : LetterByte b'r' 13
  reverse_slash : LetterByte b'\\' 92
  double_quote : LetterByte b'"' 34
  single_quote : LetterByte b'\'' 39
  nul : LetterByte b'0' 0

-- A hex digit and its value.
pub data HexDigit : ℕ → ℕ → Type 0 where
  decimal : (d : ℕ) → d < 10 → HexDigit (b'0' + d) d
  lower : (d : ℕ) → d < 6 → HexDigit (b'a' + d) (10 + d)
  upper : (d : ℕ) → d < 6 → HexDigit (b'A' + d) (10 + d)

-- The value of hex digits behind others, whose value is given.
pub data HexFrom : ℕ → List ℕ → ℕ → Type 0 where
  all_read : (v : ℕ) → HexFrom v [] v
  digit :
      {c d before v : ℕ} {cs : List ℕ}
      → HexDigit c d
      → HexFrom (before * 16 + d) cs v
      → HexFrom before (c ∷ cs) v

-- The UTF-8 of a code point, which is no surrogate.
pub data Utf8 (v : ℕ) : List ℕ → Type 0 where
  single_byte : v < 0x80 → Utf8 v (v ∷ [])
  two_bytes : 0x80 ≤ v → v < 0x800 → Utf8 v ((0xC0 + v / 64) ∷ (0x80 + v % 64) ∷ [])
  three_bytes :
      0x800 ≤ v
      → v < 0x10000
      → (v < 0xD800) ⊎ (0xDFFF < v)
      → Utf8 v ((0xE0 + v / 4096) ∷ (0x80 + v / 64 % 64) ∷ (0x80 + v % 64) ∷ [])
  four_bytes :
      0x10000 ≤ v
      → v ≤ 0x10FFFF
      → Utf8 v (
          (0xF0 + v / 262144)
          ∷ (0x80 + v / 4096 % 64)
          ∷ (0x80 + v / 64 % 64)
          ∷ (0x80 + v % 64)
          ∷ [])

-- The escapes with hex digits: a raw byte, or a code point in UTF-8.
pub data HexEscape : ℕ → List ℕ → List ℕ → Type 0 where
  raw_byte :
      {v : ℕ} {digits : List ℕ}
      → length digits ≡ 2
      → HexFrom 0 digits v
      → HexEscape b'x' digits (v ∷ [])
  short_point :
      {v : ℕ} {digits bytes : List ℕ}
      → length digits ≡ 4
      → HexFrom 0 digits v
      → Utf8 v bytes
      → HexEscape b'u' digits bytes
  long_point :
      {v : ℕ} {digits bytes : List ℕ}
      → length digits ≡ 8
      → HexFrom 0 digits v
      → Utf8 v bytes
      → HexEscape b'U' digits bytes

abbrev pub IsBrace : ℕ → Type 0
IsBrace c = (c ≡ b'{') ⊎ (c ≡ b'}')

-- A body of a literal, and the bytes it stands for. With `braces`, those of an f-string are doubled.
pub data Decodes (braces : Bool) : List ℕ → List ℕ → Type 0 where
  done : Decodes braces [] []
  plain :
      (c : ℕ) {raw out : List ℕ}
      → c ≢ b'\\'
      → (braces ≡ true → IsBrace c → ⊥)
      → Decodes braces raw out
      → Decodes braces (c ∷ raw) (c ∷ out)
  brace :
      (c : ℕ) {raw out : List ℕ}
      → braces ≡ true
      → IsBrace c
      → Decodes braces raw out
      → Decodes braces (c ∷ c ∷ raw) (c ∷ out)
  letter :
      (kind byte : ℕ) {raw out : List ℕ}
      → LetterByte kind byte
      → Decodes braces raw out
      → Decodes braces (b'\\' ∷ kind ∷ raw) (byte ∷ out)
  hex :
      (kind : ℕ) (digits bytes : List ℕ) {raw out : List ℕ}
      → HexEscape kind digits bytes
      → Decodes braces raw out
      → Decodes braces (b'\\' ∷ kind ∷ digits ++ raw) (bytes ++ out)

module _ {braces : Bool} where
  -- One body after another.
  pub Decodes-append :
      {raw out raw' out' : List ℕ}
      → Decodes braces raw out
      → Decodes braces raw' out'
      → Decodes braces (raw ++ raw') (out ++ out')
  Decodes-append done d = d
  Decodes-append (plain c e h d) d' = plain c e h (Decodes-append d d')
  Decodes-append (brace c e h d) d' = brace c e h (Decodes-append d d')
  Decodes-append (letter kind byte l d) d' = letter kind byte l (Decodes-append d d')
  Decodes-append (hex kind digits bytes h d) d' =
      rw (append_assoc, append_assoc) (hex kind digits bytes h (Decodes-append d d'))

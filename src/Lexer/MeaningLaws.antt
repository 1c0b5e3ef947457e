-- ===== src/Lexer/MeaningLaws.antt =====
-- src/lexer/ms_lexer.c: hex digits, escape letters and UTF-8, as the code computes them and as
-- Lexer.Meaning describes them.
use mslang_cc.Base.{
  true, false, some, List, [], ◌∷◌, ◌++◌, ℕ, zero, suc, ◌+◌, ◌-◌, ◌*◌, ◌/◌, ◌≡◌, refl, ap, inl, inr,
  arith, ltb, ◌==◌, ==_iff, Bool-cases, none≢some, length, drop,
}
use mathlib.Core.Path.{subst}
use mslang_cc.Lexer.Cursor.{in_range, is_hex_digit, hex_value}
use mslang_cc.Lexer.Strings.{hex_digits, is_simple_escape, is_no_code_point}
use mslang_cc.Lexer.Unescape.{Piece, encode_utf8, letter_value}
use mslang_cc.Lexer.Utf8.{continuation-sum, lead2-sum, lead3-sum, lead4-sum}
use mslang_cc.Lexer.Meaning.{
  LetterByte, newline, tab, carriage_return, reverse_slash, double_quote, single_quote, nul,
  HexDigit, decimal, lower, upper, HexFrom, all_read, digit, Utf8, single_byte, two_bytes,
  three_bytes, four_bytes,
}

-- A piece whose count is right.
abbrev pub piece_of : List ℕ → Piece
piece_of bytes = record { count = length bytes; written = bytes }

pub LetterByte-letter :
    {kind byte : ℕ}
    → LetterByte kind byte
    → (is_simple_escape kind ≡ true) × (letter_value kind ≡ byte)
unfolding letter_value
LetterByte-letter newline = (refl, refl)
LetterByte-letter tab = (refl, refl)
LetterByte-letter carriage_return = (refl, refl)
LetterByte-letter reverse_slash = (refl, refl)
LetterByte-letter double_quote = (refl, refl)
LetterByte-letter single_quote = (refl, refl)
LetterByte-letter nul = (refl, refl)

letter_at :
    (kind a byte : ℕ) → LetterByte a byte → (kind == a) ≡ true → (byte : ℕ) × LetterByte kind byte
letter_at kind a byte l e = let same : kind ≡ a = (==_iff kind a).0 e in rw same (byte, l)

pub letter-LetterByte :
    (kind : ℕ) → is_simple_escape kind ≡ true → (byte : ℕ) × LetterByte kind byte
letter-LetterByte kind e = elim (Bool-cases (kind == b'n')) [
  | inl h ↦ letter_at kind b'n' 10 newline h
  | inr no0 ↦ elim (Bool-cases (kind == b't')) [
    | inl h ↦ letter_at kind b't' 9 tab h
    | inr no1 ↦ elim (Bool-cases (kind == b'r')) [
      | inl h ↦ letter_at kind b'r' 13 carriage_return h
      | inr no2 ↦ elim (Bool-cases (kind == b'\\')) [
        | inl h ↦ letter_at kind b'\\' 92 reverse_slash h
        | inr no3 ↦ elim (Bool-cases (kind == b'"')) [
          | inl h ↦ letter_at kind b'"' 34 double_quote h
          | inr no4 ↦ elim (Bool-cases (kind == b'\'')) [
            | inl h ↦ letter_at kind b'\'' 39 single_quote h
            | inr no5 ↦ letter_at kind b'0' 0 nul (ground arith)
          ]
        ]
      ]
    ]
  ]
]

HexDigit-value : {c d : ℕ} → HexDigit c d → (is_hex_digit c ≡ true) × (hex_value c ≡ d)
unfolding is_hex_digit hex_value
HexDigit-value (decimal d h) = (ground arith, ground arith)
HexDigit-value (lower d h) = (ground arith, ground arith)
HexDigit-value (upper d h) = (ground arith, ground arith)

HexDigit-at : {x c d e : ℕ} → x ≡ c → d ≡ e → HexDigit x d → HexDigit c e
HexDigit-at {x} {e = e} p q h = subst (λ k. HexDigit k e) p (subst (HexDigit x) q h)

value-HexDigit : (c : ℕ) → is_hex_digit c ≡ true → HexDigit c (hex_value c)
unfolding is_hex_digit hex_value
value-HexDigit c e = elim (Bool-cases (in_range b'0' b'9' c)) [
  | inl h ↦ HexDigit-at (ground arith) (ground arith) (decimal (c - b'0') (ground arith))
  | inr out ↦ elim (Bool-cases (in_range b'a' b'f' c)) [
    | inl h ↦ HexDigit-at (ground arith) (ground arith) (lower (c - b'a') (ground arith))
    | inr out' ↦ HexDigit-at (ground arith) (ground arith) (upper (c - b'A') (ground arith))
  ]
]

-- The loop over the digits computes their value.
pub HexFrom-hex_digits :
    {before v : ℕ} {cs : List ℕ} → HexFrom before cs v → hex_digits (length cs) before cs ≡ some v
unfolding hex_digits
HexFrom-hex_digits (all_read v) = refl
HexFrom-hex_digits (digit {c} {d} {before} {v} {cs} h f) =
    let (good, value) = HexDigit-value h in rw (good, value) (HexFrom-hex_digits f)

-- The hex digits that were read.
pub record Read (n before : ℕ) (input : List ℕ) (v : ℕ) : Type 0 where
  pub digits : List ℕ
  pub split : input ≡ digits ++ drop n input
  pub counted : length digits ≡ n
  pub reads : HexFrom before digits v

pub hex_digits-Read :
    (n before : ℕ) (input : List ℕ) {v : ℕ}
    → hex_digits n before input ≡ some v
    → Read n before input v
unfolding hex_digits
hex_digits-Read zero before input {v} e =
    let same : before ≡ v = cc in
    record { digits = []; split = refl; counted = refl; reads = rw same (all_read v) }
hex_digits-Read (suc n) before [] e = absurd (none≢some e)
hex_digits-Read (suc n) before (h ∷ r) e = elim (Bool-cases (is_hex_digit h)) [
  | inr other ↦ absurd (none≢some (rw other at e))
  | inl good ↦
      let read = hex_digits-Read n (before * 16 + hex_value h) r (rw good at e) in
      record {
        digits = h ∷ read.digits;
        split = ap (λ (l : List ℕ). h ∷ l) read.split;
        counted = ap suc read.counted;
        reads = digit (value-HexDigit h good) read.reads;
      }
]

-- `msLexerEncodeUtf8` writes the UTF-8 of a code point, and counts its bytes.
pub Utf8-encode_utf8 :
    {v : ℕ} {bytes : List ℕ} → Utf8 v bytes → encode_utf8 v ≡ some (piece_of bytes)
unfolding encode_utf8
Utf8-encode_utf8 {v} (single_byte h) =
    let good : is_no_code_point v ≡ false = ground arith in
    let one : ltb v 0x80 ≡ true = ground arith in rw (good, one) refl
Utf8-encode_utf8 {v} (two_bytes h k) =
    let good : is_no_code_point v ≡ false = ground arith in
    let one : ltb v 0x80 ≡ false = ground arith in
    let two : ltb v 0x800 ≡ true = ground arith in
    rw (good, one, two, lead2-sum v k, continuation-sum v) refl
Utf8-encode_utf8 {v} (three_bytes h k s) =
    let good : is_no_code_point v ≡ false = ground arith in
    let one : ltb v 0x80 ≡ false = ground arith in
    let two : ltb v 0x800 ≡ false = ground arith in
    let three : ltb v 0x10000 ≡ true = ground arith in
    rw (good, one, two, three, lead3-sum v k, continuation-sum v, continuation-sum (v / 64)) refl
Utf8-encode_utf8 {v} (four_bytes h k) =
    let good : is_no_code_point v ≡ false = ground arith in
    let one : ltb v 0x80 ≡ false = ground arith in
    let two : ltb v 0x800 ≡ false = ground arith in
    let three : ltb v 0x10000 ≡ false = ground arith in
    rw
      (
        good,
        one,
        two,
        three,
        lead4-sum v (omega arith),
        continuation-sum v,
        continuation-sum (v / 64),
        continuation-sum (v / 4096),
      )
      refl

-- Every code point has one.
pub code_point-Utf8 : (v : ℕ) → is_no_code_point v ≡ false → (bytes : List ℕ) × Utf8 v bytes
code_point-Utf8 v good = elim (Bool-cases (ltb v 0x80)) [
  | inl a ↦ (_, single_byte (ground arith))
  | inr a ↦ elim (Bool-cases (ltb v 0x800)) [
    | inl b ↦ (_, two_bytes (ground arith) (ground arith))
    | inr b ↦ elim (Bool-cases (ltb v 0x10000)) [
      | inl c ↦ (
        _,
        three_bytes (ground arith) (ground arith) (elim (Bool-cases (ltb v 0xD800)) [
          | inl x ↦ inl (ground arith)
          | inr x ↦ inr (ground arith)
        ]),
      )
      | inr c ↦ (_, four_bytes (ground arith) (ground arith))
    ]
  ]
]

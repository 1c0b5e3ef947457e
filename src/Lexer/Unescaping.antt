-- ===== src/Lexer/Unescaping.antt =====
-- src/lexer/ms_lexer.c: the two passes of `msLexerUnescapeImpl` over a good body.
use mslang_cc.Base.{
  Bool, true, false, ◌&&◌, some, List, [], ◌∷◌, ◌++◌, ℕ, zero, suc, ◌+◌, ◌*◌, ◌<◌, ◌≡◌, refl, inl,
  inr, arith, ltb, ◌==◌, ==_iff, Bool-cases, length, drop, length-append,
}
use mslang_cc.Base.Loop.{Returns}
use mslang_cc.Lexer.Cursor.{no_bytes, hex_value}
use mslang_cc.Lexer.Strings.{hex_digits, is_simple_escape, is_hex_escape, escape_digits}
use mslang_cc.Lexer.Unescape.{Piece, one_byte, hex_piece, decode_escape, is_brace, next_piece}
use mslang_cc.Lexer.Meaning.{
  LetterByte, HexEscape, raw_byte, short_point, long_point, IsBrace, Decodes, done, plain, brace,
  letter, hex,
}
use mslang_cc.Lexer.MeaningLaws.{piece_of, LetterByte-letter, HexFrom-hex_digits, Utf8-encode_utf8}

drop-append : (xs ys : List ℕ) (n : ℕ) → length xs ≡ n → drop n (xs ++ ys) ≡ ys
drop-append [] ys zero h = refl
drop-append [] ys (suc n) h = absurd (omega arith)
drop-append (x ∷ xs) ys zero h = absurd (omega arith)
drop-append (x ∷ xs) ys (suc n) h = drop-append xs ys n (omega arith)

hex_digits-append :
    (n value : ℕ) (digits raw : List ℕ)
    → length digits ≡ n
    → hex_digits n value (digits ++ raw) ≡ hex_digits n value digits
unfolding hex_digits
hex_digits-append zero value digits raw h = refl
hex_digits-append (suc n) value [] raw h = absurd (omega arith)
hex_digits-append (suc n) value (d ∷ digits) raw h =
    rw (hex_digits-append n (value * 16 + hex_value d) digits raw (omega arith)) refl

hex_escape_kind : (kind : ℕ) → is_hex_escape kind ≡ true → is_simple_escape kind ≡ false
hex_escape_kind kind e = ground arith

-- The piece that a round finds in a body, and the body that is left.
pub record Found (braces : Bool) (raw out rest : List ℕ) (piece : Piece) : Type 0 where
  pub later : List ℕ
  pub counted : piece.count ≡ length piece.written
  pub split : out ≡ piece.written ++ later
  pub shorter : length rest < length raw
  pub decodes : Decodes braces rest later

abbrev pub Finds : Bool → List ℕ → List ℕ → List ℕ × Piece → Type 0
Finds braces raw out (rest, piece) = Found braces raw out rest piece

decode_escape-letter :
    {kind byte : ℕ} (raw : List ℕ)
    → LetterByte kind byte
    → decode_escape (b'\\' ∷ kind ∷ raw) ≡ some (raw, piece_of (byte ∷ []))
unfolding decode_escape
decode_escape-letter {kind} raw l =
    let two : ltb 1 (suc (suc (length raw))) ≡ true = ground arith in
    let (simple, value) = LetterByte-letter l in rw (two, simple, value) refl

-- The piece of an escape with hex digits.
record Pieced (kind : ℕ) (digits bytes : List ℕ) : Type 0 where
  value : ℕ
  is_one : is_hex_escape kind ≡ true
  counted : length digits ≡ escape_digits kind
  reads : hex_digits (length digits) 0 digits ≡ some value
  piece : hex_piece kind value ≡ some (piece_of bytes)

HexEscape-Pieced :
    {kind : ℕ} {digits bytes : List ℕ} → HexEscape kind digits bytes → Pieced kind digits bytes
unfolding hex_piece
HexEscape-Pieced (raw_byte {v} n f) = record {
  value = v;
  is_one = refl;
  counted = n;
  reads = HexFrom-hex_digits f;
  piece = refl;
}
HexEscape-Pieced (short_point {v} n f u) = record {
  value = v;
  is_one = refl;
  counted = n;
  reads = HexFrom-hex_digits f;
  piece = Utf8-encode_utf8 u;
}
HexEscape-Pieced (long_point {v} n f u) = record {
  value = v;
  is_one = refl;
  counted = n;
  reads = HexFrom-hex_digits f;
  piece = Utf8-encode_utf8 u;
}

decode_escape-hex :
    {kind : ℕ} {digits bytes : List ℕ} (raw : List ℕ)
    → HexEscape kind digits bytes
    → decode_escape (b'\\' ∷ kind ∷ digits ++ raw) ≡ some (raw, piece_of bytes)
unfolding decode_escape
decode_escape-hex {kind} {digits} raw h =
    let two : ltb 1 (suc (suc (length (digits ++ raw)))) ≡ true = ground arith in
    let p = HexEscape-Pieced h in
    rw
      (
        two,
        hex_escape_kind kind p.is_one,
        p.is_one,
        ← p.counted,
        hex_digits-append (length digits) 0 digits raw refl,
        p.reads,
        p.piece,
        drop-append digits raw (length digits) refl,
      )
      refl

-- A byte that stands for itself.
is_plain :
    (braces : Bool) (c : ℕ) → (braces ≡ true → IsBrace c → ⊥) → (braces && is_brace c) ≡ false
is_plain false c h = refl
is_plain true c h = elim (Bool-cases (c == b'{')) [
  | inl opens ↦ absurd (h refl (inl ((==_iff c b'{').0 opens)))
  | inr no_opens ↦ elim (Bool-cases (c == b'}')) [
    | inl close ↦ absurd (h refl (inr ((==_iff c b'}').0 close)))
    | inr no_close ↦ rw (no_opens, no_close) refl
  ]
]

IsBrace-is_brace : {c : ℕ} → IsBrace c → (is_brace c ≡ true) × ((c == b'\\') ≡ false)
IsBrace-is_brace (inl e) = rw e (refl, refl)
IsBrace-is_brace (inr e) = rw e (refl, refl)

pub next_piece-Found :
    {braces : Bool} {raw out : List ℕ}
    → Decodes braces raw out
    → no_bytes raw ≡ false
    → Returns (next_piece braces raw) (Finds braces raw out)
next_piece-Found done some_bytes = absurd (cc)
next_piece-Found {braces} (plain c {raw} e h d) some_bytes =
    let no_slash : (c == b'\\') ≡ false = ground (arith, e) in
    let step : next_piece braces (c ∷ raw) ≡ some (raw, one_byte c) =
      unfold next_piece in rw (no_slash, is_plain braces c h) refl in
    rw step (record { later = _; counted = refl; split = refl; shorter = omega arith; decodes = d })
next_piece-Found {braces} (brace c {raw} on b d) some_bytes =
    let step : next_piece braces (c ∷ c ∷ raw) ≡ some (raw, one_byte c) =
      unfold next_piece in
      let two : ltb 1 (suc (suc (length raw))) ≡ true = ground arith in
      let same : (c == c) ≡ true = ground arith in
      let (is_one, no_slash) = IsBrace-is_brace b in rw (no_slash, on, is_one, two, same) refl in
    rw step (record { later = _; counted = refl; split = refl; shorter = omega arith; decodes = d })
next_piece-Found {braces} (letter kind byte {raw} l d) some_bytes =
    let step : next_piece braces (b'\\' ∷ kind ∷ raw) ≡ some (raw, piece_of (byte ∷ [])) =
      unfold next_piece in decode_escape-letter raw l in
    rw step (record { later = _; counted = refl; split = refl; shorter = omega arith; decodes = d })
next_piece-Found {braces} (hex kind digits bytes {raw} h d) some_bytes =
    let step : next_piece braces (b'\\' ∷ kind ∷ digits ++ raw) ≡ some (raw, piece_of bytes) =
      unfold next_piece in decode_escape-hex raw h in
    rw step (record {
      later = _;
      counted = refl;
      split = refl;
      shorter = omega (arith, length-append digits raw);
      decodes = d;
    })

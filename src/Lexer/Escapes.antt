-- ===== src/Lexer/Escapes.antt =====
-- src/lexer/ms_lexer.c: an escape that `msLexerScanEscape` accepts is one that can be decoded.
use mslang_cc.Base.{
  true, false, not, ◌&&◌, Option, some, List, [], ◌∷◌, ◌++◌, ℕ, zero, suc, ◌+◌, ◌≡◌, refl, sym, ap,
  ◌∙◌, inl, inr, arith, ◌==◌, ==_iff, Bool-cases, none≢some, length, drop,
}
use mathlib.Core.List.{append-nil}
use mslang_cc.Base.Loop.{if_rule, option_rule}
use mslang_cc.Lexer.Cursor.{Cursor, first, second, advance, advance_by}
use mslang_cc.Lexer.Strings.{
  hex_digits, is_simple_escape, is_hex_escape, escape_digits, is_no_code_point, escape_length,
}
use mslang_cc.Lexer.Meaning.{
  HexFrom, HexEscape, raw_byte, short_point, long_point, Decodes, done, letter, hex,
}
use mslang_cc.Lexer.MeaningLaws.{letter-LetterByte, hex_digits-Read, code_point-Utf8}

drop-nil : (n : ℕ) → drop {A = ℕ} n [] ≡ []
drop-nil zero = refl
drop-nil (suc n) = refl

drop-drop_one : (n : ℕ) (input : List ℕ) → drop n (drop 1 input) ≡ drop (suc n) input
drop-drop_one n [] = drop-nil n
drop-drop_one n (b ∷ input) = refl

pub advance_by-rest : (n : ℕ) (c : Cursor) → (advance_by n c).rest ≡ drop n c.rest
unfolding advance_by advance
advance_by-rest zero c = refl
advance_by-rest (suc n) c = advance_by-rest n (advance c) ∙ drop-drop_one n c.rest

-- A part of the input that can be decoded, up to what is left after `n` bytes.
pub record Decodable (n : ℕ) (input : List ℕ) : Type 0 where
  pub body : List ℕ
  pub out : List ℕ
  pub split : input ≡ body ++ drop n input
  pub decodes : Decodes false body out

letter-Decodable :
    (input : List ℕ)
    → first input ≡ b'\\'
    → is_simple_escape (second input) ≡ true
    → Decodable 2 input
letter-Decodable [] e h = absurd (omega arith)
letter-Decodable (a ∷ []) e h = cc
letter-Decodable (a ∷ kind ∷ r) e h =
    let (byte, l) = letter-LetterByte kind h in
    rw e (record {
      body = b'\\' ∷ kind ∷ [];
      out = byte ∷ [];
      split = refl;
      decodes = letter kind byte l done;
    })

-- Digits that the scan accepts make an escape.
digits-HexEscape :
    (kind v : ℕ) (digits : List ℕ)
    → is_hex_escape kind ≡ true
    → length digits ≡ escape_digits kind
    → HexFrom 0 digits v
    → (not (kind == b'x') && is_no_code_point v) ≡ false
    → (bytes : List ℕ) × HexEscape kind digits bytes
digits-HexEscape kind v digits h n f g = elim (Bool-cases (kind == b'x')) [
  | inl x ↦
      let same : kind ≡ b'x' = (==_iff kind b'x').0 x in
      let two : length digits ≡ 2 = rw x at n in rw same (v ∷ [], raw_byte two f)
  | inr no_x ↦
      let (bytes, u) = code_point-Utf8 v (rw no_x at g) in
      elim (Bool-cases (kind == b'u')) [
        | inl x ↦
            let same : kind ≡ b'u' = (==_iff kind b'u').0 x in
            let four : length digits ≡ 4 = rw (no_x, x) at n in
            rw same (bytes, short_point four f u)
        | inr no_u ↦
            let same : kind ≡ b'U' = ground arith in
            let eight : length digits ≡ 8 = rw (no_x, no_u) at n in
            rw same (bytes, long_point eight f u)
      ]
]

hex-Decodable :
    (input : List ℕ) {v : ℕ}
    → first input ≡ b'\\'
    → is_hex_escape (second input) ≡ true
    → hex_digits (escape_digits (second input)) 0 (drop 2 input) ≡ some v
    → (not (second input == b'x') && is_no_code_point v) ≡ false
    → Decodable (2 + escape_digits (second input)) input
hex-Decodable [] e h d g = absurd (omega arith)
hex-Decodable (a ∷ []) e h d g = cc
hex-Decodable (a ∷ kind ∷ r) {v} e h d g =
    let read = hex_digits-Read (escape_digits kind) 0 r d in
    let (bytes, escape) = digits-HexEscape kind v read.digits h read.counted read.reads g in
    let n : 2 + escape_digits kind ≡ suc (suc (escape_digits kind)) = omega arith in
    rw (e, n)
      (record {
        body = b'\\' ∷ kind ∷ read.digits ++ [];
        out = bytes ++ [];
        split =
            ap (λ (l : List ℕ). b'\\' ∷ kind ∷ l)
              (read.split
                ∙ ap (λ (l : List ℕ). l ++ drop (escape_digits kind) r)
                    (sym (append-nil read.digits)));
        decodes = hex kind read.digits bytes escape done;
      })

pub escape_length-Decodable :
    (input : List ℕ) {n : ℕ}
    → first input ≡ b'\\'
    → escape_length input ≡ some n
    → Decodable n input
unfolding escape_length
escape_length-Decodable input {n} e =
    let kind = second input in
    let P : Option ℕ → Type 0 = λ r. r ≡ some n → Decodable n input in
    if_rule P (is_simple_escape kind)
      (λ s k. let same : 2 ≡ n = cc in rw (← same) (letter-Decodable input e s))
      λ _.
        if_rule P (is_hex_escape kind)
          (λ x.
            option_rule P (hex_digits (escape_digits kind) 0 (drop 2 input))
              (λ _ k. absurd (none≢some k))
              (λ v digits.
                if_rule P (not (kind == b'x') && is_no_code_point v) (λ _ k. absurd (none≢some k))
                  (λ good k.
                    let same : 2 + escape_digits kind ≡ n = cc in
                    rw (← same) (hex-Decodable input e x digits good))))
          (λ _ k. absurd (none≢some k))

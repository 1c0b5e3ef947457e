-- ===== src/Lexer/Utf8.antt =====
-- src/lexer/ms_lexer.c: the UTF-8 that `msLexerEncodeUtf8` writes.
use mslang_cc.Base.{
  ltb, some, Option, none≢some, Bool-cases, inl, inr, false, List, [], ◌∷◌, ◌++◌, ℕ, ◌+◌, ◌-◌, ◌*◌,
  ◌/◌, ◌%◌, ◌≤◌, ◌<◌, bit_and, bit_or, ◌≡◌, refl, arith, length,
}
use mslang_cc.Base.Bits.{bit_or_comm, bit_or_fields, bit_and_mask}
use mslang_cc.Base.Loop.{Returns, Returns-some, if_rule}
use mslang_cc.Lexer.Cursor.{lead_length, are_continuations, utf8_length}
use mslang_cc.Lexer.Strings.{is_no_code_point}
use mslang_cc.Lexer.Unescape.{one_byte, encode_utf8, Piece, continuation}

pub continuation-sum : (v : ℕ) → continuation v ≡ 0x80 + v % 64
continuation-sum v =
    let masked : bit_and v 0x3F ≡ v % 64 = bit_and_mask 6 v in
    omega (
      arith,
      masked,
      bit_or_comm 0x80 (bit_and v 0x3F),
      bit_or_fields 6 (bit_and v 0x3F) 2 (omega (arith, masked)),
    )

pub lead2-sum : (v : ℕ) → v < 0x800 → bit_or 0xC0 (v / 64) ≡ 0xC0 + v / 64
lead2-sum v h = omega (arith, bit_or_comm 0xC0 (v / 64), bit_or_fields 6 (v / 64) 3 (omega arith))

pub lead3-sum : (v : ℕ) → v < 0x10000 → bit_or 0xE0 (v / 4096) ≡ 0xE0 + v / 4096
lead3-sum v h =
    omega (arith, bit_or_comm 0xE0 (v / 4096), bit_or_fields 5 (v / 4096) 7 (omega arith))

pub lead4-sum : (v : ℕ) → v < 0x200000 → bit_or 0xF0 (v / 262144) ≡ 0xF0 + v / 262144
lead4-sum v h =
    omega (arith, bit_or_comm 0xF0 (v / 262144), bit_or_fields 4 (v / 262144) 15 (omega arith))

-- The number that a sequence of up to four bytes stands for in UTF-8.
pub code_point : List ℕ → ℕ
code_point (a ∷ []) = a
code_point (a ∷ b ∷ []) = (a - 0xC0) * 64 + (b - 0x80)
code_point (a ∷ b ∷ c ∷ []) = (a - 0xE0) * 4096 + (b - 0x80) * 64 + (c - 0x80)
code_point (a ∷ b ∷ c ∷ d ∷ []) =
    (a - 0xF0) * 262144 + (b - 0x80) * 4096 + (c - 0x80) * 64 + (d - 0x80)
code_point _ = 0

-- The count is that of the bytes, they stand for the value, and the lexer accepts them.
pub record IsUtf8 (v : ℕ) (p : Piece) : Type 0 where
  counted : p.count ≡ length p.written
  meaning : code_point p.written ≡ v
  accepted : 0x80 ≤ v → (rest : List ℕ) → utf8_length (p.written ++ rest) ≡ p.count

two_bytes-IsUtf8 :
    (v : ℕ)
    → 0x80 ≤ v
    → v < 0x800
    → IsUtf8 v (record { count = 2; written = bit_or 0xC0 (v / 64) ∷ continuation v ∷ [] })
unfolding code_point utf8_length lead_length are_continuations
two_bytes-IsUtf8 v h k =
    rw (lead2-sum v k, continuation-sum v)
      (record { counted = refl; meaning = omega arith; accepted = λ _ rest. ground arith })

three_bytes-IsUtf8 :
    (v : ℕ)
    → 0x800 ≤ v
    → v < 0x10000
    → IsUtf8 v (record {
      count = 3;
      written = bit_or 0xE0 (v / 4096) ∷ continuation (v / 64) ∷ continuation v ∷ [];
    })
unfolding code_point utf8_length lead_length are_continuations
three_bytes-IsUtf8 v h k =
    rw (lead3-sum v k, continuation-sum v, continuation-sum (v / 64))
      (record { counted = refl; meaning = omega arith; accepted = λ _ rest. ground arith })

four_bytes-IsUtf8 :
    (v : ℕ)
    → 0x10000 ≤ v
    → v ≤ 0x10FFFF
    → IsUtf8 v (record {
      count = 4;
      written =
          bit_or 0xF0 (v / 262144)
          ∷ continuation (v / 4096)
          ∷ continuation (v / 64)
          ∷ continuation v
          ∷ [];
    })
unfolding code_point utf8_length lead_length are_continuations
four_bytes-IsUtf8 v h k =
    rw
      (
        lead4-sum v (omega arith),
        continuation-sum v,
        continuation-sum (v / 64),
        continuation-sum (v / 4096),
      )
      (record { counted = refl; meaning = omega arith; accepted = λ _ rest. ground arith })

one_byte-IsUtf8 : (v : ℕ) → v < 0x80 → IsUtf8 v (one_byte v)
unfolding code_point
one_byte-IsUtf8 v h = record {
  counted = refl;
  meaning = refl;
  accepted = λ k rest. absurd (omega arith);
}

-- Every code point that is no surrogate, up to U+10FFFF, is encoded: the count that
-- `msLexerEncodeUtf8` returns is that of the bytes it writes, the bytes decode to the code point, and
-- outside ASCII the check of UTF-8 in the lexer accepts them, whatever follows, with that length.
pub encode_utf8-IsUtf8 : (v : ℕ) → is_no_code_point v ≡ false → Returns (encode_utf8 v) (IsUtf8 v)
unfolding encode_utf8
encode_utf8-IsUtf8 v good =
    let P : Option Piece → Type 0 = λ r. Returns r (IsUtf8 v) in
    if_rule P (is_no_code_point v) (λ bad. absurd (cc))
      λ _.
        if_rule P (ltb v 0x80) (λ e. one_byte-IsUtf8 v (ground arith))
          λ a.
            if_rule P (ltb v 0x800) (λ e. two_bytes-IsUtf8 v (ground arith) (ground arith))
              λ b.
                if_rule P (ltb v 0x10000) (λ e. three_bytes-IsUtf8 v (ground arith) (ground arith))
                  (λ c. four_bytes-IsUtf8 v (ground arith) (ground arith))

-- The count of a call that succeeds.
pub encode_utf8-counted : (v : ℕ) {p : Piece} → encode_utf8 v ≡ some p → p.count ≡ length p.written
unfolding encode_utf8
encode_utf8-counted v {p} e = elim (Bool-cases (is_no_code_point v)) [
  | inl bad ↦ absurd (none≢some (rw bad at e))
  | inr good ↦ (Returns-some (IsUtf8 v) e (encode_utf8-IsUtf8 v good)).counted
]

-- ===== src/Examples/Decoding.antt =====
-- Runs of the decoder of literals.
use mslang_cc.Base.{
  arith, inl, true, false, Option, some, List, [], ◌∷◌, ◌++◌, ℕ, max, ◌≡◌, refl, replicate,
  length-replicate,
}
use mslang_cc.Base.Loop.{Returns}
use mslang_cc.Base.Text.{codes}
use mslang_cc.Proto.{ok}
use mslang_cc.Lexer.State.{Lexer}
use mslang_cc.Lexer.Strings.{scan_string}
use mslang_cc.Lexer.Scan.{init_lexer}
use mslang_cc.Lexer.Unescape.{encode_utf8, block_size, unescape_impl, unescape}
use mslang_cc.Lexer.Utf8.{IsUtf8, encode_utf8-IsUtf8}
use mslang_cc.Lexer.Meaning.{all_read, digit, decimal, raw_byte, Decodes, done, brace, hex}
use mslang_cc.Lexer.WritePass.{Unescapes, GivesRoom, unescape_impl-Unescapes}
use mslang_cc.Lexer.Literals.{Literal, scan_string-unescape}

-- An allocator that never fails, with zeros in its blocks.
abbrev zeros : ℕ → Option (List ℕ)
zeros n = some (replicate n 0)

zeros-GivesRoom : GivesRoom zeros
zeros-GivesRoom n block e =
    let same : replicate n 0 ≡ block = cc in rw (← same) (length-replicate n 0)

-- `a\n\u00e9`
abbrev accented : List ℕ
accented = b'a' ∷ b'\\' ∷ b'n' ∷ b'\\' ∷ b'u' ∷ b'0' ∷ b'0' ∷ b'e' ∷ b'9' ∷ []

accented_bytes :
    unescape zeros accented
    ≡ some (record { result = ok; out = 97 ∷ 10 ∷ 195 ∷ 169 ∷ []; out_len = 4 })
unfolding unescape block_size
accented_bytes = refl

-- `{{\x41`
abbrev braced : List ℕ
braced = b'{' ∷ b'{' ∷ b'\\' ∷ b'x' ∷ b'4' ∷ b'1' ∷ []

braced-Decodes : Decodes true braced (b'{' ∷ b'A' ∷ [])
braced-Decodes = brace b'{' refl (inl refl) (
    hex b'x' (b'4' ∷ b'1' ∷ []) (65 ∷ [])
      (raw_byte refl
        (digit (decimal 4 (omega arith)) (digit (decimal 1 (omega arith)) (all_read 65))))
      done)

unescape_impl-Unescapes_example :
    Returns (unescape_impl zeros true braced) (Unescapes (b'{' ∷ b'A' ∷ []) (zeros (max 1 2)))
unescape_impl-Unescapes_example =
    unescape_impl-Unescapes zeros zeros-GivesRoom true braced (b'{' ∷ b'A' ∷ []) braced-Decodes

encode_utf8-IsUtf8_example : Returns (encode_utf8 0x20AC) (IsUtf8 0x20AC)
encode_utf8-IsUtf8_example = encode_utf8-IsUtf8 0x20AC refl

abbrev quoted : Lexer
quoted =
    init_lexer (b'"' ∷ accented ++ b'"' ∷ []) (codes "main")
      (record { chunk_name = codes "main"; items = [] })

scan_string-unescape_example : Returns (scan_string false quoted) (Literal zeros false quoted)
unfolding init_lexer
scan_string-unescape_example = scan_string-unescape zeros zeros-GivesRoom false quoted (refl, tt)

-- ===== src/Lexer/Cursor.antt =====
-- src/lexer/ms_lexer.c: the cursor over the source bytes, and the classes of bytes.
use mslang_cc.Base.{
  Bool, true, false, not, ◌&&◌, ◌||◌, List, [], ◌∷◌, ℕ, zero, suc, ◌+◌, ◌-◌, ltb, leb, ◌==◌,
  if◌then◌else◌, drop,
}
use mslang_cc.Base.Text.{codes}
use mslang_cc.Proto.{MsResult, ok, error_syntax}
use mslang_cc.Diag.{DiagList, report}

-- Where the lexer is: `pos`, `line` and `column` of `struct MsLexer`, with the bytes from `pos` on.
-- `line` and `column` are `uint32_t` in the source, and so are exact up to 2^32 - 1, which no source of
-- fewer than 2^31 bytes exceeds.
pub record Cursor : Type 0 where
  pub rest : List ℕ
  pub pos : ℕ
  pub line : ℕ
  pub column : ℕ

-- `msLexerIsAtEnd`
abbrev pub no_bytes : List ℕ → Bool
no_bytes [] = true
no_bytes (c ∷ r) = false

unfoldable pub is_at_end : Cursor → Bool
is_at_end c = no_bytes c.rest

abbrev pub first : List ℕ → ℕ
first [] = 0
first (c ∷ r) = c

abbrev pub second : List ℕ → ℕ
second [] = 0
second (c ∷ r) = first r

-- `msLexerCurrent` and `msLexerLookahead`
unfoldable pub current : Cursor → ℕ
current c = first c.rest

unfoldable pub lookahead : Cursor → ℕ
lookahead c = second c.rest

-- `msLexerAdvanceChar`
unfoldable pub advance : Cursor → Cursor
advance c = record c { rest = drop 1 c.rest; pos = c.pos + 1; column = c.column + 1 }

-- `msLexerAdvanceChar`, called `n` times
unfoldable pub advance_by : ℕ → Cursor → Cursor
advance_by zero c = c
advance_by (suc n) c = advance_by n (advance c)

-- `msLexerMatch`
unfoldable pub match_byte : ℕ → Cursor → Bool × Cursor
unfolding is_at_end current advance
match_byte expected c =
    if is_at_end c || not (current c == expected) then (false, c) else (true, advance c)

-- `msLexerError`
unfoldable pub lexer_error : ℕ → ℕ → ℕ → List ℕ → DiagList → MsResult × DiagList
lexer_error line column code message diags =
    let (recorded, diags') = report (line, column, code, message) diags in
    (if recorded then ok else error_syntax, diags')

-- The cursor behind a newline of `n` bytes.
abbrev pub next_line : ℕ → Cursor → Cursor
next_line n c = record { rest = drop n c.rest; pos = c.pos + n; line = c.line + 1; column = 1 }

abbrev pub bare_return : List ℕ
bare_return = codes "bare carriage return"

-- `msLexerConsumeNewline`
unfoldable pub consume_newline : Cursor → DiagList → MsResult × Cursor × DiagList
unfolding current lookahead lexer_error
consume_newline c diags =
    if current c == b'\r'
    then (if lookahead c == b'\n'
        then (ok, next_line 2 c, diags)
        else let (result, diags') = lexer_error c.line c.column 112 bare_return diags in
          (result, next_line 1 c, diags'))
    else (ok, next_line 1 c, diags)

abbrev pub is_newline : ℕ → Bool
is_newline c = c == b'\r' || c == b'\n'

abbrev pub in_range : ℕ → ℕ → ℕ → Bool
in_range lo hi c = leb lo c && leb c hi

-- `msLexerIsIdentStart`, `msLexerIsIdentContinue`, `msLexerIsDigit`, `msLexerIsHexDigit`
unfoldable pub is_ident_start : ℕ → Bool
is_ident_start c = in_range b'a' b'z' c || in_range b'A' b'Z' c || c == b'_'

unfoldable pub is_ident_continue : ℕ → Bool
unfolding is_ident_start
is_ident_continue c = is_ident_start c || in_range b'0' b'9' c

unfoldable pub is_digit : ℕ → Bool
is_digit c = in_range b'0' b'9' c

unfoldable pub is_hex_digit : ℕ → Bool
is_hex_digit c = in_range b'0' b'9' c || in_range b'a' b'f' c || in_range b'A' b'F' c

-- `msLexerHexValue`
unfoldable pub hex_value : ℕ → ℕ
hex_value c =
    if in_range b'0' b'9' c
    then c - b'0'
    else if in_range b'a' b'f' c
    then c - b'a' + 10
    else c - b'A' + 10

-- `msLexerIsBaseDigit`
unfoldable pub is_base_digit : ℕ → ℕ → Bool
unfolding is_digit
is_base_digit base c =
    if is_digit c
    then ltb (c - b'0') base
    else if base == 16
    then in_range b'a' b'f' c || in_range b'A' b'F' c
    else false

-- the length that a lead byte announces, 0 if it leads no sequence
unfoldable pub lead_length : ℕ → ℕ
lead_length lead =
    if in_range 0xC2 0xDF lead
    then 2
    else if in_range 0xE0 0xEF lead
    then 3
    else if in_range 0xF0 0xF4 lead
    then 4
    else 0

-- `for (size_t i = 1; i < length; ++i)`, and whether the bytes are there
unfoldable pub are_continuations : ℕ → List ℕ → Bool
are_continuations zero bytes = true
are_continuations (suc n) [] = false
are_continuations (suc n) (c ∷ r) = in_range 0x80 0xBF c && are_continuations n r

-- `msLexerUtf8Length`
unfoldable pub utf8_length : List ℕ → ℕ
unfolding lead_length are_continuations
utf8_length bytes =
    let n = lead_length (first bytes) in
    if n == 0 then 0 else if are_continuations (n - 1) (drop 1 bytes) then n else 0

-- ===== src/Lexer/Strings.antt =====
-- src/lexer/ms_lexer.c: escape sequences, strings, bytes literals and raw strings.
use mslang_cc.Base.{
  Bool, true, false, not, ◌&&◌, ◌||◌, Option, none, some, List, [], ◌∷◌, ℕ, zero, suc, ◌+◌, ◌*◌,
  ltb, ◌==◌, if◌then◌else◌, length, drop,
}
use mslang_cc.Base.Loop.{Round, again, leave, loop, ◌>>=◌}
use mslang_cc.Base.Text.{codes}
use mslang_cc.Proto.{error_syntax, is_ok}
use mslang_cc.Diag.{DiagList}
use mslang_cc.Lexer.Tokens.{TokenType, invalid, string, raw_string, bytes}
use mslang_cc.Lexer.Cursor.{
  Cursor, is_at_end, second, current, advance, advance_by, consume_newline, is_newline, in_range,
  is_hex_digit, hex_value,
}
use mslang_cc.Lexer.State.{Lexer, Scanned, make_token, make_eof, commit_token, report_token}

-- the loop over the hex digits of `\x`, `\u` and `\U`
unfoldable pub hex_digits : ℕ → ℕ → List ℕ → Option ℕ
unfolding is_hex_digit hex_value
hex_digits zero value input = some value
hex_digits (suc n) value [] = none
hex_digits (suc n) value (h ∷ r) =
    let rest = hex_digits n (value * 16 + hex_value h) r in if is_hex_digit h then rest else none

-- the escapes of one letter
abbrev pub is_simple_escape : ℕ → Bool
is_simple_escape kind =
    kind == b'n'
    || kind == b't'
    || kind == b'r'
    || kind == b'\\'
    || kind == b'"'
    || kind == b'\''
    || kind == b'0'

abbrev pub is_hex_escape : ℕ → Bool
is_hex_escape kind = kind == b'x' || kind == b'u' || kind == b'U'

abbrev pub escape_digits : ℕ → ℕ
escape_digits kind = if kind == b'x' then 2 else if kind == b'u' then 4 else 8

-- no code point: above U+10FFFF, or a surrogate
abbrev pub is_no_code_point : ℕ → Bool
is_no_code_point value = ltb 0x10FFFF value || in_range 0xD800 0xDFFF value

-- how many bytes an escape has from its backslash on, if it is a good one
unfoldable pub escape_length : List ℕ → Option ℕ
unfolding hex_digits
escape_length input =
    let kind = second input in
    if is_simple_escape kind
    then some 2
    else if is_hex_escape kind
    then elim (hex_digits (escape_digits kind) 0 (drop 2 input)) [
      | none ↦ none
      | some value ↦
          if not (kind == b'x') && is_no_code_point value
          then none
          else some (2 + escape_digits kind)
    ]
    else none

-- `msLexerScanEscape`: the cursor behind the escape, or nothing
unfoldable pub scan_escape : Cursor → Option Cursor
unfolding escape_length advance_by
scan_escape c = elim (escape_length c.rest) [ none ↦ none | some n ↦ some (advance_by n c) ]

-- The variables of the loop in `msLexerScanString`.
pub record Body : Type 0 where
  pub cursor : Cursor
  pub fault : Option (ℕ × ℕ × ℕ × List ℕ)
  pub check_escapes : Bool

-- Only the first error of a string counts.
abbrev pub first_fault :
    Option (ℕ × ℕ × ℕ × List ℕ) → ℕ × ℕ × ℕ × List ℕ → Option (ℕ × ℕ × ℕ × List ℕ)
first_fault none e = some e
first_fault (some e') e = some e'

abbrev pub unterminated : Cursor → ℕ × ℕ × ℕ × List ℕ
unterminated start = (103, start.line, start.column, codes "unterminated string")

abbrev pub bad_escape : Cursor → ℕ × ℕ × ℕ × List ℕ
bad_escape c = (106, c.line, c.column, codes "invalid escape sequence")

-- The body of the loop in `msLexerScanString`, for a string that starts at `start`.
unfoldable pub string_round : Cursor → Body → Round Body Body
unfolding is_at_end current advance scan_escape
string_round start b =
    let c = current b.cursor in
    if is_at_end b.cursor || is_newline c
    then leave (record b { fault = first_fault b.fault (unterminated start) })
    else if c == b'"'
    then leave (record b { cursor = advance b.cursor })
    else if c == b'\\' && b.check_escapes
    then elim (scan_escape b.cursor) [
      | some c' ↦ again (record b { cursor = c' })
      | none ↦ again (record {
        cursor = advance b.cursor;
        fault = first_fault b.fault (bad_escape b.cursor);
        check_escapes = false;
      })
    ]
    else again (record b { cursor = advance b.cursor })

unfoldable pub finish_string : Lexer → TokenType → Body → Scanned
unfolding commit_token report_token make_token
finish_string lexer type b =
    let lexer' = record lexer { cursor = b.cursor } in
    elim b.fault [
      | none ↦ commit_token (make_token type lexer.cursor b.cursor) lexer'
      | some e ↦ report_token e (make_token invalid lexer.cursor b.cursor) lexer'
    ]

-- `msLexerScanString`
unfoldable pub scan_string : Bool → Lexer → Option Scanned
unfolding advance_by string_round loop finish_string
scan_string is_bytes lexer =
    loop (suc (length lexer.cursor.rest)) (string_round lexer.cursor) (record {
      cursor = advance_by (if is_bytes then 2 else 1) lexer.cursor;
      fault = none;
      check_escapes = true;
    })
    >>= λ b. some (finish_string lexer (if is_bytes then bytes else string) b)

-- How the loop of `msLexerScanRawString` is left.
pub data RawEnd : Type 0 where
  closed at_end_of_input cap_reached : RawEnd

pub record Raw : Type 0 where
  pub cursor : Cursor
  pub diags : DiagList

-- The body of the loop in `msLexerScanRawString`.
unfoldable pub raw_round : Raw → Round Raw (RawEnd × Raw)
unfolding is_at_end current advance consume_newline
raw_round r =
    if is_at_end r.cursor
    then leave (at_end_of_input, r)
    else if current r.cursor == b'`'
    then leave (closed, record r { cursor = advance r.cursor })
    else if is_newline (current r.cursor)
    then (let (result, c, diags) = consume_newline r.cursor r.diags in
        let r' : Raw = record { cursor = c; diags = diags } in
        if is_ok result then again r' else leave (cap_reached, r'))
    else again (record r { cursor = advance r.cursor })

unfoldable pub finish_raw_string : Lexer → RawEnd → Raw → Scanned
unfolding commit_token report_token make_token make_eof
finish_raw_string lexer end r =
    let lexer' = record lexer { cursor = r.cursor; diags = r.diags } in
    elim end [
      | closed ↦ commit_token (make_token raw_string lexer.cursor r.cursor) lexer'
      | cap_reached ↦ make_eof error_syntax lexer'
      | at_end_of_input ↦
          report_token
            (104, lexer.cursor.line, lexer.cursor.column, codes "unterminated raw string")
            (make_token invalid lexer.cursor r.cursor) lexer'
    ]

-- `msLexerScanRawString`
unfoldable pub scan_raw_string : Lexer → Option Scanned
unfolding advance raw_round loop finish_raw_string
scan_raw_string lexer =
    loop (suc (length lexer.cursor.rest)) raw_round
      (record { cursor = advance lexer.cursor; diags = lexer.diags })
    >>= λ e. some (finish_raw_string lexer e.0 e.1)

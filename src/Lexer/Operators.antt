-- ===== src/Lexer/Operators.antt =====
-- src/lexer/ms_lexer.c: operators and delimiters.
use mslang_cc.Base.{
  Bool, false, ◌&&◌, Option, none, some, List, [], ◌∷◌, ◌++◌, ℕ, ◌+◌, ◌-◌, ◌/◌, ◌%◌, ltb, leb, ◌==◌,
  if◌then◌else◌,
}
use mslang_cc.Base.Text.{codes}
use mslang_cc.Lexer.Tokens.{
  TokenType, invalid, semicolon, plus, minus, star, slash, percent, double_star, equal_equal,
  bang_equal, less, less_equal, greater, greater_equal, amp, pipe, caret, tilde, shift_left,
  shift_right, colon_equal, equal, plus_equal, minus_equal, star_equal, slash_equal, percent_equal,
  double_star_equal, amp_equal, pipe_equal, caret_equal, shift_left_equal, shift_right_equal,
  plus_plus, minus_minus, left_paren, right_paren, left_bracket, right_bracket, left_brace,
  right_brace, comma, colon, dot, ellipsis,
}
use mslang_cc.Lexer.Cursor.{Cursor, current, lookahead, advance, advance_by, match_byte}
use mslang_cc.Lexer.State.{
  fstring_text, fstring_format_spec, LexerFrame, Lexer, Scanned, make_token, commit_token,
  report_token,
}
use mslang_cc.Lexer.Fstrings.{map_top, scan_fstring_format, unmatched}

-- One of two types, by whether the byte `=` follows.
unfoldable pub with_equal : TokenType → TokenType → Cursor → TokenType × Cursor
unfolding match_byte
with_equal longer shorter c =
    let (found, c') = match_byte b'=' c in (if found then longer else shorter, c')

-- One of three, for an operator that may be doubled, or else be followed by `=`.
unfoldable pub doubled : ℕ → TokenType → TokenType → TokenType → Cursor → TokenType × Cursor
unfolding match_byte with_equal
doubled byte twice longer shorter c =
    let (found, c') = match_byte byte c in
    if found then (twice, c') else with_equal longer shorter c

-- One of four, where the doubled one may be followed by `=` too.
unfoldable pub doubled_equal :
    ℕ → TokenType → TokenType → TokenType → TokenType → Cursor → TokenType × Cursor
unfolding match_byte with_equal
doubled_equal byte twice_equal twice longer shorter c =
    let (found, c') = match_byte byte c in
    if found then with_equal twice_equal twice c' else with_equal longer shorter c

unfoldable pub dots : Cursor → TokenType × Cursor
unfolding current lookahead advance_by
dots c = if current c == b'.' && lookahead c == b'.' then (ellipsis, advance_by 2 c) else (dot, c)

-- The operators of `msLexerScanOperator` that depend on the following bytes only; `c` is behind the
-- first byte.
unfoldable pub plain_operator : ℕ → Cursor → Option (TokenType × Cursor)
unfolding with_equal doubled doubled_equal dots
plain_operator byte c =
    if byte == b'+'
    then some (doubled b'+' plus_plus plus_equal plus c)
    else if byte == b'-'
    then some (doubled b'-' minus_minus minus_equal minus c)
    else if byte == b'*'
    then some (doubled_equal b'*' double_star_equal double_star star_equal star c)
    else if byte == b'/'
    then some (with_equal slash_equal slash c)
    else if byte == b'%'
    then some (with_equal percent_equal percent c)
    else if byte == b'='
    then some (with_equal equal_equal equal c)
    else if byte == b'<'
    then some (doubled_equal b'<' shift_left_equal shift_left less_equal less c)
    else if byte == b'>'
    then some (doubled_equal b'>' shift_right_equal shift_right greater_equal greater c)
    else if byte == b'&'
    then some (with_equal amp_equal amp c)
    else if byte == b'|'
    then some (with_equal pipe_equal pipe c)
    else if byte == b'^'
    then some (with_equal caret_equal caret c)
    else if byte == b'~'
    then some (tilde, c)
    else if byte == b'.'
    then some (dots c)
    else if byte == b','
    then some (comma, c)
    else if byte == b';'
    then some (semicolon, c)
    else none

abbrev pub hex_letter : ℕ → ℕ
hex_letter n = if ltb n 10 then n + b'0' else n - 10 + b'A'

-- The message of `msLexerErrorUnexpectedChar`.
unfoldable pub unexpected_char : ℕ → List ℕ
unexpected_char byte =
    if leb 0x20 byte && ltb byte 0x7F
    then codes "unexpected character '" ++ byte ∷ codes "'"
    else codes "unexpected character '\\x"
      ++ hex_letter (byte / 16) ∷ hex_letter (byte % 16) ∷ codes "'"

-- A byte that starts no token.
unfoldable pub refuse_byte : Lexer → Cursor → Scanned
unfolding current report_token make_token unexpected_char
refuse_byte lexer c =
    report_token
      (102, lexer.cursor.line, lexer.cursor.column, unexpected_char (current lexer.cursor))
      (make_token invalid lexer.cursor c) (record lexer { cursor = c })

-- The token, with the cursor behind it and the frames changed.
abbrev pub token_with : Lexer → TokenType → Cursor → List LexerFrame → Scanned
token_with lexer type c frames =
    commit_token (make_token type lexer.cursor c) (record lexer { cursor = c; frames = frames })

abbrev pub open_bracket : LexerFrame → LexerFrame
open_bracket f = record f { bracket_depth = f.bracket_depth + 1 }

-- never below zero
abbrev pub close_bracket : LexerFrame → LexerFrame
close_bracket f = record f { bracket_depth = f.bracket_depth - 1 }

abbrev pub at_top_level : List LexerFrame → Bool
at_top_level [] = false
at_top_level (f ∷ fs) = f.brace_depth == 1 && f.bracket_depth == 0

-- `case ':'`
unfoldable pub scan_colon : Lexer → Cursor → Option Scanned
unfolding match_byte commit_token make_token scan_fstring_format
scan_colon lexer c =
    let (found, c') = match_byte b'=' c in
    if found
    then some (token_with lexer colon_equal c' lexer.frames)
    else if at_top_level lexer.frames
    then scan_fstring_format (record lexer { cursor = c; mode = fstring_format_spec })
    else some (token_with lexer colon c lexer.frames)

-- `case '{'`
unfoldable pub open_brace : Lexer → Cursor → List LexerFrame → Scanned
unfolding commit_token make_token
open_brace lexer c [] =
    commit_token (make_token left_brace lexer.cursor c)
      (record lexer { cursor = c; block_brace_depth = lexer.block_brace_depth + 1 })
open_brace lexer c (f ∷ fs) =
    token_with lexer left_brace c (record f { brace_depth = f.brace_depth + 1 } ∷ fs)

-- `case '}'`
unfoldable pub close_brace : Lexer → Cursor → List LexerFrame → Scanned
unfolding commit_token make_token report_token
close_brace lexer c [] =
    if ltb 0 lexer.block_brace_depth
    then commit_token (make_token right_brace lexer.cursor c)
        (record lexer { cursor = c; block_brace_depth = lexer.block_brace_depth - 1 })
    else report_token (unmatched lexer.cursor) (make_token invalid lexer.cursor c)
        (record lexer { cursor = c })
close_brace lexer c (f ∷ fs) =
    let left = f.brace_depth - 1 in
    commit_token (make_token right_brace lexer.cursor c) (record lexer {
      cursor = c;
      frames = record f { brace_depth = left } ∷ fs;
      mode = if left == 0 then fstring_text else lexer.mode;
    })

-- The operators that depend on the frames, and the bytes that start no token.
unfoldable pub framed_operator : Lexer → ℕ → Cursor → Option Scanned
unfolding match_byte refuse_byte commit_token make_token scan_colon open_brace close_brace
framed_operator lexer byte c =
    if byte == b'!'
    then (let (found, c') = match_byte b'=' c in
        some (if found then token_with lexer bang_equal c' lexer.frames else refuse_byte lexer c))
    else if byte == b':'
    then scan_colon lexer c
    else if byte == b'('
    then some (token_with lexer left_paren c (map_top open_bracket lexer.frames))
    else if byte == b')'
    then some (token_with lexer right_paren c (map_top close_bracket lexer.frames))
    else if byte == b'['
    then some (token_with lexer left_bracket c (map_top open_bracket lexer.frames))
    else if byte == b']'
    then some (token_with lexer right_bracket c (map_top close_bracket lexer.frames))
    else if byte == b'{'
    then some (open_brace lexer c lexer.frames)
    else if byte == b'}'
    then some (close_brace lexer c lexer.frames)
    else some (refuse_byte lexer c)

-- `msLexerScanOperator`
unfoldable pub scan_operator : Lexer → Option Scanned
unfolding current advance plain_operator framed_operator commit_token make_token
scan_operator lexer =
    let byte = current lexer.cursor in
    let c = advance lexer.cursor in
    elim (plain_operator byte c) [
      | some (type, c') ↦ some (token_with lexer type c' lexer.frames)
      | none ↦ framed_operator lexer byte c
    ]

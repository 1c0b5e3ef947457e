-- ===== src/Lexer/Fstrings.antt =====
-- src/lexer/ms_lexer.c: f-strings: their start, their text, and the format of an interpolation.
use mslang_cc.Base.{
  Bool, true, false, not, ◌&&◌, ◌||◌, Option, none, some, List, [], ◌∷◌, ℕ, suc, ◌+◌, ◌-◌, ltb, leb,
  ◌==◌, if◌then◌else◌, length, drop,
}
use mslang_cc.Base.Loop.{Round, again, leave, loop, ◌>>=◌}
use mslang_cc.Base.Text.{codes}
use mslang_cc.Proto.{error_syntax, is_ok}
use mslang_cc.Diag.{DiagList}
use mslang_cc.Lexer.Tokens.{invalid, string, fstring_start, fstring_end, fstring_format, left_brace}
use mslang_cc.Lexer.Cursor.{
  Cursor, no_bytes, is_at_end, current, lookahead, advance, advance_by, lexer_error, is_newline,
}
use mslang_cc.Lexer.State.{
  normal, fstring_text, LexerFrame, max_fstring_depth, Lexer, Scanned, make_token, make_eof,
  commit_token, report_token, pop_fstring_frame,
}
use mslang_cc.Lexer.Strings.{scan_escape, bad_escape, unterminated}

-- The body of the loop that recovers from too deep a nesting: on to the closing quote.
unfoldable pub too_deep_round : Cursor → Round Cursor Cursor
unfolding is_at_end current lookahead advance advance_by
too_deep_round c =
    if is_at_end c || is_newline (current c)
    then leave c
    else if current c == b'\\' && not (no_bytes (drop 1 c.rest)) && not (is_newline (lookahead c))
    then again (advance_by 2 c)
    else if current c == b'"'
    then leave (advance c)
    else again (advance c)

abbrev pub new_frame : LexerFrame
new_frame = record { quote = b'"'; brace_depth = 0; bracket_depth = 0 }

-- `msLexerScanFstringStart`
unfoldable pub scan_fstring_start : Lexer → Option Scanned
unfolding advance_by loop too_deep_round commit_token report_token make_token
scan_fstring_start lexer =
    let opened = advance_by 2 lexer.cursor in
    if leb max_fstring_depth (length lexer.frames)
    then (loop (suc (length opened.rest)) too_deep_round opened >>= λ c. some (
        report_token
          (109, lexer.cursor.line, lexer.cursor.column, codes "f-string nesting too deep")
          (make_token invalid lexer.cursor c) (record lexer { cursor = c })))
    else some (
        commit_token (make_token fstring_start lexer.cursor opened) (record lexer {
          cursor = opened;
          frames = new_frame ∷ lexer.frames;
          mode = fstring_text;
        }))

-- The variables of the loop in `msLexerScanFstringFormat`.
pub record FormatSpec : Type 0 where
  pub cursor : Cursor
  pub local_depth : ℕ

abbrev pub unpaired : Cursor → ℕ × ℕ × ℕ × List ℕ
unpaired c = (110, c.line, c.column, codes "unpaired '{' in f-string interpolation")

-- The body of the loop in `msLexerScanFstringFormat`; it leaves with whether the brace was found.
unfoldable pub format_round : FormatSpec → Round FormatSpec (Bool × Cursor)
unfolding is_at_end current advance
format_round s =
    let c = current s.cursor in
    if is_at_end s.cursor || is_newline c
    then leave (false, s.cursor)
    else if c == b'}' && s.local_depth == 0
    then leave (true, s.cursor)
    else again (record {
      cursor = advance s.cursor;
      local_depth =
          if c == b'{'
          then s.local_depth + 1
          else if c == b'}'
          then s.local_depth - 1
          else s.local_depth;
    })

unfoldable pub finish_format : Lexer → Bool × Cursor → Scanned
unfolding commit_token report_token make_token pop_fstring_frame
finish_format lexer (found, c) =
    let lexer' = record lexer { cursor = c } in
    if found
    then commit_token (make_token fstring_format lexer.cursor c) (record lexer' { mode = normal })
    else report_token (unpaired lexer.cursor) (make_token invalid lexer.cursor c)
        (pop_fstring_frame lexer')

-- `msLexerScanFstringFormat`
unfoldable pub scan_fstring_format : Lexer → Option Scanned
unfolding loop format_round finish_format
scan_fstring_format lexer =
    loop (suc (length lexer.cursor.rest)) format_round
      (record { cursor = lexer.cursor; local_depth = 0 })
    >>= λ e. some (finish_format lexer e)

-- The variables of the loop in `msLexerScanFstringText`.
pub record Segment : Type 0 where
  pub cursor : Cursor
  pub diags : DiagList
  pub escape_error : Bool
  pub check_escapes : Bool

-- The innermost frame; where there is none the source has an assertion.
abbrev pub quote_of : List LexerFrame → ℕ
quote_of [] = 0
quote_of (f ∷ fs) = f.quote

abbrev pub map_top : (LexerFrame → LexerFrame) → List LexerFrame → List LexerFrame
map_top g [] = []
map_top g (f ∷ fs) = g f ∷ fs

abbrev pub set_brace : ℕ → LexerFrame → LexerFrame
set_brace n f = record f { brace_depth = n }

-- the lexer in the middle of a segment
abbrev pub mid_segment : Lexer → Segment → Lexer
mid_segment lexer s = record lexer { cursor = s.cursor; diags = s.diags }

-- the text before a boundary
unfoldable pub emit_segment : Lexer → Segment → Scanned
unfolding commit_token make_token
emit_segment lexer s =
    commit_token (make_token (if s.escape_error then invalid else string) lexer.cursor s.cursor)
      (mid_segment lexer s)

-- a newline or the end of the input
unfoldable pub end_segment : Lexer → Segment → Scanned
unfolding commit_token report_token make_token pop_fstring_frame
end_segment lexer s =
    let token = make_token invalid lexer.cursor s.cursor in
    let lexer' = pop_fstring_frame (mid_segment lexer s) in
    if s.escape_error
    then commit_token token lexer'
    else report_token (unterminated lexer.cursor) token lexer'

-- the closing quote
unfoldable pub close_fstring : Lexer → Segment → Scanned
unfolding commit_token make_token pop_fstring_frame advance
close_fstring lexer s =
    let c = advance s.cursor in
    commit_token (make_token fstring_end lexer.cursor c)
      (pop_fstring_frame (record lexer { cursor = c; diags = s.diags }))

-- a single `{`
unfoldable pub open_interpolation : Lexer → Segment → Scanned
unfolding commit_token make_token advance
open_interpolation lexer s =
    let c = advance s.cursor in
    commit_token (make_token left_brace lexer.cursor c) (record lexer {
      cursor = c;
      diags = s.diags;
      frames = map_top (set_brace 1) lexer.frames;
      mode = normal;
    })

abbrev pub unmatched : Cursor → ℕ × ℕ × ℕ × List ℕ
unmatched c = (111, c.line, c.column, codes "unmatched '}'")

-- a single `}`
unfoldable pub lone_brace : Lexer → Segment → Scanned
unfolding report_token make_token advance
lone_brace lexer s =
    let c = advance s.cursor in
    report_token (unmatched lexer.cursor) (make_token invalid lexer.cursor c)
      (record lexer { cursor = c; diags = s.diags })

-- a backslash whose escape was refused
unfoldable pub refuse_escape : Lexer → Segment → Round Segment Scanned
unfolding lexer_error make_eof advance
refuse_escape lexer s =
    if s.escape_error
    then again (record s { cursor = advance s.cursor; check_escapes = false })
    else (let (code, line, column, message) = bad_escape s.cursor in
        let (result, diags) = lexer_error line column code message s.diags in
        if is_ok result
        then again (record {
          cursor = advance s.cursor;
          diags = diags;
          escape_error = true;
          check_escapes = false;
        })
        else leave (make_eof error_syntax (record lexer { cursor = s.cursor; diags = diags })))

-- The body of the loop in `msLexerScanFstringText`, for the lexer at the start of the segment.
unfoldable pub text_round : Lexer → Segment → Round Segment Scanned
unfolding is_at_end current lookahead advance advance_by scan_escape emit_segment end_segment
    close_fstring open_interpolation lone_brace refuse_escape
text_round lexer s =
    let c = current s.cursor in
    let pending = ltb lexer.cursor.pos s.cursor.pos in
    if is_at_end s.cursor || is_newline c
    then leave (end_segment lexer s)
    else if c == quote_of lexer.frames
    then leave (if pending then emit_segment lexer s else close_fstring lexer s)
    else if (c == b'{' || c == b'}') && lookahead s.cursor == c
    then again (record s { cursor = advance_by 2 s.cursor })
    else if c == b'{'
    then leave (if pending then emit_segment lexer s else open_interpolation lexer s)
    else if c == b'}'
    then leave (if pending then emit_segment lexer s else lone_brace lexer s)
    else if c == b'\\' && s.check_escapes
    then elim (scan_escape s.cursor) [
      | some c' ↦ again (record s { cursor = c' })
      | none ↦ refuse_escape lexer s
    ]
    else again (record s { cursor = advance s.cursor })

-- `msLexerScanFstringText`
unfoldable pub scan_fstring_text : Lexer → Option Scanned
unfolding loop text_round
scan_fstring_text lexer = loop (suc (length lexer.cursor.rest)) (text_round lexer) (record {
  cursor = lexer.cursor;
  diags = lexer.diags;
  escape_error = false;
  check_escapes = true;
})

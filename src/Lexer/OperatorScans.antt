-- ===== src/Lexer/OperatorScans.antt =====
-- Scanning an operator takes its bytes, and keeps the frames nested.
use mathlib.Core.Path.{subst}
use mslang_cc.Base.{
  Option, List, [], ◌∷◌, ℕ, ◌+◌, ◌-◌, ◌≤◌, ◌≡◌, refl, ap, ◌≢◌, arith, ltb, ◌==◌, if◌then◌else◌,
  ==_iff, length,
}
use mslang_cc.Base.Loop.{Returns, if_rule, option_rule}
use mslang_cc.Lexer.Tokens.{
  TokenType, eof, invalid, bang_equal, colon_equal, left_paren, right_paren, left_bracket,
  right_bracket, left_brace, right_brace, colon, token_ends_statement,
}
use mslang_cc.Lexer.Cursor.{Cursor, current, advance, match_byte}
use mslang_cc.Lexer.State.{
  normal, fstring_text, fstring_format_spec, LexerFrame, Lexer, Scanned, make_token, commit_token,
  report_token,
}
use mslang_cc.Lexer.Forward.{
  IsOnByte, Forward, stay, past_byte, Forward-trans, advance-Keeps, Forward-Keeps,
}
use mslang_cc.Lexer.Progress.{
  AreOpen, IsNested, measure, IsReady, Scans, Returns-after, commit_token-Scans, one_if-le,
  moved-Follows, error-Scans,
}
use mslang_cc.Lexer.Fstrings.{map_top, unmatched}
use mslang_cc.Lexer.FstringScans.{in_mode, length-map_top, scan_fstring_format-Scans}
use mslang_cc.Lexer.Operators.{
  plain_operator, refuse_byte, token_with, open_bracket, close_bracket, at_top_level, scan_colon,
  open_brace, close_brace, framed_operator, scan_operator,
}
use mslang_cc.Lexer.OperatorBytes.{match_byte-Forward, Operator, plain_operator-TypeFrom}

open_bracket-AreOpen : (fs : List LexerFrame) → AreOpen fs → AreOpen (map_top open_bracket fs)
open_bracket-AreOpen [] h = tt
open_bracket-AreOpen (f ∷ fs) h = h

close_bracket-AreOpen : (fs : List LexerFrame) → AreOpen fs → AreOpen (map_top close_bracket fs)
close_bracket-AreOpen [] h = tt
close_bracket-AreOpen (f ∷ fs) h = h

-- The lexer stands in plain code, on a byte that is no newline.
module _ (lexer : Lexer) (mode : lexer.mode ≡ normal) (nested : IsNested normal lexer.frames)
    (ready : IsReady lexer) (on : IsOnByte lexer.cursor) where
  abbrev Done : Scanned → Type 0
  Done = Scans (measure lexer) lexer.cursor

  -- The lexer behind a token that starts with this byte.
  moved_to-Scans :
      (lexer' : Lexer) (type : TokenType)
      → type ≢ eof
      → Forward (advance lexer.cursor) lexer'.cursor
      → length lexer'.frames ≤ length lexer.frames
      → IsNested lexer'.mode lexer'.frames
      → IsReady lexer'
      → Done (commit_token (make_token type lexer.cursor lexer'.cursor) lexer')
  moved_to-Scans lexer' type no_eof f few nested' ready' =
      commit_token-Scans (measure lexer) lexer.cursor type lexer' no_eof (
        moved-Follows _ lexer lexer' (omega (arith, one_if-le (token_ends_statement type)))
          (Forward-trans (past_byte stay on) f)
          (omega (arith, Forward-Keeps f, advance-Keeps lexer.cursor on.0)) few nested' ready')

  taken-Scans :
      (type : TokenType) (c : Cursor) (frames : List LexerFrame)
      → type ≢ eof
      → Forward (advance lexer.cursor) c
      → length frames ≤ length lexer.frames
      → IsNested normal frames
      → Done (token_with lexer type c frames)
  taken-Scans type c frames no_eof f few open_frames =
      moved_to-Scans (record lexer { cursor = c; frames = frames }) type no_eof f few
        (in_mode _ _ _ mode open_frames) ready

  refused-Scans :
      (e : ℕ × ℕ × ℕ × List ℕ)
      → Done (
          report_token e
            (make_token invalid lexer.cursor (advance lexer.cursor))
            (record lexer { cursor = advance lexer.cursor }))
  refused-Scans e =
      error-Scans lexer (advance lexer.cursor) e (in_mode _ _ _ mode nested) ready
        (past_byte stay on) (advance-Keeps lexer.cursor on.0).1

  scan_colon-Scans : Returns (scan_colon lexer (advance lexer.cursor)) Done
  unfolding scan_colon
  scan_colon-Scans =
      let c = advance lexer.cursor in
      let P : Option Scanned → Type 0 = λ r. Returns r Done in
      if_rule P (match_byte b'=' c).0
        (λ _.
          taken-Scans colon_equal _ lexer.frames (λ e. cc)
            (match_byte-Forward b'=' c (omega arith, refl)) (omega arith) nested)
        λ _.
          if_rule P (at_top_level lexer.frames)
            (λ _.
              Returns-after _ (past_byte stay on) (omega (arith, advance-Keeps lexer.cursor on.0)) (
                scan_fstring_format-Scans (record lexer { cursor = c; mode = fstring_format_spec })
                  nested ready))
            (λ _. taken-Scans colon c lexer.frames (λ e. cc) stay (omega arith) nested)

  open_brace-Scans :
      (fs : List LexerFrame) → lexer.frames ≡ fs → Done (open_brace lexer (advance lexer.cursor) fs)
  unfolding open_brace
  open_brace-Scans [] e =
      moved_to-Scans
        (record lexer {
          cursor = advance lexer.cursor;
          block_brace_depth = lexer.block_brace_depth + 1;
        })
        left_brace (λ e. cc) stay (omega arith) (in_mode _ _ _ mode nested) ready
  open_brace-Scans (f ∷ fs) e =
      let (few, (quote, brace, opened)) = subst (IsNested normal) e nested in
      taken-Scans left_brace (advance lexer.cursor) _ (λ e. cc) stay (omega (arith, ap length e))
        (few, (quote, omega arith, opened))

  close_brace-Scans :
      (fs : List LexerFrame)
      → lexer.frames ≡ fs
      → Done (close_brace lexer (advance lexer.cursor) fs)
  unfolding close_brace
  close_brace-Scans [] e =
      if_rule Done (ltb 0 lexer.block_brace_depth)
        (λ _.
          moved_to-Scans
            (record lexer {
              cursor = advance lexer.cursor;
              block_brace_depth = lexer.block_brace_depth - 1;
            })
            right_brace (λ e. cc) stay (omega arith) (in_mode _ _ _ mode nested) ready)
        (λ _. refused-Scans (unmatched lexer.cursor))
  close_brace-Scans (f ∷ fs) e =
      let (few, (quote, brace, opened)) = subst (IsNested normal) e nested in
      let left = f.brace_depth - 1 in
      let fs' : List LexerFrame = record f { brace_depth = left } ∷ fs in
      moved_to-Scans
        (record lexer {
          cursor = advance lexer.cursor;
          frames = fs';
          mode = if left == 0 then fstring_text else lexer.mode;
        })
        right_brace (λ e. cc) stay (omega (arith, ap length e))
        (if_rule (λ m. IsNested m fs') (left == 0)
          (λ z. (omega arith, quote, (==_iff left 0).0 z, opened))
          (λ n. in_mode _ _ fs' mode (few, (quote, ground arith, opened))))
        ready

  bracket-Scans :
      (type : TokenType) (g : LexerFrame → LexerFrame)
      → type ≢ eof
      → AreOpen (map_top g lexer.frames)
      → Done (token_with lexer type (advance lexer.cursor) (map_top g lexer.frames))
  bracket-Scans type g no_eof opened =
      taken-Scans type (advance lexer.cursor) (map_top g lexer.frames) no_eof stay
        (omega (arith, length-map_top g lexer.frames))
        (omega (arith, length-map_top g lexer.frames, nested.0), opened)

  framed_operator-Scans :
      (byte : ℕ) → Returns (framed_operator lexer byte (advance lexer.cursor)) Done
  unfolding framed_operator refuse_byte
  framed_operator-Scans byte =
      let c = advance lexer.cursor in
      let P : Option Scanned → Type 0 = λ r. Returns r Done in
      if_rule P (byte == b'!')
        (λ _.
          if_rule Done (match_byte b'=' c).0
            (λ _.
              taken-Scans bang_equal _ lexer.frames (λ e. cc)
                (match_byte-Forward b'=' c (omega arith, refl)) (omega arith) nested)
            (λ _. refused-Scans _))
        λ _.
          if_rule P (byte == b':') (λ _. scan_colon-Scans)
            λ _.
              if_rule P (byte == b'(')
                (λ _.
                  bracket-Scans left_paren open_bracket (λ e. cc)
                    (open_bracket-AreOpen lexer.frames nested.1))
                λ _.
                  if_rule P (byte == b')')
                    (λ _.
                      bracket-Scans right_paren close_bracket (λ e. cc)
                        (close_bracket-AreOpen lexer.frames nested.1))
                    λ _.
                      if_rule P (byte == b'[')
                        (λ _.
                          bracket-Scans left_bracket open_bracket (λ e. cc)
                            (open_bracket-AreOpen lexer.frames nested.1))
                        λ _.
                          if_rule P (byte == b']')
                            (λ _.
                              bracket-Scans right_bracket close_bracket (λ e. cc)
                                (close_bracket-AreOpen lexer.frames nested.1))
                            λ _.
                              if_rule P (byte == b'{') (λ _. open_brace-Scans lexer.frames refl)
                                λ _.
                                  if_rule P (byte == b'}')
                                    (λ _. close_brace-Scans lexer.frames refl)
                                    (λ _. refused-Scans _)

  pub scan_operator-Scans : Returns (scan_operator lexer) Done
  unfolding scan_operator
  scan_operator-Scans =
      let byte = current lexer.cursor in
      let c = advance lexer.cursor in
      option_rule (λ r. Returns r Done) (plain_operator byte c) (λ _. framed_operator-Scans byte)
        (λ r found.
          let (f, no_eof) = subst (Operator byte c) found (plain_operator-TypeFrom byte c) in
          taken-Scans r.0 r.1 lexer.frames no_eof f (omega arith) nested)

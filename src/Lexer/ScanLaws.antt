-- ===== src/Lexer/ScanLaws.antt =====
-- src/lexer/ms_lexer.c: the scan of one token, from `msLexerScan` down.
use mslang_cc.Base.{
  true, false, ◌&&◌, ◌||◌, Option, none, some, List, [], ◌∷◌, ℕ, ◌≤◌, ◌≡◌, refl, ap, ◌≢◌, inl, inr,
  arith, ltb, leb, ◌==◌, length, drop,
}
use mslang_cc.Base.Loop.{Returns, if_rule, bind_rule}
use mslang_cc.Proto.{MsResult, is_ok}
use mslang_cc.Lexer.Tokens.{eof, semicolon}
use mslang_cc.Lexer.Cursor.{
  Cursor, no_bytes, is_at_end, first, current, lookahead, advance, is_newline, is_ident_start,
  is_digit, utf8_length,
}
use mslang_cc.Lexer.State.{
  Mode, normal, fstring_text, fstring_format_spec, LexerFrame, Lexer, Scanned, make_token, make_eof,
  make_semicolon, pop_fstring_frame,
}
use mslang_cc.Lexer.Forward.{
  IsOnByte, Forward, stay, past_byte, Forward-trans, advance-Keeps, Forward-Keeps, HasBytes,
  IsPlain,
}
use mslang_cc.Lexer.Trivia.{Newline, Trivia, skip_trivia}
use mslang_cc.Lexer.Full.{FullUnless}
use mslang_cc.Lexer.Skipping.{Crossed, Skipped, mark-HasBytes, skip_trivia-Skips}
use mslang_cc.Lexer.Progress.{
  IsNested, measure, IsReady, Scans, Returns-after, make_eof-Scans, report_token-Scans, error-Scans,
}
use mslang_cc.Lexer.NumberScans.{scan_number-Scans}
use mslang_cc.Lexer.IdentifierScans.{scan_identifier-Scans}
use mslang_cc.Lexer.StringScans.{scan_string-Scans, scan_raw_string-Scans}
use mslang_cc.Lexer.FstringScans.{in_mode, pop-AreOpen, length-drop_frame, scan_fstring_start-Scans}
use mslang_cc.Lexer.TextScans.{scan_fstring_text-Scans}
use mslang_cc.Lexer.OperatorScans.{scan_operator-Scans}
use mslang_cc.Lexer.Scan.{
  refuse_utf8, scan_token, scan_end, scan_here, after_trivia, scan_normal, scan_in, scan,
}

IsOnByte-HasBytes : (c : Cursor) → IsOnByte c → HasBytes 1 c.rest
unfolding is_at_end current
IsOnByte-HasBytes c on = one c.rest on.0 on.1
  where
    one : (b : List ℕ) → no_bytes b ≡ false → is_newline (first b) ≡ false → HasBytes 1 b
    one [] h k = cc
    one (x ∷ b) h k = (k, tt)

-- The lexer stands in plain code, on a byte that is no newline.
module _ (lexer : Lexer) (mode : lexer.mode ≡ normal) (nested : IsNested normal lexer.frames)
    (ready : IsReady lexer) (on : IsOnByte lexer.cursor) where
  abbrev Done : Option Scanned → Type 0
  Done r = Returns r (Scans (measure lexer) lexer.cursor)

  scan_token-Scans : Done (scan_token lexer)
  unfolding scan_token refuse_utf8
  scan_token-Scans =
      let c = current lexer.cursor in
      let following = lookahead lexer.cursor in
      let sequence = utf8_length lexer.cursor.rest in
      let here : IsNested lexer.mode lexer.frames = in_mode _ _ _ mode nested in
      let quote : IsPlain b'"' = (omega arith, refl) in
      if_rule Done (leb 0x80 c && sequence == 0)
        (λ _.
          error-Scans lexer (advance lexer.cursor) _ here ready (past_byte stay on)
            (advance-Keeps lexer.cursor on.0).1)
        λ _.
          if_rule Done (c == b'"')
            (λ e. scan_string-Scans false lexer here ready (IsOnByte-HasBytes lexer.cursor on))
            λ _.
              if_rule Done (c == b'`') (λ _. scan_raw_string-Scans lexer here ready on)
                λ _.
                  if_rule Done (c == b'f' && following == b'"')
                    (λ e.
                      scan_fstring_start-Scans lexer mode nested ready
                        (mark-HasBytes lexer.cursor b'f' b'"' (omega arith, refl) quote e))
                    λ _.
                      if_rule Done (c == b'b' && following == b'"')
                        (λ e.
                          scan_string-Scans true lexer here ready
                            (mark-HasBytes lexer.cursor b'b' b'"' (omega arith, refl) quote e))
                        λ _.
                          if_rule Done (is_ident_start c || ltb 0 sequence)
                            (λ e. scan_identifier-Scans lexer here ready on e)
                            λ _.
                              if_rule Done (is_digit c || (c == b'.' && is_digit following))
                                (λ e. scan_number-Scans lexer here ready (ground arith))
                                (λ _. scan_operator-Scans lexer mode nested ready on)

semicolon≢eof : semicolon ≢ eof
semicolon≢eof e = cc

-- A semicolon that stands for a newline, or for the end of the input.
make_semicolon-Scans :
    (c d : Cursor) (lexer : Lexer)
    → lexer.can_end_statement ≡ true
    → IsNested lexer.mode lexer.frames
    → IsReady lexer
    → Forward c d
    → Forward d lexer.cursor
    → Scans (measure lexer) c (make_semicolon d.pos d.line d.column lexer)
unfolding make_semicolon
make_semicolon-Scans c d lexer ends nested ready f g = record {
  forward = Forward-trans f g;
  placed = (d, d, f, stay, g, refl, omega arith, refl, refl);
  nested = nested;
  ready = ready;
  progress = inl (refl, semicolon≢eof, rw ends (omega arith));
}

-- The measure does not depend on how the lexer is taken apart.
scan_end-Scans :
    (lexer : Lexer) (fs : List LexerFrame)
    → lexer.frames ≡ fs
    → lexer.mode ≡ normal
    → IsNested normal lexer.frames
    → IsReady lexer
    → is_at_end lexer.cursor ≡ true
    → Scans (measure lexer) lexer.cursor (scan_end lexer fs)
unfolding scan_end pop_fstring_frame
scan_end-Scans lexer [] e mode nested ready at_end =
    if_rule (Scans (measure lexer) lexer.cursor) lexer.can_end_statement
      (λ ends.
        make_semicolon-Scans lexer.cursor lexer.cursor lexer ends (in_mode _ _ _ mode nested) ready
          stay stay)
      (λ _.
        unfold make_eof make_token in
        record {
          forward = stay;
          placed = (lexer.cursor, lexer.cursor, stay, stay, stay, refl, omega arith, refl, refl);
          nested = in_mode _ _ _ mode nested;
          ready = ready;
          progress = inr (inl (refl, refl, refl, (at_end, e, mode, refl)));
        })
scan_end-Scans lexer (f ∷ fs) e mode nested ready at_end =
    report_token-Scans (measure lexer) lexer.cursor _
      (record lexer { frames = drop 1 lexer.frames; mode = normal })
      (record {
        forward = stay;
        nested = pop-AreOpen lexer.frames nested;
        ready = ready;
        less =
            omega (arith, ap length e, length-drop_frame lexer.frames (omega (arith, ap length e)));
      })

scan_here-Scans :
    (lexer : Lexer)
    → lexer.mode ≡ normal
    → IsNested normal lexer.frames
    → IsReady lexer
    → is_newline (current lexer.cursor) ≡ false
    → Returns (scan_here lexer) (Scans (measure lexer) lexer.cursor)
unfolding scan_here
scan_here-Scans lexer mode nested ready off =
    if_rule (λ r. Returns r (Scans (measure lexer) lexer.cursor)) (is_at_end lexer.cursor)
      (λ at_end. scan_end-Scans lexer lexer.frames refl mode nested ready at_end)
      (λ more. scan_token-Scans lexer mode nested ready (more, off))

after_trivia-Scans :
    (c : Cursor) (lexer : Lexer) (newline : Option Newline)
    → lexer.mode ≡ normal
    → IsNested normal lexer.frames
    → IsReady lexer
    → Forward c lexer.cursor
    → Crossed c lexer.cursor newline
    → is_newline (current lexer.cursor) ≡ false
    → Returns (after_trivia lexer newline) (Scans (measure lexer) c)
unfolding after_trivia
after_trivia-Scans c lexer none mode nested ready f crossed off =
    Returns-after _ f (omega arith) (scan_here-Scans lexer mode nested ready off)
after_trivia-Scans c lexer (some n) mode nested ready f (d, before, after, pos, line, column) off =
    if_rule (λ r. Returns r (Scans (measure lexer) c)) lexer.can_end_statement
      (λ ends.
        let s =
          make_semicolon-Scans c d lexer ends (in_mode _ _ _ mode nested) ready before after in
        rw (pos, line, column) s)
      (λ _. Returns-after _ f (omega arith) (scan_here-Scans lexer mode nested ready off))

scan_normal-Scans :
    (lexer : Lexer)
    → lexer.mode ≡ normal
    → IsNested normal lexer.frames
    → IsReady lexer
    → Returns (scan_normal lexer) (Scans (measure lexer) lexer.cursor)
unfolding scan_normal
scan_normal-Scans lexer mode nested ready =
    let start : Trivia = record { cursor = lexer.cursor; diags = lexer.diags; newline = none } in
    let P : Option Scanned → Type 0 = λ r. Returns r (Scans (measure lexer) lexer.cursor) in
    bind_rule
      (λ (r : MsResult × Trivia).
        Skipped lexer.cursor r.1
        × (is_ok r.0 ≡ true → is_newline (current r.1.cursor) ≡ false)
        × FullUnless r.0 r.1.diags)
      (Scans (measure lexer) lexer.cursor) (skip_trivia start) _
      (skip_trivia-Skips start (stay, tt))
      (λ r h.
        let lexer' : Lexer = record lexer { cursor = r.1.cursor; diags = r.1.diags } in
        let smaller : measure lexer' ≤ measure lexer = omega (arith, Forward-Keeps h.0.0) in
        if_rule P (is_ok r.0)
          (λ good. Returns-after _ stay smaller (
            after_trivia-Scans lexer.cursor lexer' r.1.newline mode nested ready h.0.0 h.0.1
              (h.1 good)))
          (λ bad.
            make_eof-Scans (measure lexer) lexer.cursor lexer' h.0.0 (in_mode _ _ _ mode nested)
              ready (h.2 bad)))

-- The scan in each mode.
scan_in-Scans :
    (lexer : Lexer) (m : Mode)
    → lexer.mode ≡ m
    → IsNested m lexer.frames
    → IsReady lexer
    → Returns (scan_in m lexer) (Scans (measure lexer) lexer.cursor)
unfolding scan_in
scan_in-Scans lexer normal mode nested ready = scan_normal-Scans lexer mode nested ready
scan_in-Scans lexer fstring_text mode nested ready = scan_fstring_text-Scans lexer mode nested ready
scan_in-Scans lexer fstring_format_spec mode nested ready = absurd nested

-- A scan from a lexer whose frames are nested ends. It goes forward; the lexeme lies on the way, and
-- the token's line and column are those where it starts; the frames are nested again, at most 8 deep.
-- Either the token is not the end of the input, and the measure of the lexer falls: twice the bytes that
-- are left, the frames, and one if a semicolon is due. Or it is the end, where the
-- cursor stands with no byte and no frame left; or it stands for it, with an error, and the list of
-- diagnostics is full.
pub scan-Scans :
    (lexer : Lexer)
    → IsNested lexer.mode lexer.frames
    → IsReady lexer
    → Returns (scan lexer) (Scans (measure lexer) lexer.cursor)
unfolding scan
scan-Scans lexer nested ready = scan_in-Scans lexer lexer.mode refl nested ready

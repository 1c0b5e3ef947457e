-- ===== src/Lexer/TextScans.antt =====
-- Scanning a text segment of an f-string ends, and either takes a byte or drops the frame.
use mslang_cc.Base.{
  Bool, true, false, ◌&&◌, ◌||◌, ℕ, suc, ◌≤◌, ◌<◌, ◌≡◌, ◌≢◌, arith, ltb, ◌==◌, if◌then◌else◌,
  ltb→lt, drop,
}
use mslang_cc.Base.Loop.{Round, Returns, Does, if_rule, option_rule, loop_rule}
use mslang_cc.Proto.{is_ok}
use mslang_cc.Diag.{DiagList}
use mslang_cc.Lexer.Tokens.{eof, invalid, string, fstring_end, left_brace}
use mslang_cc.Lexer.Cursor.{Cursor, is_at_end, current, lookahead, advance, lexer_error, is_newline}
use mslang_cc.Lexer.State.{normal, fstring_text, Lexer, Scanned, pop_fstring_frame}
use mslang_cc.Lexer.Forward.{
  or_false, and_true, IsOnByte, Forward, stay, past_byte, size, advance-Keeps, Forward-Keeps,
  Nearer, advance-Nearer, HasBytes, advance_by-Nearer_pos, IsPlain-HasBytes,
}
use mslang_cc.Lexer.Full.{lexer_error-IsFull}
use mslang_cc.Lexer.Progress.{
  IsNested, measure, IsReady, Scans, Follows, commit_token-Scans, make_eof-Scans, invalid≢eof,
  report_token-Scans, token-Scans, error-Scans,
}
use mslang_cc.Lexer.Strings.{scan_escape, bad_escape}
use mslang_cc.Lexer.StringScans.{scan_escape-Nearer, backslash_byte}
use mslang_cc.Lexer.Fstrings.{
  Segment, quote_of, map_top, set_brace, emit_segment, end_segment, close_fstring,
  open_interpolation, lone_brace, refuse_escape, text_round, scan_fstring_text,
}
use mslang_cc.Lexer.FstringScans.{
  in_mode, pop-IsNested, open-IsNested, length-map_top, length-drop_frame, has_frame,
}

doubled-HasBytes :
    (c : Cursor)
    → ((current c == b'{' || current c == b'}') && lookahead c == current c) ≡ true
    → HasBytes 2 c.rest
unfolding current lookahead
doubled-HasBytes c e =
    IsPlain-HasBytes c.rest (ground arith, ground arith) (ground arith, ground arith)

segment_type≢eof : (b : Bool) → (if b then invalid else string) ≢ eof
segment_type≢eof true e = cc
segment_type≢eof false e = cc

fstring_end≢eof : fstring_end ≢ eof
fstring_end≢eof e = cc

left_brace≢eof : left_brace ≢ eof
left_brace≢eof e = cc

-- The lexer stands in the text of an f-string.
module _ (lexer : Lexer) (mode : lexer.mode ≡ fstring_text)
    (nested : IsNested fstring_text lexer.frames) (ready : IsReady lexer) where
  abbrev Done : Scanned → Type 0
  Done = Scans (measure lexer) lexer.cursor

  emit_segment-Scans :
      (s : Segment)
      → Forward lexer.cursor s.cursor
      → lexer.cursor.pos < s.cursor.pos
      → Done (emit_segment lexer s)
  unfolding emit_segment
  emit_segment-Scans s f moved =
      token-Scans (record lexer { diags = s.diags }) s.cursor _ (segment_type≢eof s.escape_error)
        (in_mode _ _ _ mode nested) ready f moved

  -- The frame is dropped, so the measure falls even if no byte is taken.
  popped-Follows :
      (n : ℕ) (c : Cursor) (diags : DiagList)
      → measure lexer ≤ n
      → Forward lexer.cursor c
      → Follows n lexer.cursor
          (record lexer { cursor = c; diags = diags; frames = drop 1 lexer.frames; mode = normal })
  popped-Follows n c diags bound f = record {
    forward = f;
    nested = pop-IsNested lexer.frames nested;
    ready = ready;
    less = omega (
      arith,
      Forward-Keeps f,
      bound,
      length-drop_frame lexer.frames (has_frame lexer.frames nested),
    );
  }

  end_segment-Scans : (s : Segment) → Forward lexer.cursor s.cursor → Done (end_segment lexer s)
  unfolding end_segment pop_fstring_frame
  end_segment-Scans s f =
      if_rule Done s.escape_error
        (λ _.
          commit_token-Scans _ lexer.cursor invalid _ invalid≢eof
            (popped-Follows _ s.cursor s.diags (omega arith) f))
        (λ _.
          report_token-Scans _ lexer.cursor _ _ (popped-Follows _ s.cursor s.diags (omega arith) f))

  close_fstring-Scans :
      (s : Segment)
      → Forward lexer.cursor s.cursor
      → IsOnByte s.cursor
      → Done (close_fstring lexer s)
  unfolding close_fstring pop_fstring_frame
  close_fstring-Scans s f on =
      commit_token-Scans _ lexer.cursor fstring_end
        (record lexer {
          cursor = advance s.cursor;
          diags = s.diags;
          frames = drop 1 lexer.frames;
          mode = normal;
        })
        fstring_end≢eof
        (record {
          forward = past_byte f on;
          nested = pop-IsNested lexer.frames nested;
          ready = ready;
          less = omega (
            arith,
            Forward-Keeps (past_byte f on),
            Forward-Keeps f,
            advance-Keeps s.cursor on.0,
            length-drop_frame lexer.frames (has_frame lexer.frames nested),
          );
        })

  open_interpolation-Scans :
      (s : Segment)
      → Forward lexer.cursor s.cursor
      → IsOnByte s.cursor
      → Done (open_interpolation lexer s)
  unfolding open_interpolation
  open_interpolation-Scans s f on =
      commit_token-Scans _ lexer.cursor left_brace
        (record lexer {
          cursor = advance s.cursor;
          diags = s.diags;
          frames = map_top (set_brace 1) lexer.frames;
          mode = normal;
        })
        left_brace≢eof
        (record {
          forward = past_byte f on;
          nested = open-IsNested lexer.frames nested;
          ready = ready;
          less = omega (
            arith,
            Forward-Keeps (past_byte f on),
            Forward-Keeps f,
            advance-Keeps s.cursor on.0,
            length-map_top (set_brace 1) lexer.frames,
          );
        })

  lone_brace-Scans :
      (s : Segment) → Forward lexer.cursor s.cursor → IsOnByte s.cursor → Done (lone_brace lexer s)
  unfolding lone_brace
  lone_brace-Scans s f on =
      error-Scans (record lexer { diags = s.diags }) (advance s.cursor) _
        (in_mode _ _ _ mode nested) ready (past_byte f on)
        (omega (arith, Forward-Keeps f, advance-Keeps s.cursor on.0))

  abbrev TextRound : Cursor → Round Segment Scanned → Type 0
  TextRound d r = Does r (λ s. Nearer lexer.cursor d s.cursor) Done

  refuse_escape-Nearer :
      (s : Segment)
      → Forward lexer.cursor s.cursor
      → IsOnByte s.cursor
      → TextRound s.cursor (refuse_escape lexer s)
  unfolding refuse_escape
  refuse_escape-Nearer s f on =
      let move = advance-Nearer f on in
      if_rule (TextRound s.cursor) s.escape_error (λ _. move)
        λ _.
          let e = bad_escape s.cursor in
          let r = lexer_error e.1 e.2 e.0 e.3 s.diags in
          if_rule (TextRound s.cursor) (is_ok r.0) (λ _. move)
            (λ bad.
              make_eof-Scans _ lexer.cursor (record lexer { cursor = s.cursor; diags = r.1 }) f
                (in_mode _ _ _ mode nested) ready (lexer_error-IsFull _ _ _ _ s.diags bad))

  text_round-Nearer :
      (s : Segment) → Forward lexer.cursor s.cursor → TextRound s.cursor (text_round lexer s)
  unfolding text_round
  text_round-Nearer s f =
      let P = TextRound s.cursor in
      let b = current s.cursor in
      let pending = ltb lexer.cursor.pos s.cursor.pos in
      let emit = λ (e : pending ≡ true). emit_segment-Scans s f (ltb→lt _ _ e) in
      if_rule P (is_at_end s.cursor || is_newline b) (λ _. end_segment-Scans s f)
        λ here.
          let on = or_false (is_at_end s.cursor) (is_newline b) here in
          let move = advance-Nearer f on in
          if_rule P (b == quote_of lexer.frames)
            (λ _. if_rule Done pending emit (λ _. close_fstring-Scans s f on))
            λ _.
              if_rule P ((b == b'{' || b == b'}') && lookahead s.cursor == b)
                (λ e. advance_by-Nearer_pos 2 (omega arith) f (doubled-HasBytes s.cursor e))
                λ _.
                  if_rule P (b == b'{')
                    (λ _. if_rule Done pending emit (λ _. open_interpolation-Scans s f on))
                    λ _.
                      if_rule P (b == b'}')
                        (λ _. if_rule Done pending emit (λ _. lone_brace-Scans s f on))
                        λ _.
                          if_rule P (b == b'\\' && s.check_escapes)
                            (λ e.
                              option_rule P (scan_escape s.cursor)
                                (λ _. refuse_escape-Nearer s f on)
                                (λ c' found.
                                  scan_escape-Nearer lexer.cursor s.cursor f
                                    (backslash_byte b (and_true (b == b'\\') s.check_escapes e).0)
                                    c' found))
                            (λ _. move)

  pub scan_fstring_text-Scans : Returns (scan_fstring_text lexer) Done
  unfolding scan_fstring_text
  scan_fstring_text-Scans =
      loop_rule (λ s. Forward lexer.cursor s.cursor) Done (λ s. size s.cursor) (text_round lexer)
        (λ s f. text_round-Nearer s f) (suc (size lexer.cursor))
        (record {
          cursor = lexer.cursor;
          diags = lexer.diags;
          escape_error = false;
          check_escapes = true;
        })
        (omega arith) stay

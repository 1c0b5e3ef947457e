-- ===== src/Lexer/FstringScans.antt =====
-- Scanning the parts of an f-string ends, goes forward or drops a frame, and keeps the frames nested.
use mslang_cc.Base.{
  Bool, true, false, not, ◌&&◌, ◌||◌, Option, List, [], ◌∷◌, ℕ, suc, ◌+◌, ◌*◌, ◌≤◌, ◌<◌, ◌≡◌, refl,
  sym, ◌≢◌, arith, leb, ◌==◌, length, drop,
}
use mathlib.Core.Path.{subst}
use mslang_cc.Base.Loop.{Round, loop, Returns, Does, if_rule, bind_rule, loop_rule}
use mslang_cc.Lexer.Tokens.{eof, fstring_start, fstring_format}
use mslang_cc.Lexer.Cursor.{
  Cursor, no_bytes, is_at_end, first, second, current, lookahead, advance_by, is_newline,
}
use mslang_cc.Lexer.State.{
  Mode, normal, fstring_text, LexerFrame, max_fstring_depth, Lexer, Scanned, pop_fstring_frame,
}
use mslang_cc.Lexer.Forward.{
  or_false, and_true, not-true, Forward, stay, Forward-trans, size, Forward-Keeps, Nearer,
  advance-Nearer, HasBytes, advance_by-pos, advance_by-Nearer_pos,
}
use mslang_cc.Lexer.Progress.{
  IsNested, measure, IsReady, Scans, commit_token-Scans, report_token-Scans, error-Scans,
}
use mslang_cc.Lexer.Fstrings.{
  too_deep_round, new_frame, scan_fstring_start, FormatSpec, format_round, finish_format,
  scan_fstring_format, quote_of, map_top, set_brace,
}

-- The frames in another mode, by an equation for the mode.
pub in_mode : (m n : Mode) (fs : List LexerFrame) → m ≡ n → IsNested n fs → IsNested m fs
in_mode m n fs e h = subst (λ k. IsNested k fs) (sym e) h

pub pop-IsNested : (fs : List LexerFrame) → IsNested fstring_text fs → IsNested normal (drop 1 fs)
pop-IsNested [] h = absurd h
pop-IsNested (f ∷ fs) (few, quote, brace, opened) = (omega arith, opened)

pub pop-AreOpen : (fs : List LexerFrame) → IsNested normal fs → IsNested normal (drop 1 fs)
pop-AreOpen [] h = h
pop-AreOpen (f ∷ fs) (few, (quote, brace, opened)) = (omega arith, opened)

pub open-IsNested :
    (fs : List LexerFrame) → IsNested fstring_text fs → IsNested normal (map_top (set_brace 1) fs)
open-IsNested [] h = absurd h
open-IsNested (f ∷ fs) (few, quote, brace, opened) = (omega arith, (quote, omega arith, opened))

pub length-map_top :
    (g : LexerFrame → LexerFrame) (fs : List LexerFrame) → length (map_top g fs) ≡ length fs
length-map_top g [] = refl
length-map_top g (f ∷ fs) = refl

quote_of-quote : (fs : List LexerFrame) → IsNested fstring_text fs → quote_of fs ≡ b'"'
quote_of-quote [] h = absurd h
quote_of-quote (f ∷ fs) h = h.1

pub length-drop_frame : (fs : List LexerFrame) → 0 < length fs → length (drop 1 fs) + 1 ≡ length fs
length-drop_frame [] h = absurd (omega arith)
length-drop_frame (f ∷ fs) h = omega arith

length-drop_le : (fs : List LexerFrame) → length (drop 1 fs) ≤ length fs
length-drop_le [] = omega arith
length-drop_le (f ∷ fs) = omega arith

pub has_frame : (fs : List LexerFrame) → IsNested fstring_text fs → 0 < length fs
has_frame [] h = absurd h
has_frame (f ∷ fs) h = omega arith

two_present :
    (b : List ℕ)
    → is_newline (first b) ≡ false
    → no_bytes (drop 1 b) ≡ false
    → is_newline (second b) ≡ false
    → HasBytes 2 b
two_present [] h k l = cc
two_present (x ∷ []) h k l = cc
two_present (x ∷ y ∷ r) h k l = (h, (l, tt))

too_deep_round-Nearer :
    (c d : Cursor) → Forward c d → Does (too_deep_round d) (λ e. Nearer c d e) (λ e. Forward c e)
unfolding too_deep_round current lookahead
too_deep_round-Nearer c d f =
    let P : Round Cursor Cursor → Type 0 = λ r. Does r (λ e. Nearer c d e) (λ e. Forward c e) in
    if_rule P (is_at_end d || is_newline (current d)) (λ _. f)
      λ on.
        let (some_byte, no_newline) = or_false (is_at_end d) (is_newline (current d)) on in
        let move = advance-Nearer f (some_byte, no_newline) in
        if_rule P
          (current d == b'\\' && not (no_bytes (drop 1 d.rest)) && not (is_newline (lookahead d)))
          (λ e.
            let (both, next_plain) =
              and_true (current d == b'\\' && not (no_bytes (drop 1 d.rest)))
                (not (is_newline (lookahead d))) e in
            let there = (and_true (current d == b'\\') (not (no_bytes (drop 1 d.rest))) both).1 in
            advance_by-Nearer_pos 2 (omega arith) f
              (two_present d.rest no_newline (not-true _ there) (not-true _ next_plain)))
          λ _. if_rule P (current d == b'"') (λ _. move.0) (λ _. move)

fstring_start≢eof : fstring_start ≢ eof
fstring_start≢eof e = cc

pub scan_fstring_start-Scans :
    (lexer : Lexer)
    → lexer.mode ≡ normal
    → IsNested normal lexer.frames
    → IsReady lexer
    → HasBytes 2 lexer.cursor.rest
    → Returns (scan_fstring_start lexer) (Scans (measure lexer) lexer.cursor)
unfolding scan_fstring_start
scan_fstring_start-Scans lexer mode nested ready both =
    let c = lexer.cursor in
    let opened = advance_by 2 c in
    let near = advance_by-Nearer_pos 2 (omega arith) stay both in
    let P : Option Scanned → Type 0 = λ r. Returns r (Scans (measure lexer) c) in
    if_rule P (leb max_fstring_depth (length lexer.frames))
      (λ _.
        bind_rule (λ e. Forward opened e) (Scans (measure lexer) c)
          (loop (suc (size opened)) too_deep_round opened) _
          (loop_rule (λ e. Forward opened e) (λ e. Forward opened e) size too_deep_round
            (λ d f. too_deep_round-Nearer opened d f) (suc (size opened)) opened (omega arith) stay)
          (λ e f.
            error-Scans lexer e _ (in_mode _ _ _ mode nested) ready (Forward-trans near.0 f)
              (omega (arith, near.1, Forward-Keeps f, Forward-Keeps near.0))))
      (λ shallow.
        let lexer' : Lexer = record lexer {
          cursor = opened;
          frames = new_frame ∷ lexer.frames;
          mode = fstring_text;
        } in
        commit_token-Scans (measure lexer) c fstring_start lexer' fstring_start≢eof (record {
          forward = near.0;
          nested = (ground arith, refl, refl, nested.1);
          ready = ready;
          less = omega (arith, near.1, Forward-Keeps near.0, advance_by-pos 2 c);
        }))

abbrev FormatRound : Cursor → Cursor → Round FormatSpec (Bool × Cursor) → Type 0
FormatRound c d r = Does r (λ s. Nearer c d s.cursor) (λ (e : Bool × Cursor). Forward c e.1)

format_round-Nearer :
    (c : Cursor) (s : FormatSpec) → Forward c s.cursor → FormatRound c s.cursor (format_round s)
unfolding format_round
format_round-Nearer c s f =
    let b = current s.cursor in
    if_rule (FormatRound c s.cursor) (is_at_end s.cursor || is_newline b) (λ _. f)
      λ on.
        if_rule (FormatRound c s.cursor) (b == b'}' && s.local_depth == 0) (λ _. f)
          (λ _. advance-Nearer f (or_false (is_at_end s.cursor) (is_newline b) on))

fstring_format≢eof : fstring_format ≢ eof
fstring_format≢eof e = cc

finish_format-Scans :
    (lexer : Lexer) (found : Bool) (c : Cursor)
    → IsNested normal lexer.frames
    → IsReady lexer
    → Forward lexer.cursor c
    → Scans
        (2 * size lexer.cursor + length lexer.frames + 1)
        lexer.cursor
        (finish_format lexer (found, c))
unfolding finish_format pop_fstring_frame
finish_format-Scans lexer true c nested ready f =
    commit_token-Scans _ lexer.cursor fstring_format (record lexer { cursor = c; mode = normal })
      fstring_format≢eof
      (record {
        forward = f;
        nested = nested;
        ready = ready;
        less = omega (arith, Forward-Keeps f);
      })
finish_format-Scans lexer false c nested ready f =
    report_token-Scans _ lexer.cursor _
      (record lexer { cursor = c; frames = drop 1 lexer.frames; mode = normal })
      (record {
        forward = f;
        nested = pop-AreOpen lexer.frames nested;
        ready = ready;
        less = omega (arith, Forward-Keeps f, length-drop_le lexer.frames);
      })

-- The format segment of an interpolation, behind its colon.
pub scan_fstring_format-Scans :
    (lexer : Lexer)
    → IsNested normal lexer.frames
    → IsReady lexer
    → Returns
        (scan_fstring_format lexer)
        (Scans (2 * size lexer.cursor + length lexer.frames + 1) lexer.cursor)
unfolding scan_fstring_format
scan_fstring_format-Scans lexer nested ready =
    let c = lexer.cursor in
    bind_rule (λ (e : Bool × Cursor). Forward c e.1) _
      (loop (suc (size c)) format_round (record { cursor = c; local_depth = 0 })) _
      (loop_rule (λ s. Forward c s.cursor) (λ (e : Bool × Cursor). Forward c e.1)
        (λ s. size s.cursor) format_round (λ s f. format_round-Nearer c s f) (suc (size c))
        (record { cursor = c; local_depth = 0 }) (omega arith) stay)
      (λ e f. finish_format-Scans lexer e.0 e.1 nested ready f)

-- ===== src/Lexer/StringScans.antt =====
-- Scanning a string, a bytes literal or a raw string ends, and takes at least its opening.
use mslang_cc.Base.{
  Bool, true, false, not, ◌&&◌, ◌||◌, Option, none, some, List, [], ◌∷◌, ℕ, zero, suc, ◌+◌, ◌<◌,
  ◌≡◌, refl, ◌≢◌, inl, inr, arith, ◌==◌, if◌then◌else◌, Bool-cases, none≢some, drop,
}
use mathlib.Core.Path.{subst}
use mslang_cc.Base.Loop.{Round, loop, Returns, Does, if_rule, option_rule, bind_rule, loop_rule}
use mslang_cc.Proto.{is_ok}
use mslang_cc.Lexer.Tokens.{TokenType, eof, string, raw_string, bytes}
use mslang_cc.Lexer.Cursor.{
  Cursor, is_at_end, first, second, current, advance, advance_by, consume_newline, is_newline,
  is_hex_digit,
}
use mslang_cc.Lexer.State.{Lexer}
use mslang_cc.Lexer.Forward.{
  or_false, and_true, IsOnByte, Forward, stay, past_byte, Forward-trans, size, Forward-Keeps,
  Nearer, advance-Nearer, consume_newline-Nearer, HasBytes, advance_by-Nearer_pos, IsPlain,
  IsPlain-IsOnByte, IsPlain-HasBytes, test-IsPlain,
}
use mslang_cc.Diag.{DiagList}
use mslang_cc.Lexer.Full.{IsFull, consume_newline-IsFull}
use mslang_cc.Lexer.Progress.{
  IsNested, measure, IsReady, Scans, make_eof-Scans, token-Scans, error-Scans,
}
use mslang_cc.Lexer.Strings.{
  hex_digits, is_simple_escape, is_hex_escape, escape_digits, is_no_code_point, escape_length,
  scan_escape, Body, string_round, finish_string, scan_string, RawEnd, closed, at_end_of_input,
  cap_reached, Raw, raw_round, finish_raw_string, scan_raw_string,
}

pub simple_escape_byte : (b : ℕ) → is_simple_escape b ≡ true → IsPlain b
simple_escape_byte b e = (ground arith, ground arith)

pub hex_escape_byte : (b : ℕ) → is_hex_escape b ≡ true → IsPlain b
hex_escape_byte b e = (ground arith, ground arith)

hex_digit_byte : (b : ℕ) → is_hex_digit b ≡ true → is_newline b ≡ false
unfolding is_hex_digit
hex_digit_byte b e = ground arith

hex_digits-HasBytes :
    (n value : ℕ) (input : List ℕ) {v : ℕ} → hex_digits n value input ≡ some v → HasBytes n input
unfolding hex_digits
hex_digits-HasBytes zero value input e = tt
hex_digits-HasBytes (suc n) value [] e = cc
hex_digits-HasBytes (suc n) value (h ∷ r) e = elim (Bool-cases (is_hex_digit h)) [
  | inl digit ↦ (hex_digit_byte h digit, hex_digits-HasBytes n _ r (rw digit at e))
  | inr other ↦ absurd (none≢some (rw other at e))
]

-- Bytes that follow two others.
HasBytes-pair :
    (n : ℕ) (input : List ℕ)
    → IsPlain (first input)
    → IsPlain (second input)
    → HasBytes n (drop 2 input)
    → HasBytes (2 + n) input
HasBytes-pair n [] h k r = absurd (omega arith)
HasBytes-pair n (x ∷ []) h k r = absurd (omega arith)
HasBytes-pair n (x ∷ y ∷ input) h k r =
    let e : 2 + n ≡ suc (suc n) = omega arith in rw e (h.1, (k.1, r))

-- A good escape has bytes, and none is a newline.
abbrev EscapeBytes : List ℕ → Option ℕ → Type 0
EscapeBytes input none = Unit {0}
EscapeBytes input (some n) = (0 < n) × HasBytes n input

escape_length-EscapeBytes :
    (input : List ℕ) → IsPlain (first input) → EscapeBytes input (escape_length input)
unfolding escape_length
escape_length-EscapeBytes input plain =
    let kind = second input in
    if_rule (EscapeBytes input) (is_simple_escape kind)
      (λ e. (omega arith, IsPlain-HasBytes input plain (simple_escape_byte kind e)))
      λ _.
        if_rule (EscapeBytes input) (is_hex_escape kind)
          (λ e.
            option_rule (EscapeBytes input) (hex_digits (escape_digits kind) 0 (drop 2 input))
              (λ _. tt)
              (λ v digits.
                if_rule (EscapeBytes input) (not (kind == b'x') && is_no_code_point v) (λ _. tt)
                  (λ _. (
                    omega arith,
                    HasBytes-pair (escape_digits kind) input plain (hex_escape_byte kind e)
                        (hex_digits-HasBytes (escape_digits kind) 0 (drop 2 input) digits),
                  ))))
          (λ _. tt)

pub scan_escape-Nearer :
    (c d : Cursor)
    → Forward c d
    → IsPlain (current d)
    → (e : Cursor) → scan_escape d ≡ some e
    → Nearer c d e
unfolding scan_escape current
scan_escape-Nearer c d f plain e h =
    option_rule {B = Option Cursor} (λ r. r ≡ some e → Nearer c d e) (escape_length d.rest)
      (λ _ k. absurd (none≢some k))
      (λ n found k.
        let bytes : EscapeBytes d.rest (some n) =
          subst (EscapeBytes d.rest) found (escape_length-EscapeBytes d.rest plain) in
        let same : advance_by n d ≡ e = cc in
        rw (← same) (advance_by-Nearer_pos n bytes.0 f bytes.1))
      h

pub backslash_byte : (b : ℕ) → (b == b'\\') ≡ true → IsPlain b
backslash_byte b e = test-IsPlain b b'\\' (omega arith, refl) e

quote_byte : (b : ℕ) → (b == b'"') ≡ true → IsPlain b
quote_byte b e = test-IsPlain b b'"' (omega arith, refl) e

abbrev pub StringRound : Cursor → Cursor → Round Body Body → Type 0
StringRound c d r = Does r (λ b. Nearer c d b.cursor) (λ b. Forward c b.cursor)

pub string_round-Nearer :
    (start c : Cursor) (b : Body)
    → Forward c b.cursor
    → StringRound c b.cursor (string_round start b)
unfolding string_round
string_round-Nearer start c b f =
    let P = StringRound c b.cursor in
    let byte = current b.cursor in
    if_rule (StringRound c b.cursor) (is_at_end b.cursor || is_newline byte) (λ _. f)
      λ on.
        let (some_byte, no_newline) = or_false _ _ on in
        let move = advance-Nearer f (some_byte, no_newline) in
        if_rule (StringRound c b.cursor) (byte == b'"') (λ _. move.0)
          λ _.
            if_rule (StringRound c b.cursor) (byte == b'\\' && b.check_escapes)
              (λ e.
                option_rule (StringRound c b.cursor) (scan_escape b.cursor) (λ _. move)
                  (λ c' found.
                    scan_escape-Nearer c b.cursor f
                      (backslash_byte byte (and_true (byte == b'\\') b.check_escapes e).0) c'
                      found))
              (λ _. move)

string≢eof : (b : Bool) → (if b then bytes else string) ≢ eof
string≢eof true e = cc
string≢eof false e = cc

finish_string-Scans :
    (lexer : Lexer) (type : TokenType) (b : Body)
    → type ≢ eof
    → IsNested lexer.mode lexer.frames
    → IsReady lexer
    → Forward lexer.cursor b.cursor
    → lexer.cursor.pos < b.cursor.pos
    → Scans (measure lexer) lexer.cursor (finish_string lexer type b)
unfolding finish_string
finish_string-Scans lexer type b no_eof nested ready f moved =
    option_rule (Scans (measure lexer) lexer.cursor) b.fault
      (λ _. token-Scans lexer b.cursor type no_eof nested ready f moved)
      (λ e _. error-Scans lexer b.cursor e nested ready f moved)

-- The opening of a string or a bytes literal: one byte or two.
abbrev pub HasOpening : Bool → Cursor → Type 0
HasOpening is_bytes c = HasBytes (if is_bytes then 2 else 1) c.rest

pub scan_string-Scans :
    (is_bytes : Bool) (lexer : Lexer)
    → IsNested lexer.mode lexer.frames
    → IsReady lexer
    → HasOpening is_bytes lexer.cursor
    → Returns (scan_string is_bytes lexer) (Scans (measure lexer) lexer.cursor)
unfolding scan_string
scan_string-Scans is_bytes lexer nested ready opening =
    let c = lexer.cursor in
    let k = if is_bytes then 2 else 1 in
    let opened = advance_by k c in
    let near = advance_by-Nearer_pos k (ground arith) stay opening in
    bind_rule (λ b. Forward opened b.cursor) _
      (loop (suc (size c)) (string_round c)
        (record { cursor = opened; fault = none; check_escapes = true }))
      _
      (loop_rule (λ b. Forward opened b.cursor) (λ b. Forward opened b.cursor) (λ b. size b.cursor)
        (string_round c) (λ b f. string_round-Nearer c opened b f) (suc (size c))
        (record { cursor = opened; fault = none; check_escapes = true }) (omega (arith, near.1))
        stay)
      (λ b f.
        finish_string-Scans lexer _ b (string≢eof is_bytes) nested ready (Forward-trans near.0 f)
          (omega (arith, near.1, Forward-Keeps f, Forward-Keeps near.0)))

-- The loop is only given up where the diagnostics are full.
abbrev IsExplained : RawEnd → DiagList → Type 0
IsExplained closed diags = Unit {0}
IsExplained cap_reached diags = IsFull diags
IsExplained at_end_of_input diags = Unit {0}

abbrev RawStop : Cursor → RawEnd × Raw → Type 0
RawStop c e = Forward c e.1.cursor × IsExplained e.0 e.1.diags

abbrev RawRound : Cursor → Cursor → Round Raw (RawEnd × Raw) → Type 0
RawRound c d r = Does r (λ s. Nearer c d s.cursor) (RawStop c)

raw_round-Nearer : (c : Cursor) (r : Raw) → Forward c r.cursor → RawRound c r.cursor (raw_round r)
unfolding raw_round
raw_round-Nearer c r f =
    if_rule (RawRound c r.cursor) (is_at_end r.cursor) (λ _. (f, tt))
      λ some_byte.
        if_rule (RawRound c r.cursor) (current r.cursor == b'`')
          (λ e. (
            past_byte f (
                IsPlain-IsOnByte r.cursor
                  (test-IsPlain (current r.cursor) b'`' (omega arith, refl) e)),
            tt,
          ))
          λ _.
            if_rule (RawRound c r.cursor) (is_newline (current r.cursor))
              (λ on.
                let near = consume_newline-Nearer r.diags f on in
                if_rule (RawRound c r.cursor) (is_ok (consume_newline r.cursor r.diags).0)
                  (λ _. near) (λ bad. (near.0, consume_newline-IsFull r.cursor r.diags bad)))
              (λ off. advance-Nearer f (some_byte, off))

raw_string≢eof : raw_string ≢ eof
raw_string≢eof e = cc

finish_raw_string-Scans :
    (lexer : Lexer) (end : RawEnd) (r : Raw)
    → IsNested lexer.mode lexer.frames
    → IsReady lexer
    → Forward lexer.cursor r.cursor
    → lexer.cursor.pos < r.cursor.pos
    → IsExplained end r.diags
    → Scans (measure lexer) lexer.cursor (finish_raw_string lexer end r)
unfolding finish_raw_string
finish_raw_string-Scans lexer closed r nested ready f moved full =
    token-Scans (record lexer { diags = r.diags }) r.cursor raw_string raw_string≢eof nested ready f
      moved
finish_raw_string-Scans lexer cap_reached r nested ready f moved full =
    make_eof-Scans _ lexer.cursor (record lexer { cursor = r.cursor; diags = r.diags }) f nested
      ready full
finish_raw_string-Scans lexer at_end_of_input r nested ready f moved full =
    error-Scans (record lexer { diags = r.diags }) r.cursor _ nested ready f moved

pub scan_raw_string-Scans :
    (lexer : Lexer)
    → IsNested lexer.mode lexer.frames
    → IsReady lexer
    → IsOnByte lexer.cursor
    → Returns (scan_raw_string lexer) (Scans (measure lexer) lexer.cursor)
unfolding scan_raw_string
scan_raw_string-Scans lexer nested ready on =
    let c = lexer.cursor in
    let near = advance-Nearer stay on in
    bind_rule (RawStop (advance c)) _
      (loop (suc (size c)) raw_round (record { cursor = advance c; diags = lexer.diags })) _
      (loop_rule (λ r. Forward (advance c) r.cursor) (RawStop (advance c)) (λ r. size r.cursor)
        raw_round (λ r f. raw_round-Nearer (advance c) r f) (suc (size c))
        (record { cursor = advance c; diags = lexer.diags }) (omega (arith, near.1)) stay)
      (λ e h.
        finish_raw_string-Scans lexer e.0 e.1 nested ready (Forward-trans near.0 h.0)
          (omega (arith, near.1, Forward-Keeps h.0, Forward-Keeps near.0)) h.1)

-- ===== src/Lexer/NumberScans.antt =====
-- Scanning a number ends, and takes at least its first byte.
use mslang_cc.Base.{
  Bool, true, false, not, ◌&&◌, ◌||◌, some, ℕ, suc, ◌<◌, ◌≡◌, refl, sym, ◌∙◌, ◌≢◌, inl, inr, arith,
  ◌==◌, if◌then◌else◌,
}
use mslang_cc.Base.Loop.{Round, ◌>>=◌, Returns, Does, if_rule, option_rule, bind_rule, loop_rule}
use mslang_cc.Base.Text.{codes}
use mslang_cc.Lexer.Tokens.{eof, int, float}
use mslang_cc.Lexer.Cursor.{
  Cursor, current, lookahead, advance, advance_by, is_ident_continue, is_digit, is_base_digit,
}
use mslang_cc.Lexer.State.{Lexer}
use mslang_cc.Lexer.Forward.{
  and_true, not-false, false≢true, or_first, IsOnByte, Forward, stay, past_byte, Forward-trans,
  size, advance-Keeps, Forward-Keeps, Forward-same, Nearer, advance-Nearer, HasBytes,
  advance_by-Nearer, IsPlain, IsPlain-IsOnByte, IsPlain-HasBytes, test-IsPlain,
}
use mslang_cc.Lexer.Trivia.{skip_while}
use mslang_cc.Lexer.Skipping.{skip_while-Forward}
use mslang_cc.Lexer.Progress.{IsNested, measure, IsReady, Scans, token-Scans, error-Scans}
use mslang_cc.Lexer.Numbers.{
  Digits, Run, is_exponent, digits_round, scan_digits, Number, need_digit, of_run, prefix_base,
  skip_if, prefixed_number, after_digits, fraction, mantissa, no_fault, exponent, finish_number,
  scan_number,
}

ident_byte : (b : ℕ) → is_ident_continue b ≡ true → IsPlain b
unfolding is_ident_continue
ident_byte b e = (ground arith, ground arith)

base_digit_byte : (base b : ℕ) → is_base_digit base b ≡ true → IsPlain b
unfolding is_base_digit
base_digit_byte base b e = (ground arith, ground arith)

digit-base_digit : (b : ℕ) → is_digit b ≡ true → is_base_digit 10 b ≡ true
unfolding is_base_digit
digit-base_digit b e = ground arith

abbrev RunFrom : ℕ → Cursor → Run → Type 0
RunFrom base c run = Forward c run.cursor × (is_base_digit base (current run.cursor) ≡ false)

abbrev DigitsRound : ℕ → Cursor → Cursor → Round Digits Run → Type 0
DigitsRound base c d r = Does r (λ s. Nearer c d s.cursor) (RunFrom base c)

digits_round-Nearer :
    (base : ℕ) (stop : Bool) (c : Cursor) (d : Digits)
    → Forward c d.cursor
    → DigitsRound base c d.cursor (digits_round base stop d)
unfolding digits_round
digits_round-Nearer base stop c d f =
    let b = current d.cursor in
    if_rule (DigitsRound base c d.cursor) (is_base_digit base b)
      (λ e. advance-Nearer f (IsPlain-IsOnByte d.cursor (base_digit_byte base b e)))
      λ other.
        if_rule (DigitsRound base c d.cursor) (b == b'_')
          (λ e.
            if_rule (DigitsRound base c d.cursor) (d.count == 0 || d.last_underscore)
              (λ _. (f, other))
              (λ _.
                advance-Nearer f
                  (IsPlain-IsOnByte d.cursor (test-IsPlain b b'_' (omega arith, refl) e))))
          λ _.
            if_rule (DigitsRound base c d.cursor) (stop && is_exponent b) (λ _. (f, other))
              λ _.
                if_rule (DigitsRound base c d.cursor) (is_ident_continue b) (λ _. (f, other))
                  (λ _. (f, other))

scan_digits-RunFrom :
    (base : ℕ) (stop : Bool) (c : Cursor) → Returns (scan_digits base stop c) (RunFrom base c)
unfolding scan_digits
scan_digits-RunFrom base stop c =
    loop_rule (λ s. Forward c s.cursor) (RunFrom base c) (λ s. size s.cursor)
      (digits_round base stop) (λ s f. digits_round-Nearer base stop c s f) (suc (size c))
      (record { cursor = c; count = 0; last_underscore = false }) (omega arith) stay

-- A literal that took at least one byte.
abbrev NumberFrom : Cursor → Number → Type 0
NumberFrom c n = Forward c n.cursor × (c.pos < n.cursor.pos) × (n.type_of ≢ eof)

int≢eof : int ≢ eof
int≢eof e = cc

float≢eof : float ≢ eof
float≢eof e = cc

-- On from a byte past the start.
later : {c d : Cursor} (e : Cursor) → Nearer c c d → Forward d e → Forward c e × (c.pos < e.pos)
later e (f, fewer) g = (Forward-trans f g, omega (arith, Forward-Keeps f, Forward-Keeps g, fewer))

skip_if-Forward : (b : Bool) (c : Cursor) → (b ≡ true → IsOnByte c) → Forward c (skip_if b c)
skip_if-Forward b c h = if_rule (Forward c) b (λ e. past_byte stay (h e)) (λ _. stay)

dot_byte : (c : Cursor) → (current c == b'.') ≡ true → IsOnByte c
dot_byte c e = IsPlain-IsOnByte c (test-IsPlain _ b'.' (omega arith, refl) e)

-- Digits behind at least one byte.
more_digits :
    (build : Run → Number) (base : ℕ) (stop : Bool) (c d : Cursor)
    → ((run : Run) → ((build run).cursor ≡ run.cursor) × ((build run).type_of ≢ eof))
    → Nearer c c d
    → Returns (scan_digits base stop d >>= λ run. some (build run)) (NumberFrom c)
more_digits build base stop c d kept near =
    bind_rule (RunFrom base d) (NumberFrom c) (scan_digits base stop d) (λ run. some (build run))
      (scan_digits-RunFrom base stop d)
      (λ run r.
        let (f, moved) = later run.cursor near r.0 in
        let (same, no_eof) = kept run in rw same (f, moved, no_eof))

after_digits-NumberFrom :
    (c : Cursor) (run : Run)
    → Forward c run.cursor
    → c.pos < run.cursor.pos
    → Returns (after_digits run) (NumberFrom c)
unfolding after_digits
after_digits-NumberFrom c run f moved =
    if_rule (λ r. Returns r (NumberFrom c)) (not (current run.cursor == b'.'))
      (λ _. (f, moved, int≢eof))
      λ dot.
        let on = dot_byte run.cursor (not-false _ dot) in
        let near : Nearer c c (advance run.cursor) =
          (past_byte f on, omega (arith, Forward-Keeps f, advance-Keeps run.cursor on.0)) in
        if_rule (λ r. Returns r (NumberFrom c)) (is_digit (lookahead run.cursor))
          (λ _.
            more_digits (of_run float) 10 true c (advance run.cursor) (λ r. (refl, float≢eof)) near)
          (λ _. (near.0, (later _ near stay).1, int≢eof))

fraction-NumberFrom :
    (c : Cursor) (run : Run)
    → Forward c run.cursor
    → c.pos < run.cursor.pos
    → Returns (fraction run) (NumberFrom c)
unfolding fraction
fraction-NumberFrom c run f moved =
    option_rule (λ r. Returns r (NumberFrom c)) run.bad (λ _. after_digits-NumberFrom c run f moved)
      (λ _ _. (f, moved, int≢eof))

-- A run that starts on a digit takes it.
starts_on_digit :
    (base : ℕ) (c : Cursor) (run : Run)
    → is_base_digit base (current c) ≡ true
    → RunFrom base c run
    → c.pos < run.cursor.pos
starts_on_digit base c run digit (f, stopped) = elim (Forward-same f) [
  | inl same ↦ absurd (false≢true (sym stopped ∙ rw (← same) digit))
  | inr moved ↦ moved
]

-- The byte of a base prefix.
prefix-HasBytes : (c : Cursor) → (prefix_base c == 10) ≡ false → HasBytes 2 c.rest
unfolding prefix_base current lookahead
prefix-HasBytes c h =
    IsPlain-HasBytes c.rest (ground arith, ground arith) (ground arith, ground arith)

prefixed_number-NumberFrom :
    (base : ℕ) (c : Cursor) → HasBytes 2 c.rest → Returns (prefixed_number base c) (NumberFrom c)
unfolding prefixed_number
prefixed_number-NumberFrom base c both =
    let d = advance_by 2 c in
    let near : Nearer c c d = advance_by-Nearer 1 stay both in
    let f =
      skip_if-Forward (current d == b'_') d
        (λ e. IsPlain-IsOnByte d (test-IsPlain _ b'_' (omega arith, refl) e)) in
    let (g, moved) = later (skip_if (current d == b'_') d) near f in
    more_digits
      (λ run. record {
        cursor = run.cursor;
        type_of = int;
        decimal = false;
        fault = need_digit (codes "expected digit after base prefix") run;
      })
      base false c (skip_if (current d == b'_') d) (λ r. (refl, int≢eof))
      (g, omega (arith, Forward-Keeps g, moved))

-- Where a number starts: a digit, or a dot.
abbrev pub StartsNumber : Cursor → Type 0
StartsNumber c = (is_digit (current c) || current c == b'.') ≡ true

mantissa-NumberFrom : (c : Cursor) → StartsNumber c → Returns (mantissa c) (NumberFrom c)
unfolding mantissa
mantissa-NumberFrom c h =
    if_rule (λ r. Returns r (NumberFrom c)) (current c == b'.')
      (λ e.
        more_digits (of_run float) 10 true c (advance c) (λ r. (refl, float≢eof))
          (advance-Nearer stay (dot_byte c e)))
      λ no_dot.
        if_rule (λ r. Returns r (NumberFrom c)) (prefix_base c == 10)
          (λ _.
            bind_rule (RunFrom 10 c) (NumberFrom c) (scan_digits 10 true c) fraction
              (scan_digits-RunFrom 10 true c)
              (λ run r. fraction-NumberFrom c run r.0 (
                starts_on_digit 10 c run (digit-base_digit (current c) (or_first _ _ no_dot h)) r)))
          (λ prefix. prefixed_number-NumberFrom (prefix_base c) c (prefix-HasBytes c prefix))

exponent_byte : (b : ℕ) → is_exponent b ≡ true → IsPlain b
exponent_byte b e = (ground arith, ground arith)

sign_byte : (b : ℕ) → (b == b'+' || b == b'-') ≡ true → IsPlain b
sign_byte b e = (ground arith, ground arith)

exponent-NumberFrom :
    (c : Cursor) (n : Number) → NumberFrom c n → Returns (exponent n) (NumberFrom c)
unfolding exponent
exponent-NumberFrom c n (f, moved, no_eof) =
    if_rule (λ r. Returns r (NumberFrom c))
      (no_fault n.fault && n.decimal && is_exponent (current n.cursor))
      (λ e.
        let on =
          IsPlain-IsOnByte n.cursor
            (exponent_byte (current n.cursor) (and_true (no_fault n.fault && n.decimal) _ e).1) in
        let d = advance n.cursor in
        let g =
          skip_if-Forward (current d == b'+' || current d == b'-') d
            (λ e'. IsPlain-IsOnByte d (sign_byte _ e')) in
        let g' = Forward-trans (past_byte f on) g in
        more_digits
          (λ run. record {
            cursor = run.cursor;
            type_of = float;
            decimal = true;
            fault = need_digit (codes "expected digit in exponent") run;
          })
          10 false c (skip_if (current d == b'+' || current d == b'-') d) (λ r. (refl, float≢eof))
          (
            g',
            omega (arith, Forward-Keeps g', Forward-Keeps g, advance-Keeps n.cursor on.0, moved),
          ))
      (λ _. (f, moved, no_eof))

finish_number-Scans :
    (lexer : Lexer) (n : Number)
    → IsNested lexer.mode lexer.frames
    → IsReady lexer
    → NumberFrom lexer.cursor n
    → Scans (measure lexer) lexer.cursor (finish_number lexer n)
unfolding finish_number
finish_number-Scans lexer n nested ready (f, moved, no_eof) =
    option_rule (Scans (measure lexer) lexer.cursor) n.fault
      (λ _. token-Scans lexer n.cursor n.type_of no_eof nested ready f moved)
      (λ e _.
        let all = skip_while is_ident_continue n.cursor.rest n.cursor in
        let c : Cursor = if e.0 == 107 then all else n.cursor in
        let g : Forward n.cursor c =
          if_rule (Forward n.cursor) (e.0 == 107)
            (λ _.
              skip_while-Forward is_ident_continue (λ b k. (ident_byte b k).1) n.cursor n.cursor
                stay)
            (λ _. stay) in
        error-Scans lexer c e nested ready (Forward-trans f g)
          (omega (arith, Forward-Keeps g, moved)))

pub scan_number-Scans :
    (lexer : Lexer)
    → IsNested lexer.mode lexer.frames
    → IsReady lexer
    → StartsNumber lexer.cursor
    → Returns (scan_number lexer) (Scans (measure lexer) lexer.cursor)
unfolding scan_number
scan_number-Scans lexer nested ready h =
    bind_rule (NumberFrom lexer.cursor) _ (mantissa lexer.cursor >>= exponent) _
      (bind_rule (NumberFrom lexer.cursor) (NumberFrom lexer.cursor) (mantissa lexer.cursor)
        exponent (mantissa-NumberFrom lexer.cursor h) (λ n k. exponent-NumberFrom lexer.cursor n k))
      (λ n k. finish_number-Scans lexer n nested ready k)

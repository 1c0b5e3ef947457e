-- ===== src/Lexer/Numbers.antt =====
-- src/lexer/ms_lexer.c: integer and float literals.
use mslang_cc.Base.{
  Bool, true, false, not, ◌&&◌, ◌||◌, Option, none, some, List, ℕ, suc, ◌+◌, ◌-◌, ◌==◌,
  if◌then◌else◌, length,
}
use mslang_cc.Base.Loop.{Round, again, leave, loop, ◌>>=◌}
use mslang_cc.Base.Text.{codes}
use mslang_cc.Lexer.Tokens.{TokenType, invalid, int, float}
use mslang_cc.Lexer.Cursor.{
  Cursor, current, lookahead, advance, advance_by, is_ident_continue, is_digit, is_base_digit,
}
use mslang_cc.Lexer.State.{Lexer, Scanned, make_token, commit_token, report_token}
use mslang_cc.Lexer.Trivia.{skip_while}

-- The variables of the loop in `msLexerScanDigits`.
pub record Digits : Type 0 where
  pub cursor : Cursor
  pub count : ℕ
  pub last_underscore : Bool

-- What `msLexerScanDigits` hands back; `bad` is the line and the column of a violation.
pub record Run : Type 0 where
  pub cursor : Cursor
  pub count : ℕ
  pub bad : Option (ℕ × ℕ)

abbrev pub bad_here : Digits → Run
bad_here d = record {
  cursor = d.cursor;
  count = d.count;
  bad = some (d.cursor.line, d.cursor.column);
}

abbrev pub end_run : Digits → Run
end_run d = record {
  cursor = d.cursor;
  count = d.count;
  bad = if d.last_underscore then some (d.cursor.line, d.cursor.column - 1) else none;
}

abbrev pub is_exponent : ℕ → Bool
is_exponent c = c == b'e' || c == b'E'

-- The body of the loop in `msLexerScanDigits`.
unfoldable pub digits_round : ℕ → Bool → Digits → Round Digits Run
unfolding current advance is_base_digit is_ident_continue
digits_round base stop_at_exponent d =
    let c = current d.cursor in
    if is_base_digit base c
    then again (record { cursor = advance d.cursor; count = d.count + 1; last_underscore = false })
    else if c == b'_'
    then (if d.count == 0 || d.last_underscore
        then leave (bad_here d)
        else again (record d { cursor = advance d.cursor; last_underscore = true }))
    else if stop_at_exponent && is_exponent c
    then leave (end_run d)
    else if is_ident_continue c
    then leave (bad_here d)
    else leave (end_run d)

-- `msLexerScanDigits`
unfoldable pub scan_digits : ℕ → Bool → Cursor → Option Run
unfolding digits_round loop
scan_digits base stop_at_exponent c =
    loop (suc (length c.rest)) (digits_round base stop_at_exponent)
      (record { cursor = c; count = 0; last_underscore = false })

-- The locals of `msLexerScanNumber`: `fault` is the code, the place and the message of an error.
pub record Number : Type 0 where
  pub cursor : Cursor
  pub type_of : TokenType
  pub decimal : Bool
  pub fault : Option (ℕ × ℕ × ℕ × List ℕ)

abbrev pub invalid_number : List ℕ
invalid_number = codes "invalid number literal"

abbrev pub bad_run : Option (ℕ × ℕ) → Option (ℕ × ℕ × ℕ × List ℕ)
bad_run none = none
bad_run (some (line, column)) = some (107, line, column, invalid_number)

-- A run that needs a digit.
abbrev pub need_digit : List ℕ → Run → Option (ℕ × ℕ × ℕ × List ℕ)
need_digit message run = elim run.bad [
  | some (line, column) ↦ some (107, line, column, invalid_number)
  | none ↦ if run.count == 0 then some (107, run.cursor.line, run.cursor.column, message) else none
]

abbrev pub of_run : TokenType → Run → Number
of_run type run = record {
  cursor = run.cursor;
  type_of = type;
  decimal = true;
  fault = bad_run run.bad;
}

-- the base that a prefix of two bytes gives
unfoldable pub prefix_base : Cursor → ℕ
unfolding current lookahead
prefix_base c =
    let next = lookahead c in
    if not (current c == b'0')
    then 10
    else if next == b'x' || next == b'X'
    then 16
    else if next == b'o' || next == b'O'
    then 8
    else if next == b'b' || next == b'B'
    then 2
    else 10

-- An optional byte, consumed if it is there.
abbrev pub skip_if : Bool → Cursor → Cursor
skip_if b c = if b then advance c else c

-- the literal behind a base prefix
unfoldable pub prefixed_number : ℕ → Cursor → Option Number
unfolding current advance advance_by scan_digits
prefixed_number base c = do
  let digits = advance_by 2 c
  run ← scan_digits base false (skip_if (current digits == b'_') digits)
  some (record {
    cursor = run.cursor;
    type_of = int;
    decimal = false;
    fault = need_digit (codes "expected digit after base prefix") run;
  })

-- a dot behind the digits, and what follows it
unfoldable pub after_digits : Run → Option Number
unfolding current lookahead advance is_digit scan_digits
after_digits run =
    if not (current run.cursor == b'.')
    then some (of_run int run)
    else if is_digit (lookahead run.cursor)
    then (scan_digits 10 true (advance run.cursor) >>= λ frac. some (of_run float frac))
    else some (record {
      cursor = advance run.cursor;
      type_of = int;
      decimal = true;
      fault = some (108, run.cursor.line, run.cursor.column, codes "expected digit after '.'");
    })

unfoldable pub fraction : Run → Option Number
unfolding after_digits
fraction run = elim run.bad [ some _ ↦ some (of_run int run) | none ↦ after_digits run ]

unfoldable pub mantissa : Cursor → Option Number
unfolding current advance scan_digits prefix_base prefixed_number fraction
mantissa c =
    if current c == b'.'
    then (scan_digits 10 true (advance c) >>= λ run. some (of_run float run))
    else if prefix_base c == 10
    then (scan_digits 10 true c >>= fraction)
    else prefixed_number (prefix_base c) c

abbrev pub no_fault : Option (ℕ × ℕ × ℕ × List ℕ) → Bool
no_fault none = true
no_fault (some e) = false

-- the exponent, where there is one
unfoldable pub exponent : Number → Option Number
unfolding current advance scan_digits
exponent n =
    if no_fault n.fault && n.decimal && is_exponent (current n.cursor)
    then (do
      let c = advance n.cursor
      run ← scan_digits 10 false (skip_if (current c == b'+' || current c == b'-') c)
      some (record {
        cursor = run.cursor;
        type_of = float;
        decimal = true;
        fault = need_digit (codes "expected digit in exponent") run;
      }))
    else some n

-- the end of `msLexerScanNumber`; the error 107 covers the rest of the would-be literal
unfoldable pub finish_number : Lexer → Number → Scanned
unfolding commit_token report_token make_token skip_while is_ident_continue
finish_number lexer n = elim n.fault [
  | none ↦
      commit_token (make_token n.type_of lexer.cursor n.cursor) (record lexer { cursor = n.cursor })
  | some (code, line, column, message) ↦
      let c =
        if code == 107 then skip_while is_ident_continue n.cursor.rest n.cursor else n.cursor in
      report_token (code, line, column, message) (make_token invalid lexer.cursor c)
        (record lexer { cursor = c })
]

-- `msLexerScanNumber`
unfoldable pub scan_number : Lexer → Option Scanned
unfolding mantissa exponent finish_number
scan_number lexer = mantissa lexer.cursor >>= exponent >>= λ n. some (finish_number lexer n)

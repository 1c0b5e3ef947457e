-- ===== src/Lexer/OperatorBytes.antt =====
-- The operators that depend on their bytes only take these bytes.
use mslang_cc.Base.{Bool, not, ◌&&◌, ◌||◌, Option, none, some, ℕ, refl, ◌≢◌, arith, ◌==◌}
use mslang_cc.Base.Loop.{if_rule}
use mslang_cc.Lexer.Tokens.{
  TokenType, eof, plus, minus, star, slash, percent, double_star, equal_equal, less, less_equal,
  greater, greater_equal, amp, pipe, caret, shift_left, shift_right, equal, plus_equal, minus_equal,
  star_equal, slash_equal, percent_equal, double_star_equal, amp_equal, pipe_equal, caret_equal,
  shift_left_equal, shift_right_equal, plus_plus, minus_minus,
}
use mslang_cc.Lexer.Cursor.{Cursor, is_at_end, current, lookahead, match_byte}
use mslang_cc.Lexer.Forward.{
  or_false, not-false, Forward, stay, past_byte, Forward-trans, advance_by-Forward, IsPlain,
  IsPlain-IsOnByte, test-IsPlain,
}
use mslang_cc.Lexer.Skipping.{mark-HasBytes}
use mslang_cc.Lexer.Operators.{with_equal, doubled, doubled_equal, dots, plain_operator}

abbrev pub TypeFrom : Cursor → TokenType × Cursor → Type 0
TypeFrom c (type, d) = Forward c d × (type ≢ eof)

pub match_byte-Forward : (byte : ℕ) (c : Cursor) → IsPlain byte → Forward c (match_byte byte c).1
unfolding match_byte
match_byte-Forward byte c plain =
    if_rule (λ (r : Bool × Cursor). Forward c r.1) (is_at_end c || not (current c == byte))
      (λ _. stay)
      (λ e. past_byte stay (
        IsPlain-IsOnByte c (
          test-IsPlain (current c) byte plain
            (not-false _ (or_false (is_at_end c) (not (current c == byte)) e).1))))

with_equal-TypeFrom :
    (longer shorter : TokenType) (c d : Cursor)
    → longer ≢ eof
    → shorter ≢ eof
    → Forward c d
    → TypeFrom c (with_equal longer shorter d)
unfolding with_equal
with_equal-TypeFrom longer shorter c d hl hs f = (
  Forward-trans f (match_byte-Forward b'=' d (omega arith, refl)),
  if_rule (λ t. t ≢ eof) (match_byte b'=' d).0 (λ _. hl) (λ _. hs),
)

doubled-TypeFrom :
    (byte : ℕ) (twice longer shorter : TokenType) (c : Cursor)
    → IsPlain byte
    → twice ≢ eof
    → longer ≢ eof
    → shorter ≢ eof
    → TypeFrom c (doubled byte twice longer shorter c)
unfolding doubled
doubled-TypeFrom byte twice longer shorter c plain ht hl hs =
    if_rule (TypeFrom c) (match_byte byte c).0 (λ _. (match_byte-Forward byte c plain, ht))
      (λ _. with_equal-TypeFrom longer shorter c c hl hs stay)

doubled_equal-TypeFrom :
    (byte : ℕ) (twice_equal twice longer shorter : TokenType) (c : Cursor)
    → IsPlain byte
    → twice_equal ≢ eof
    → twice ≢ eof
    → longer ≢ eof
    → shorter ≢ eof
    → TypeFrom c (doubled_equal byte twice_equal twice longer shorter c)
unfolding doubled_equal
doubled_equal-TypeFrom byte twice_equal twice longer shorter c plain he ht hl hs =
    if_rule (TypeFrom c) (match_byte byte c).0
      (λ _. with_equal-TypeFrom twice_equal twice c _ he ht (match_byte-Forward byte c plain))
      (λ _. with_equal-TypeFrom longer shorter c c hl hs stay)

dots-TypeFrom : (c : Cursor) → TypeFrom c (dots c)
unfolding dots
dots-TypeFrom c =
    if_rule (TypeFrom c) (current c == b'.' && lookahead c == b'.')
      (λ e. (
        advance_by-Forward 2 c c stay
            (mark-HasBytes c b'.' b'.' (omega arith, refl) (omega arith, refl) e),
        λ k. cc,
      ))
      (λ _. (stay, λ k. cc))

-- The byte of an operator is no newline, and its token goes on from it.
abbrev pub Operator : ℕ → Cursor → Option (TokenType × Cursor) → Type 0
Operator byte c none = Unit {0}
Operator byte c (some r) = TypeFrom c r

pub plain_operator-TypeFrom : (byte : ℕ) (c : Cursor) → Operator byte c (plain_operator byte c)
unfolding plain_operator
plain_operator-TypeFrom byte c =
    let P = Operator byte c in
    let plain : (b : ℕ) → Type 0 = λ b. IsPlain b in
    if_rule P (byte == b'+')
      (λ _.
        doubled-TypeFrom b'+' plus_plus plus_equal plus c (omega arith, refl) (λ e. cc) (λ e. cc)
          (λ e. cc))
      λ _.
        if_rule P (byte == b'-')
          (λ _.
            doubled-TypeFrom b'-' minus_minus minus_equal minus c (omega arith, refl) (λ e. cc)
              (λ e. cc) (λ e. cc))
          λ _.
            if_rule P (byte == b'*')
              (λ _.
                doubled_equal-TypeFrom b'*' double_star_equal double_star star_equal star c
                  (omega arith, refl) (λ e. cc) (λ e. cc) (λ e. cc) (λ e. cc))
              λ _.
                if_rule P (byte == b'/')
                  (λ _. with_equal-TypeFrom slash_equal slash c c (λ e. cc) (λ e. cc) stay)
                  λ _.
                    if_rule P (byte == b'%')
                      (λ _. with_equal-TypeFrom percent_equal percent c c (λ e. cc) (λ e. cc) stay)
                      λ _.
                        if_rule P (byte == b'=')
                          (λ _. with_equal-TypeFrom equal_equal equal c c (λ e. cc) (λ e. cc) stay)
                          λ _.
                            if_rule P (byte == b'<')
                              (λ _.
                                doubled_equal-TypeFrom b'<' shift_left_equal shift_left less_equal
                                  less c (omega arith, refl) (λ e. cc) (λ e. cc) (λ e. cc)
                                  (λ e. cc))
                              λ _.
                                if_rule P (byte == b'>')
                                  (λ _.
                                    doubled_equal-TypeFrom b'>' shift_right_equal shift_right
                                      greater_equal greater c (omega arith, refl) (λ e. cc)
                                      (λ e. cc) (λ e. cc) (λ e. cc))
                                  λ _.
                                    if_rule P (byte == b'&')
                                      (λ _.
                                        with_equal-TypeFrom amp_equal amp c c (λ e. cc) (λ e. cc)
                                          stay)
                                      λ _.
                                        if_rule P (byte == b'|')
                                          (λ _.
                                            with_equal-TypeFrom pipe_equal pipe c c (λ e. cc)
                                              (λ e. cc) stay)
                                          λ _.
                                            if_rule P (byte == b'^')
                                              (λ _.
                                                with_equal-TypeFrom caret_equal caret c c (λ e. cc)
                                                  (λ e. cc) stay)
                                              λ _.
                                                if_rule P (byte == b'~') (λ _. (stay, λ e. cc))
                                                  λ _.
                                                    if_rule P (byte == b'.') (λ _. dots-TypeFrom c)
                                                      λ _.
                                                        if_rule P (byte == b',')
                                                          (λ _. (stay, λ e. cc))
                                                          λ _.
                                                            if_rule P (byte == b';')
                                                            (λ _. (stay, λ e. cc)) (λ _. tt)

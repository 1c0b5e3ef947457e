-- ===== src/Lexer/StringBodies.antt =====
-- src/lexer/ms_lexer.c: what the loop of `msLexerScanString` has read can be decoded.
use mathlib.Core.List.{append_assoc}
use mathlib.Core.Path.{subst}
use mslang_cc.Base.{
  Bool, true, false, ◌&&◌, ◌||◌, Option, none, some, List, [], ◌∷◌, ◌++◌, ℕ, ◌≡◌, refl, sym, ap,
  ◌∙◌, ◌≢◌, ◌==◌, ==_iff, none≢some, drop,
}
use mslang_cc.Base.Loop.{Round, Does, if_rule, option_rule}
use mslang_cc.Lexer.Cursor.{
  Cursor, no_bytes, is_at_end, first, current, advance, advance_by, is_newline,
}
use mslang_cc.Lexer.Forward.{false≢true, or_false, and_true}
use mslang_cc.Lexer.Strings.{
  escape_length, scan_escape, Body, first_fault, unterminated, bad_escape, string_round,
}
use mslang_cc.Lexer.Meaning.{Decodes, done, plain, Decodes-append}
use mslang_cc.Lexer.Escapes.{advance_by-rest, escape_length-Decodable}

-- A part of `input` that can be decoded, up to `rest`.
pub record BodyUpTo (input rest : List ℕ) : Type 0 where
  pub body : List ℕ
  pub out : List ℕ
  pub split : input ≡ body ++ rest
  pub decodes : Decodes false body out

longer :
    {input rest rest' more out' : List ℕ}
    → BodyUpTo input rest
    → rest ≡ more ++ rest'
    → Decodes false more out'
    → BodyUpTo input rest'
longer {rest' = rest'} {more} {out'} b e d = record {
  body = b.body ++ more;
  out = b.out ++ out';
  split = b.split ∙ ap (λ (l : List ℕ). b.body ++ l) e ∙ sym (append_assoc b.body more rest');
  decodes = Decodes-append b.decodes d;
}

-- In the loop, as long as there is no error, what was read can be decoded.
pub record GoodSoFar (input : List ℕ) (b : Body) : Type 0 where
  pub checks : b.check_escapes ≡ true
  pub so_far : BodyUpTo input b.cursor.rest

abbrev pub Going : List ℕ → Body → Type 0
Going input b = b.fault ≡ none → GoodSoFar input b

-- The loop is left behind the closing quote.
abbrev pub Closed : List ℕ → Body → Type 0
Closed input b = b.fault ≡ none → BodyUpTo input (b'"' ∷ b.cursor.rest)

first_fault≢none :
    (f : Option (ℕ × ℕ × ℕ × List ℕ)) (e : ℕ × ℕ × ℕ × List ℕ) → first_fault f e ≢ none
first_fault≢none none e h = none≢some (sym h)
first_fault≢none (some f) e h = none≢some (sym h)

first_byte : (l : List ℕ) → no_bytes l ≡ false → l ≡ first l ∷ drop 1 l
first_byte [] h = cc
first_byte (b ∷ l) h = refl

abbrev BodyRound : List ℕ → Round Body Body → Type 0
BodyRound input r = Does r (Going input) (Closed input)

escape-Going :
    (input : List ℕ) (b : Body) {c : Cursor}
    → GoodSoFar input b
    → (current b.cursor == b'\\') ≡ true
    → scan_escape b.cursor ≡ some c
    → GoodSoFar input (record b { cursor = c })
unfolding scan_escape current
escape-Going input b {c} g backslash found =
    option_rule {B = Option Cursor} (λ r. r ≡ some c → GoodSoFar input (record b { cursor = c }))
      (escape_length b.cursor.rest) (λ _ k. absurd (none≢some k))
      (λ n length_is k.
        let d =
          escape_length-Decodable b.cursor.rest ((==_iff (first b.cursor.rest) b'\\').0 backslash)
            length_is in
        let same : advance_by n b.cursor ≡ c = cc in
        record {
          checks = g.checks;
          so_far =
              longer g.so_far
                (d.split
                  ∙ ap (λ (l : List ℕ). d.body ++ l)
                      (sym (advance_by-rest n b.cursor) ∙ ap (λ (c : Cursor). c.rest) same))
                d.decodes;
        })
      found

plain-Going :
    (input : List ℕ) (b : Body)
    → GoodSoFar input b
    → is_at_end b.cursor ≡ false
    → (current b.cursor == b'\\') ≡ false
    → GoodSoFar input (record b { cursor = advance b.cursor })
unfolding is_at_end current advance
plain-Going input b g some_byte no_slash = record {
  checks = g.checks;
  so_far = longer g.so_far (first_byte b.cursor.rest some_byte) (
      plain (first b.cursor.rest)
        (λ e. false≢true (sym no_slash ∙ (==_iff (first b.cursor.rest) b'\\').1 e))
        (λ on _. false≢true on) done);
}

quote-Closed :
    (input : List ℕ) (b : Body)
    → GoodSoFar input b
    → is_at_end b.cursor ≡ false
    → (current b.cursor == b'"') ≡ true
    → BodyUpTo input (b'"' ∷ (advance b.cursor).rest)
unfolding is_at_end current advance
quote-Closed input b g some_byte quote =
    let same : first b.cursor.rest ≡ b'"' = (==_iff (first b.cursor.rest) b'"').0 quote in
    let rest : b.cursor.rest ≡ b'"' ∷ drop 1 b.cursor.rest =
      first_byte b.cursor.rest some_byte ∙ ap (λ (c : ℕ). c ∷ drop 1 b.cursor.rest) same in
    subst (BodyUpTo input) rest g.so_far

and_false : (a b : Bool) → (a && b) ≡ false → b ≡ true → a ≡ false
and_false true b h e = cc
and_false false b h e = refl

pub string_round-Going :
    (start : Cursor) (input : List ℕ) (b : Body)
    → Going input b
    → BodyRound input (string_round start b)
unfolding string_round
string_round-Going start input b g =
    let byte = current b.cursor in
    if_rule (BodyRound input) (is_at_end b.cursor || is_newline byte)
      (λ _ no_fault. absurd (first_fault≢none b.fault (unterminated start) no_fault))
      λ inside.
        if_rule (BodyRound input) (byte == b'"')
          (λ quote no_fault.
            quote-Closed input b (g no_fault)
              (or_false (is_at_end b.cursor) (is_newline byte) inside).0 quote)
          λ no_quote.
            if_rule (BodyRound input) (byte == b'\\' && b.check_escapes)
              (λ slash.
                option_rule (BodyRound input) (scan_escape b.cursor)
                  (λ _ no_fault. absurd (first_fault≢none b.fault (bad_escape b.cursor) no_fault))
                  (λ c found no_fault.
                    escape-Going input b (g no_fault)
                      (and_true (byte == b'\\') b.check_escapes slash).0 found))
              (λ no_slash no_fault.
                plain-Going input b (g no_fault)
                  (or_false (is_at_end b.cursor) (is_newline byte) inside).0
                  (and_false (byte == b'\\') b.check_escapes no_slash (g no_fault).checks))

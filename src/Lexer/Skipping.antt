-- ===== src/Lexer/Skipping.antt =====
-- src/lexer/ms_lexer.c: skipping trivia, where it ends, and the newline it remembers.
use mslang_cc.Base.{
  Bool, true, false, not, ◌&&◌, ◌||◌, Option, none, some, List, [], ◌∷◌, ℕ, suc, ◌≤◌, ◌<◌, ◌≡◌,
  refl, ap, ◌∙◌, arith, ◌==◌, ==_iff, drop,
}
use mslang_cc.Base.Loop.{Round, again, leave, loop, Returns, Does, if_rule, bind_rule, loop_rule}
use mslang_cc.Proto.{MsResult, is_ok}
use mslang_cc.Lexer.Cursor.{
  Cursor, no_bytes, is_at_end, first, second, current, lookahead, advance, advance_by, is_newline,
}
use mslang_cc.Lexer.Forward.{
  IsPlain-IsOnByte, test-IsPlain, IsPlain-HasBytes, IsPlain, and_true, not-true, IsOnByte,
  IsOnNewline, Forward, stay, past_byte, past_newline, Forward-trans, size, advance-Keeps,
  Forward-Keeps, Nearer, advance-Nearer, consume_newline-Nearer, HasBytes, advance_by-Nearer,
}
use mslang_cc.Lexer.Full.{FullUnless, lexer_error-IsFull, cross_newline-IsFull}
use mslang_cc.Lexer.Trivia.{
  Newline, Trivia, note_newline, skip_while, skip_line_comment, cross_newline, block_comment_round,
  skip_block_comment, after_comment, trivia_round, skip_trivia,
}

-- The newline is one on the way from `c` to `d`.
abbrev pub Crossed : Cursor → Cursor → Option Newline → Type 0
Crossed c d none = Unit {0}
Crossed c d (some n) =
    (e : Cursor) × Forward c e
    × Forward e d
    × (n.pos ≡ e.pos)
    × (n.line ≡ e.line)
    × (n.column ≡ e.column)

Crossed-later : (c d e : Cursor) (n : Option Newline) → Forward d e → Crossed c d n → Crossed c e n
Crossed-later c d e none f h = tt
Crossed-later c d e (some n) f (m, before, after, pos, line, column) =
    (m, before, Forward-trans after f, pos, line, column)

abbrev pub Skipped : Cursor → Trivia → Type 0
Skipped c t = Forward c t.cursor × Crossed c t.cursor t.newline

Crossed-note_newline :
    (c d e : Cursor) (n : Option Newline)
    → Forward c d
    → Forward d e
    → Crossed c d n
    → Crossed c e (note_newline d n)
unfolding note_newline
Crossed-note_newline c d e none before after h = (d, before, after, refl, refl, refl)
Crossed-note_newline c d e (some n) before after h = Crossed-later c d e (some n) after h

-- Skipped from `c`, and nearer to the end than `d`.
abbrev pub Skips : Cursor → Cursor → Trivia → Type 0
Skips c d t = Skipped c t × (size t.cursor < size d)

cross_newline-Skips :
    (c : Cursor) (t : Trivia)
    → Skipped c t
    → IsOnNewline t.cursor
    → Skips c t.cursor (cross_newline t).1
unfolding cross_newline
cross_newline-Skips c t (f, h) on =
    let (f', less) = consume_newline-Nearer t.diags f on in
    ((f', Crossed-note_newline c t.cursor _ t.newline f (past_newline t.diags stay on) h), less)

move-Skips :
    (c : Cursor) (t : Trivia) (e : Cursor)
    → Skipped c t
    → Forward t.cursor e
    → Skipped c (record t { cursor = e })
move-Skips c t e (f, h) g = (Forward-trans f g, Crossed-later c t.cursor e t.newline g h)

skip_bytes-Forward :
    (p : ℕ → Bool)
    → ((b : ℕ) → p b ≡ true → is_newline b ≡ false)
    → (bytes : List ℕ) (c d : Cursor) → d.rest ≡ bytes
    → Forward c d
    → Forward c (skip_while p bytes d)
unfolding skip_while is_at_end current
skip_bytes-Forward p avoids [] c d e f = f
skip_bytes-Forward p avoids (b ∷ r) c d e f =
    if_rule (Forward c) (p b)
      (λ h.
        skip_bytes-Forward p avoids r c (advance d) (unfold advance in ap (drop 1) e)
          (past_byte f (ap no_bytes e, ap (λ l. is_newline (first l)) e ∙ avoids b h)))
      (λ _. f)

pub skip_while-Forward :
    (p : ℕ → Bool)
    → ((b : ℕ) → p b ≡ true → is_newline b ≡ false)
    → (c d : Cursor) → Forward c d
    → Forward c (skip_while p d.rest d)
skip_while-Forward p avoids c d f = skip_bytes-Forward p avoids d.rest c d refl f

-- A run that starts on a byte of it takes that byte.
skip_bytes-after :
    (p : ℕ → Bool)
    → ((b : ℕ) → p b ≡ true → is_newline b ≡ false)
    → (bytes : List ℕ) (d : Cursor) → d.rest ≡ bytes
    → no_bytes bytes ≡ false
    → p (first bytes) ≡ true
    → Forward (advance d) (skip_while p bytes d)
unfolding skip_while
skip_bytes-after p avoids [] d e some_byte h = cc
skip_bytes-after p avoids (b ∷ r) d e some_byte h =
    rw h
      (skip_bytes-Forward p avoids r (advance d) (advance d) (unfold advance in ap (drop 1) e) stay)

pub skip_while-Nearer :
    (p : ℕ → Bool)
    → ((b : ℕ) → p b ≡ true → is_newline b ≡ false)
    → (d : Cursor) → is_at_end d ≡ false
    → p (current d) ≡ true
    → Nearer d d (skip_while p d.rest d)
unfolding current is_at_end
skip_while-Nearer p avoids d some_byte h =
    let f = skip_bytes-after p avoids d.rest d refl some_byte h in
    let on : IsOnByte d = (some_byte, avoids (first d.rest) h) in
    (Forward-trans (past_byte stay on) f, omega (arith, Forward-Keeps f, advance-Keeps d some_byte))

-- Both bytes of a two-byte mark.
pub mark-HasBytes :
    (c : Cursor) (x y : ℕ)
    → IsPlain x
    → IsPlain y
    → (current c == x && lookahead c == y) ≡ true
    → HasBytes 2 c.rest
unfolding current lookahead
mark-HasBytes c x y hx hy e =
    let (ex, ey) = and_true (first c.rest == x) (second c.rest == y) e in
    IsPlain-HasBytes c.rest (test-IsPlain _ x hx ex) (test-IsPlain _ y hy ey)

abbrev Stops : Cursor → Cursor → Trivia → Type 0
Stops c d t = Skipped c t × (size t.cursor ≤ size d)

abbrev BlockRound : Cursor → Cursor → Round Trivia (MsResult × Trivia) → Type 0
BlockRound c d r =
    Does r (Skips c d) (λ (x : MsResult × Trivia). Stops c d x.1 × FullUnless x.0 x.1.diags)

block_comment_round-Skips :
    (c : Cursor) (line column : ℕ) (t : Trivia)
    → Skipped c t
    → BlockRound c t.cursor (block_comment_round line column t)
unfolding block_comment_round
block_comment_round-Skips c line column t h =
    if_rule (BlockRound c t.cursor) (is_at_end t.cursor)
      (λ _. ((h, omega arith), lexer_error-IsFull _ _ _ _ t.diags))
      λ more.
        if_rule (BlockRound c t.cursor) (is_newline (current t.cursor))
          (λ on.
            let s = cross_newline-Skips c t h on in
            if_rule (BlockRound c t.cursor) (is_ok (cross_newline t).0) (λ _. s)
              (λ bad. ((s.0, omega (arith, s.1)), λ _. cross_newline-IsFull t bad)))
          λ off.
            if_rule (BlockRound c t.cursor) (current t.cursor == b'*' && lookahead t.cursor == b'/')
              (λ e.
                let both =
                  mark-HasBytes t.cursor b'*' b'/' (omega arith, refl) (omega arith, refl) e in
                let (f, less) = advance_by-Nearer 1 stay both in
                ((move-Skips c t _ h f, omega (arith, less)), λ e. cc))
              (λ _. let (f, less) = advance-Nearer stay (more, off) in (move-Skips c t _ h f, less))

skip_block_comment-Skips :
    (c : Cursor) (t : Trivia)
    → Skipped c t
    → HasBytes 2 t.cursor.rest
    → Returns (skip_block_comment t) (λ r. Skips c t.cursor r.1 × FullUnless r.0 r.1.diags)
unfolding skip_block_comment
skip_block_comment-Skips c t h two =
    let (f, less) = advance_by-Nearer 1 stay two in
    let start : Trivia = record t { cursor = advance_by 2 t.cursor } in
    loop_rule (λ s. Skipped c s × (size s.cursor < size t.cursor))
      (λ (r : MsResult × Trivia). Skips c t.cursor r.1 × FullUnless r.0 r.1.diags)
      (λ s. size s.cursor) (block_comment_round t.cursor.line t.cursor.column)
      (λ s k.
        weaken (block_comment_round t.cursor.line t.cursor.column s) s k.1
          (block_comment_round-Skips c _ _ s k.0))
      (suc (size t.cursor)) start (omega arith) (move-Skips c t _ h f, less)
  where
    weaken :
        (r : Round Trivia (MsResult × Trivia)) (s : Trivia)
        → size s.cursor < size t.cursor
        → BlockRound c s.cursor r
        → Does r
            (λ s'.
              (Skipped c s' × (size s'.cursor < size t.cursor)) × (size s'.cursor < size s.cursor))
            (λ (x : MsResult × Trivia). Skips c t.cursor x.1 × FullUnless x.0 x.1.diags)
    weaken (again s') s k h = ((h.0, omega (arith, h.1, k)), h.1)
    weaken (leave x) s k h = ((h.0.0, omega (arith, h.0.1, k)), h.1)

abbrev Ending : Cursor → Option (MsResult × Trivia) → Type 0
Ending c x = Returns x (λ r.
    Skipped c r.1
    × (is_ok r.0 ≡ true → is_newline (current r.1.cursor) ≡ false)
    × FullUnless r.0 r.1.diags)

abbrev TriviaRound : Cursor → Cursor → Round Trivia (Option (MsResult × Trivia)) → Type 0
TriviaRound c d r = Does r (Skips c d) (Ending c)

after_comment-Ending :
    (c d : Cursor) (x : Option (MsResult × Trivia))
    → Returns x (λ r. Skips c d r.1 × FullUnless r.0 r.1.diags)
    → TriviaRound c d (after_comment x)
after_comment-Ending c d none h = h
after_comment-Ending c d (some (result, t)) h =
    if_rule (TriviaRound c d) (is_ok result) (λ _. h.0) (λ bad. (h.0.0, (λ e. cc), λ _. h.1 bad))

blank-IsPlain : (b : ℕ) → (b == b' ' || b == b'\t') ≡ true → IsPlain b
blank-IsPlain b e = (ground arith, ground arith)

line_comment-Nearer :
    (c : Cursor)
    → (current c == b'/' && lookahead c == b'/') ≡ true
    → Nearer c c (skip_line_comment c)
unfolding skip_line_comment
line_comment-Nearer c e =
    let one = (==_iff (current c) b'/').0 (and_true _ _ e).0 in
    let plain : IsPlain (current c) = rw one ((omega arith), refl) in
    skip_while-Nearer (λ b. not (is_newline b)) (λ b h. not-true _ h) c (IsPlain-IsOnByte c plain).0
      (rw one refl)

trivia_round-Skips :
    (c : Cursor) (t : Trivia) → Skipped c t → TriviaRound c t.cursor (trivia_round t)
unfolding trivia_round
trivia_round-Skips c t h =
    let b = current t.cursor in
    if_rule (TriviaRound c t.cursor) (b == b' ' || b == b'\t')
      (λ e.
        let (f, less) = advance-Nearer stay (IsPlain-IsOnByte t.cursor (blank-IsPlain b e)) in
        (move-Skips c t _ h f, less))
      λ _.
        if_rule (TriviaRound c t.cursor) (is_newline b)
          (λ on.
            let s = cross_newline-Skips c t h on in
            if_rule (TriviaRound c t.cursor) (is_ok (cross_newline t).0) (λ _. s)
              (λ bad. (s.0, (λ e. cc), λ _. cross_newline-IsFull t bad)))
          λ off.
            if_rule (TriviaRound c t.cursor) (b == b'/' && lookahead t.cursor == b'/')
              (λ e. let (f, less) = line_comment-Nearer t.cursor e in (move-Skips c t _ h f, less))
              λ _.
                if_rule (TriviaRound c t.cursor) (b == b'/' && lookahead t.cursor == b'*')
                  (λ e. after_comment-Ending c t.cursor _ (
                    skip_block_comment-Skips c t h
                      (mark-HasBytes t.cursor b'/' b'*' (omega arith, refl) (omega arith, refl) e)))
                  (λ _. (h, (λ _. off), λ e. cc))

pub skip_trivia-Skips : (t : Trivia) → Skipped t.cursor t → Ending t.cursor (skip_trivia t)
unfolding skip_trivia
skip_trivia-Skips t h =
    bind_rule (Ending t.cursor) _ (loop (suc (size t.cursor)) trivia_round t) (λ r. r)
      (loop_rule (Skipped t.cursor) (Ending t.cursor) (λ s. size s.cursor) trivia_round
        (λ s k. trivia_round-Skips t.cursor s k) (suc (size t.cursor)) t (omega arith) h)
      (λ x k. k)

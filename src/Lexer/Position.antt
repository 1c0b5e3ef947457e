-- ===== src/Lexer/Position.antt =====
-- Lines and columns: a description by the source alone, and that the cursor keeps to it.
use mslang_cc.Base.{
  true, false, not, ◌&&◌, ◌||◌, List, [], ◌∷◌, ℕ, zero, suc, ◌+◌, ◌≤◌, ◌<◌, ◌≡◌, refl, sym, ap, ◌∙◌,
  ◌≢◌, inl, inr, arith, ◌==◌, if◌then◌else◌, length, drop, List-cases,
}
use mslang_cc.Base.Loop.{if_rule}
use mslang_cc.Diag.{DiagList}
use mslang_cc.Lexer.Cursor.{
  Cursor, no_bytes, is_at_end, first, second, current, advance, next_line, consume_newline,
  is_newline,
}
use mslang_cc.Lexer.Forward.{
  false≢true, IsOnByte, IsOnNewline, Forward, stay, past_byte, past_newline, consume_newline-cases,
}
use mslang_cc.Lexer.Scan.{start_cursor}

-- Behind a byte `b` that `r` follows: a new line after `\n`, and after a `\r` that no `\n` follows.
abbrev pub bump : ℕ → List ℕ → ℕ × ℕ → ℕ × ℕ
bump b r p =
    if b == b'\n' || (b == b'\r' && not (first r == b'\n')) then (p.0 + 1, 1) else (p.0, p.1 + 1)

-- The line and the column `n` bytes further on.
unfoldable pub walk : List ℕ → ℕ → ℕ × ℕ → ℕ × ℕ
walk [] n p = p
walk (b ∷ r) zero p = p
walk (b ∷ r) (suc n) p = walk r n (bump b r p)

-- The line and the column at an offset; both count from 1.
abbrev pub locate : List ℕ → ℕ → ℕ × ℕ
locate source n = walk source n (1, 1)

bump-bounds :
    (b : ℕ) (r : List ℕ) (p : ℕ × ℕ)
    → 1 ≤ p.1
    → ((bump b r p).0 ≤ p.0 + 1) × ((bump b r p).1 ≤ p.1 + 1)
bump-bounds b r (line, column) h =
    if_rule (λ (q : ℕ × ℕ). (q.0 ≤ line + 1) × (q.1 ≤ column + 1))
      (b == b'\n' || (b == b'\r' && not (first r == b'\n'))) (λ _. (omega arith, omega arith))
      (λ _. (omega arith, omega arith))

bump-column : (b : ℕ) (r : List ℕ) (p : ℕ × ℕ) → 1 ≤ (bump b r p).1
bump-column b r (line, column) =
    if_rule (λ (q : ℕ × ℕ). 1 ≤ q.1) (b == b'\n' || (b == b'\r' && not (first r == b'\n')))
      (λ _. omega arith) (λ _. omega arith)

pub walk-zero : (s : List ℕ) (p : ℕ × ℕ) → walk s 0 p ≡ p
unfolding walk
walk-zero [] p = refl
walk-zero (b ∷ s) p = refl

-- Neither count outgrows the bytes.
pub walk-bounds :
    (s : List ℕ) (n : ℕ) (p : ℕ × ℕ)
    → 1 ≤ p.1
    → ((walk s n p).0 ≤ p.0 + length s) × ((walk s n p).1 ≤ p.1 + length s)
unfolding walk
walk-bounds [] n p h = (omega arith, omega arith)
walk-bounds (b ∷ r) zero p h = (omega arith, omega arith)
walk-bounds (b ∷ r) (suc n) p h =
    let (line, column) = bump-bounds b r p h in
    let (line', column') = walk-bounds r n (bump b r p) (bump-column b r p) in
    (omega (arith, line, line'), omega (arith, column, column'))

walk-next :
    (s : List ℕ) (n : ℕ) (p : ℕ × ℕ) (b : ℕ) (r : List ℕ)
    → drop n s ≡ b ∷ r
    → walk s (suc n) p ≡ bump b r (walk s n p)
unfolding walk
walk-next [] zero p b r e = cc
walk-next [] (suc n) p b r e = cc
walk-next (x ∷ s) zero p b r e =
    let same : x ≡ b = cc in
    let rest : s ≡ r = cc in walk-zero s (bump x s p) ∙ rw (same, rest) refl
walk-next (x ∷ s) (suc n) p b r e = walk-next s n (bump x s p) b r e

drop-next : (s : List ℕ) (n b : ℕ) (r : List ℕ) → drop n s ≡ b ∷ r → drop (suc n) s ≡ r
drop-next [] zero b r e = cc
drop-next [] (suc n) b r e = cc
drop-next (x ∷ s) zero b r e = cc
drop-next (x ∷ s) (suc n) b r e = drop-next s n b r e

drop-lt : (s : List ℕ) (n b : ℕ) (r : List ℕ) → drop n s ≡ b ∷ r → n < length s
drop-lt [] zero b r e = cc
drop-lt [] (suc n) b r e = cc
drop-lt (x ∷ s) zero b r e = omega arith
drop-lt (x ∷ s) (suc n) b r e = omega (arith, drop-lt s n b r e)

pub drop-no_bytes : (s : List ℕ) (n : ℕ) → no_bytes (drop n s) ≡ true → length s ≤ n
drop-no_bytes [] n h = omega arith
drop-no_bytes (x ∷ s) zero h = cc
drop-no_bytes (x ∷ s) (suc n) h = omega (arith, drop-no_bytes s n h)

-- The cursor is in a source, at the place that its line and its column say.
abbrev pub IsAt : List ℕ → Cursor → Type 0
IsAt s c = (drop c.pos s ≡ c.rest) × (locate s c.pos ≡ (c.line, c.column)) × (c.pos ≤ length s)

-- One byte further on.
IsAt-next :
    (s : List ℕ) (n b : ℕ) (r : List ℕ) (p : ℕ × ℕ)
    → drop n s ≡ b ∷ r
    → locate s n ≡ p
    → (drop (n + 1) s ≡ r) × (locate s (n + 1) ≡ bump b r p) × (n + 1 ≤ length s)
IsAt-next s n b r p e at =
    let one : n + 1 ≡ suc n = omega arith in
    rw one (drop-next s n b r e, walk-next s n (1, 1) b r e ∙ ap (bump b r) at, drop-lt s n b r e)

advance-IsAt : (s : List ℕ) (c : Cursor) → IsAt s c → IsOnByte c → IsAt s (advance c)
unfolding advance is_at_end current
advance-IsAt s c (rest, at, within) on = elim (List-cases c.rest) [
  | inl empty ↦ absurd (false≢true (sym on.0 ∙ ap no_bytes empty))
  | inr (b, r, e) ↦
      let (rest', at', within') = IsAt-next s c.pos b r _ (rest ∙ e) at in
      let plain : is_newline b ≡ false = sym (ap (λ l. is_newline (first l)) e) ∙ on.1 in
      let bumped : bump b r (c.line, c.column) ≡ (c.line, c.column + 1) = ground arith in
      (rest' ∙ sym (ap (drop 1) e), at' ∙ bumped, within')
]

next_line-IsAt_one :
    (s : List ℕ) (c : Cursor)
    → IsAt s c
    → is_newline (first c.rest) ≡ true
    → ((first c.rest == b'\r') && (second c.rest == b'\n')) ≡ false
    → IsAt s (next_line 1 c)
next_line-IsAt_one s c (rest, at, within) on alone = elim (List-cases c.rest) [
  | inl empty ↦ absurd (false≢true (sym (ap (λ l. is_newline (first l)) empty) ∙ on))
  | inr (b, r, e) ↦
      let (rest', at', within') = IsAt-next s c.pos b r _ (rest ∙ e) at in
      let newline : is_newline b ≡ true = sym (ap (λ l. is_newline (first l)) e) ∙ on in
      let single : ((b == b'\r') && (first r == b'\n')) ≡ false =
        sym (ap (λ l. (first l == b'\r') && (second l == b'\n')) e) ∙ alone in
      let bumped : bump b r (c.line, c.column) ≡ (c.line + 1, 1) = ground arith in
      (rest' ∙ sym (ap (drop 1) e), at' ∙ bumped, within')
]

next_line-IsAt_two :
    (s : List ℕ) (c : Cursor)
    → IsAt s c
    → first c.rest ≡ b'\r'
    → second c.rest ≡ b'\n'
    → IsAt s (next_line 2 c)
next_line-IsAt_two s c (rest, at, within) one two = elim (List-cases c.rest) [
  | inl empty ↦ absurd (zero≢return (sym (ap first empty) ∙ one))
  | inr (b, r, e) ↦
      let (rest', at', within') = IsAt-next s c.pos b r _ (rest ∙ e) at in
      let return : b ≡ b'\r' = sym (ap first e) ∙ one in
      let feed : first r ≡ b'\n' = sym (ap second e) ∙ two in
      elim (List-cases r) [
        | inl empty ↦ absurd (zero≢feed (sym (ap first empty) ∙ feed))
        | inr (b', r', e') ↦
            let (rest'', at'', within'') = IsAt-next s (c.pos + 1) b' r' _ (rest' ∙ e') at' in
            let feed' : b' ≡ b'\n' = sym (ap first e') ∙ feed in
            let moved : c.pos + 1 + 1 ≡ c.pos + 2 = omega arith in
            let bumped : bump b' r' (bump b r (c.line, c.column)) ≡ (c.line + 1, 1) =
              ground arith in
            rw (← moved) (rest'' ∙ sym (ap (drop 2) e ∙ ap (drop 1) e'), at'' ∙ bumped, within'')
      ]
]
  where
    zero≢return : ◌≢◌ {A = ℕ} 0 b'\r'
    zero≢return e = absurd (omega arith)

    zero≢feed : ◌≢◌ {A = ℕ} 0 b'\n'
    zero≢feed e = absurd (omega arith)

consume_newline-IsAt :
    (s : List ℕ) (c : Cursor) (diags : DiagList)
    → IsAt s c
    → IsOnNewline c
    → IsAt s (consume_newline c diags).1
unfolding current
consume_newline-IsAt s c diags at on = elim (consume_newline-cases c diags) [
  | inl (one, two, e) ↦ rw e (next_line-IsAt_two s c at one two)
  | inr (alone, e) ↦ rw e (next_line-IsAt_one s c at on alone)
]

pub Forward-IsAt : (s : List ℕ) {c d : Cursor} → IsAt s c → Forward c d → IsAt s d
Forward-IsAt s at stay = at
Forward-IsAt s at (past_byte {d} f on) = advance-IsAt s d (Forward-IsAt s at f) on
Forward-IsAt s at (past_newline {d} diags f on) =
    consume_newline-IsAt s d diags (Forward-IsAt s at f) on

pub start_cursor-IsAt : (s : List ℕ) → IsAt s (start_cursor s)
start_cursor-IsAt s = (refl, walk-zero s (1, 1), omega arith)

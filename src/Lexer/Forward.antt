-- ===== src/Lexer/Forward.antt =====
-- The ways in which a cursor moves through the source: a byte that is no newline, or a newline.
use mslang_cc.Base.{
  ◌≢◌, Bool, true, false, not, ◌&&◌, ◌||◌, List, [], ◌∷◌, ℕ, zero, suc, ◌+◌, ◌≤◌, ◌<◌, ◌≡◌, refl,
  ◌⊎◌, inl, inr, arith, ◌==◌, ==_iff, length, drop,
}
use mslang_cc.Diag.{DiagList}
use mslang_cc.Lexer.Cursor.{
  Cursor, no_bytes, is_at_end, first, second, current, advance, advance_by, next_line,
  consume_newline, is_newline,
}

pub or_false : (a b : Bool) → (a || b) ≡ false → (a ≡ false) × (b ≡ false)
or_false true b h = cc
or_false false b h = (refl, h)

pub and_true : (a b : Bool) → (a && b) ≡ true → (a ≡ true) × (b ≡ true)
and_true true b h = (refl, h)
and_true false b h = cc

pub not-true : (b : Bool) → not b ≡ true → b ≡ false
not-true true h = cc
not-true false h = refl

pub not-false : (b : Bool) → not b ≡ false → b ≡ true
not-false true h = refl
not-false false h = cc

pub false≢true : false ≢ true
false≢true e = cc

pub or_first : (a b : Bool) → b ≡ false → (a || b) ≡ true → a ≡ true
or_first true b e h = refl
or_first false b e h = cc

-- The cursor is on a byte that is no newline.
abbrev pub IsOnByte : Cursor → Type 0
IsOnByte c = (is_at_end c ≡ false) × (is_newline (current c) ≡ false)

abbrev pub IsOnNewline : Cursor → Type 0
IsOnNewline c = is_newline (current c) ≡ true

pub data Forward (c : Cursor) : Cursor → Type 0 where
  stay : Forward c c
  past_byte : {d : Cursor} → Forward c d → IsOnByte d → Forward c (advance d)
  past_newline :
      {d : Cursor} (diags : DiagList)
      → Forward c d
      → IsOnNewline d
      → Forward c (consume_newline d diags).1

pub Forward-trans : {c d e : Cursor} → Forward c d → Forward d e → Forward c e
Forward-trans f stay = f
Forward-trans f (past_byte g h) = past_byte (Forward-trans f g) h
Forward-trans f (past_newline diags g h) = past_newline diags (Forward-trans f g) h

-- How many bytes are left.
abbrev pub size : Cursor → ℕ
size c = length c.rest

-- Both cursors are in one source, the second at or behind the first.
abbrev pub Keeps : Cursor → Cursor → Type 0
Keeps c d = (c.pos ≤ d.pos) × (d.pos + size d ≡ c.pos + size c)

length-drop_one : (b : List ℕ) → no_bytes b ≡ false → length (drop 1 b) + 1 ≡ length b
length-drop_one [] h = cc
length-drop_one (b ∷ r) h = omega arith

pub advance-Keeps :
    (c : Cursor) → is_at_end c ≡ false → Keeps c (advance c) × (c.pos < (advance c).pos)
unfolding is_at_end advance
advance-Keeps c h = omega (arith, length-drop_one c.rest h)

-- The two ways of a newline: two bytes, or one that ends the line by itself.
pub consume_newline-cases :
    (c : Cursor) (diags : DiagList)
    → ((first c.rest ≡ b'\r')
        × (second c.rest ≡ b'\n')
        × ((consume_newline c diags).1 ≡ next_line 2 c))
      ⊎ ((((first c.rest == b'\r') && (second c.rest == b'\n')) ≡ false)
          × ((consume_newline c diags).1 ≡ next_line 1 c))
unfolding consume_newline
consume_newline-cases c diags = ground arith

length-drop_newline : (b : List ℕ) → is_newline (first b) ≡ true → length (drop 1 b) + 1 ≡ length b
length-drop_newline [] h = cc
length-drop_newline (b ∷ r) h = omega arith

length-drop_pair :
    (b : List ℕ) → first b ≡ b'\r' → second b ≡ b'\n' → length (drop 2 b) + 2 ≡ length b
length-drop_pair [] h k = absurd (omega arith)
length-drop_pair (a ∷ []) h k = absurd (omega arith)
length-drop_pair (a ∷ b ∷ r) h k = omega arith

pub consume_newline-Keeps :
    (c : Cursor) (diags : DiagList)
    → IsOnNewline c
    → Keeps c (consume_newline c diags).1 × (c.pos < (consume_newline c diags).1.pos)
unfolding current
consume_newline-Keeps c diags h = elim (consume_newline-cases c diags) [
  | inl (one, two, e) ↦ rw e (omega (arith, length-drop_pair c.rest one two))
  | inr (_, e) ↦ rw e (omega (arith, length-drop_newline c.rest h))
]

pub Forward-Keeps : {c d : Cursor} → Forward c d → Keeps c d
Forward-Keeps stay = omega arith
Forward-Keeps (past_byte {d} f h) = omega (arith, Forward-Keeps f, advance-Keeps d h.0)
Forward-Keeps (past_newline {d} diags f h) =
    omega (arith, Forward-Keeps f, consume_newline-Keeps d diags h)

pub Forward-same : {c d : Cursor} → Forward c d → (c ≡ d) ⊎ (c.pos < d.pos)
Forward-same stay = inl refl
Forward-same (past_byte {d} f h) = inr (omega (arith, Forward-Keeps f, advance-Keeps d h.0))
Forward-same (past_newline {d} diags f h) =
    inr (omega (arith, Forward-Keeps f, consume_newline-Keeps d diags h))

-- A round of a loop goes on from a cursor further on, with fewer bytes left.
abbrev pub Nearer : Cursor → Cursor → Cursor → Type 0
Nearer c d e = Forward c e × (size e < size d)

pub advance-Nearer : {c d : Cursor} → Forward c d → IsOnByte d → Nearer c d (advance d)
advance-Nearer {d = d} f h = (past_byte f h, omega (arith, advance-Keeps d h.0))

pub consume_newline-Nearer :
    {c d : Cursor} (diags : DiagList)
    → Forward c d
    → IsOnNewline d
    → Nearer c d (consume_newline d diags).1
consume_newline-Nearer {d = d} diags f h =
    (past_newline diags f h, omega (arith, consume_newline-Keeps d diags h))

-- The first `n` bytes are there, and none is a newline.
abbrev pub HasBytes : ℕ → List ℕ → Type 0
HasBytes zero b = Unit {0}
HasBytes (suc n) [] = ⊥
HasBytes (suc n) (b ∷ r) = (is_newline b ≡ false) × HasBytes n r

HasBytes-head :
    (n : ℕ) (b : List ℕ)
    → HasBytes (suc n) b
    → (no_bytes b ≡ false) × (is_newline (first b) ≡ false) × HasBytes n (drop 1 b)
HasBytes-head n [] h = absurd h
HasBytes-head n (b ∷ r) h = (refl, h.0, h.1)

pub advance_by-Forward :
    (n : ℕ) (c d : Cursor) → Forward c d → HasBytes n d.rest → Forward c (advance_by n d)
unfolding advance_by is_at_end current
advance_by-Forward zero c d f h = f
advance_by-Forward (suc n) c d f h =
    let (some_byte, no_newline, others) = HasBytes-head n d.rest h in
    advance_by-Forward n c (advance d) (past_byte f (some_byte, no_newline))
      (unfold advance in others)

pub advance_by-pos : (n : ℕ) (c : Cursor) → (advance_by n c).pos ≡ c.pos + n
unfolding advance_by advance
advance_by-pos zero c = omega arith
advance_by-pos (suc n) c = omega (arith, advance_by-pos n (advance c))

pub advance_by-Nearer :
    (n : ℕ) {c d : Cursor}
    → Forward c d
    → HasBytes (suc n) d.rest
    → Nearer c d (advance_by (suc n) d)
advance_by-Nearer n {c} {d} f h = (
  advance_by-Forward (suc n) c d f h,
  omega (arith, advance_by-pos (suc n) d, Forward-Keeps (advance_by-Forward (suc n) d d stay h)),
)

pub advance_by-Nearer_pos :
    (n : ℕ) {c d : Cursor} → 0 < n → Forward c d → HasBytes n d.rest → Nearer c d (advance_by n d)
advance_by-Nearer_pos n {c} {d} some_bytes f h = (
  advance_by-Forward n c d f h,
  omega (arith, advance_by-pos n d, Forward-Keeps (advance_by-Forward n d d stay h), some_bytes),
)

-- A byte that is there where the source tests for it, since the end reads as 0, and that is no newline.
abbrev pub IsPlain : ℕ → Type 0
IsPlain b = (0 < b) × (is_newline b ≡ false)

pub IsPlain-IsOnByte : (c : Cursor) → IsPlain (current c) → IsOnByte c
unfolding is_at_end current
IsPlain-IsOnByte c h = (starts c.rest h.0, h.1)
  where
    starts : (l : List ℕ) → 0 < first l → no_bytes l ≡ false
    starts [] e = absurd (omega arith)
    starts (x ∷ l) e = refl

pub IsPlain-HasBytes : (b : List ℕ) → IsPlain (first b) → IsPlain (second b) → HasBytes 2 b
IsPlain-HasBytes [] h k = absurd (omega arith)
IsPlain-HasBytes (x ∷ []) h k = absurd (omega arith)
IsPlain-HasBytes (x ∷ y ∷ r) h k = (h.1, (k.1, tt))

-- From a test of the current byte against a plain one.
pub test-IsPlain : (x y : ℕ) → IsPlain y → (x == y) ≡ true → IsPlain x
test-IsPlain x y h e = let same : x ≡ y = (==_iff x y).0 e in rw same h

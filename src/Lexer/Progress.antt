-- ===== src/Lexer/Progress.antt =====
-- src/lexer/ms_lexer.c: what is asked of every scan, and the ends of a scan.
use mslang_cc.Base.{
  Bool, true, false, Option, none, some, List, [], ◌∷◌, ℕ, ◌+◌, ◌-◌, ◌*◌, ◌≤◌, ◌<◌, ◌≡◌, refl, ◌≢◌,
  ◌⊎◌, inl, inr, arith, if◌then◌else◌, length,
}
use mslang_cc.Base.Loop.{Returns, if_rule}
use mslang_cc.Proto.{ok, error_syntax, is_ok}
use mslang_cc.Lexer.Tokens.{TokenType, eof, invalid, Token, token_ends_statement}
use mslang_cc.Lexer.Cursor.{Cursor, is_at_end, lexer_error}
use mslang_cc.Lexer.State.{
  Mode, normal, fstring_text, fstring_format_spec, LexerFrame, max_fstring_depth, Lexer, Scanned,
  make_token, make_eof, is_text_segment, commit_token, report_token,
}
use mslang_cc.Lexer.Full.{IsFull, lexer_error-IsFull}
use mslang_cc.Lexer.Forward.{Forward, stay, Forward-trans, size, Forward-Keeps}

-- Frames whose interpolation is open.
abbrev pub AreOpen : List LexerFrame → Type 0
AreOpen [] = Unit {0}
AreOpen (f ∷ fs) = (f.quote ≡ b'"') × (0 < f.brace_depth) × AreOpen fs

-- In plain code every frame is inside its interpolation; in the text of an f-string all but the
-- innermost. The third mode does not last from one call to the next.
abbrev pub IsNested : Mode → List LexerFrame → Type 0
IsNested normal fs = (length fs ≤ max_fstring_depth) × AreOpen fs
IsNested fstring_text [] = ⊥
IsNested fstring_text (f ∷ fs) =
    (length fs < max_fstring_depth) × (f.quote ≡ b'"') × (f.brace_depth ≡ 0) × AreOpen fs
IsNested fstring_format_spec fs = ⊥

abbrev pub one_if : Bool → ℕ
one_if b = if b then 1 else 0

-- It falls with every token but the last.
abbrev pub measure : Lexer → ℕ
measure lexer = 2 * size lexer.cursor + length lexer.frames + one_if lexer.can_end_statement

-- Neither a cached token nor the limit of diagnostics stands in the way of a scan.
abbrev pub IsReady : Lexer → Type 0
IsReady lexer = (lexer.peeked ≡ none) × (lexer.hit_diag_cap ≡ false)

-- The lexeme lies between two cursors on the way, and the line and the column are those of the first.
abbrev pub IsPlaced : Cursor → Cursor → Token → Type 0
IsPlaced c d token =
    (from to : Cursor) × Forward c from
    × Forward from to
    × Forward to d
    × (token.start ≡ from.pos)
    × (token.start + token.length ≡ to.pos)
    × (token.line ≡ from.line)
    × (token.column ≡ from.column)

-- Nothing is left to scan.
abbrev pub IsFinished : Lexer → Type 0
IsFinished lexer =
    (is_at_end lexer.cursor ≡ true)
    × (lexer.frames ≡ [])
    × (lexer.mode ≡ normal)
    × (lexer.can_end_statement ≡ false)

abbrev pub Progress : ℕ → Scanned → Type 0
Progress n s =
    ((s.result ≡ ok) × (s.token.type_of ≢ eof) × (measure s.lexer < n))
    ⊎ ((s.result ≡ ok)
        × (s.token.type_of ≡ eof)
        × (s.token.start ≡ s.lexer.cursor.pos)
        × IsFinished s.lexer)
    ⊎ ((s.result ≡ error_syntax) × (s.token.type_of ≡ eof) × IsFull s.lexer.diags)

-- A scan from a cursor on, with the measure below a bound.
pub record Scans (n : ℕ) (c : Cursor) (s : Scanned) : Type 0 where
  pub forward : Forward c s.lexer.cursor
  pub placed : IsPlaced c s.lexer.cursor s.token
  pub nested : IsNested s.lexer.mode s.lexer.frames
  pub ready : IsReady s.lexer
  pub progress : Progress n s

pub Scans-after :
    {n m : ℕ} {c d : Cursor} {s : Scanned} → Forward c d → m ≤ n → Scans m d s → Scans n c s
Scans-after f h r =
    let (from, to, a, b, e, start, end, line, column) = r.placed in
    record {
      forward = Forward-trans f r.forward;
      placed = (from, to, Forward-trans f a, b, e, start, end, line, column);
      nested = r.nested;
      ready = r.ready;
      progress = elim r.progress [
        | inl moved ↦ inl (moved.0, moved.1, omega (arith, moved.2))
        | inr stopped ↦ inr stopped
      ];
    }

-- The same for a scan that may run out of fuel.
pub Returns-after :
    {n m : ℕ} {c d : Cursor} (r : Option Scanned)
    → Forward c d
    → m ≤ n
    → Returns r (Scans m d)
    → Returns r (Scans n c)
Returns-after none f h k = k
Returns-after (some s) f h k = Scans-after f h k

-- How much a token adds to the measure.
abbrev pub weight : TokenType → ℕ
weight type = one_if (token_ends_statement type)

-- What a lexer has to meet to be the one behind a scan.
pub record Follows (n : ℕ) (c : Cursor) (lexer : Lexer) : Type 0 where
  pub forward : Forward c lexer.cursor
  pub nested : IsNested lexer.mode lexer.frames
  pub ready : IsReady lexer
  pub less : 2 * size lexer.cursor + length lexer.frames < n

one_if_le : (b e : Bool) → one_if (if b then false else e) ≤ one_if e
one_if_le b e = ground arith

pub commit_token-Scans :
    (n : ℕ) (c : Cursor) (type : TokenType) (lexer : Lexer)
    → type ≢ eof
    → Follows (n - weight type) c lexer
    → Scans n c (commit_token (make_token type c lexer.cursor) lexer)
unfolding commit_token make_token
commit_token-Scans n c type lexer no_eof f = record {
  forward = f.forward;
  placed = (
    c,
    lexer.cursor,
    stay,
    f.forward,
    stay,
    refl,
    omega (arith, Forward-Keeps f.forward),
    refl,
    refl,
  );
  nested = f.nested;
  ready = f.ready;
  progress = inl (
    refl,
    no_eof,
    omega (arith, f.less, one_if_le (is_text_segment lexer.mode type) (token_ends_statement type)),
  );
}

pub make_eof-Scans :
    (n : ℕ) (c : Cursor) (lexer : Lexer)
    → Forward c lexer.cursor
    → IsNested lexer.mode lexer.frames
    → IsReady lexer
    → IsFull lexer.diags
    → Scans n c (make_eof error_syntax lexer)
unfolding make_eof
make_eof-Scans n c lexer f nested ready full = record {
  forward = f;
  placed = (lexer.cursor, lexer.cursor, f, stay, stay, refl, omega arith, refl, refl);
  nested = nested;
  ready = ready;
  progress = inr (inr (refl, refl, full));
}

pub invalid≢eof : invalid ≢ eof
invalid≢eof e = cc

pub report_token-Scans :
    (n : ℕ) (c : Cursor) (e : ℕ × ℕ × ℕ × List ℕ) (lexer : Lexer)
    → Follows n c lexer
    → Scans n c (report_token e (make_token invalid c lexer.cursor) lexer)
unfolding report_token
report_token-Scans n c (code, line, column, message) lexer f =
    let r = lexer_error line column code message lexer.diags in
    let noted : Lexer = record lexer { diags = r.1 } in
    let f' : Follows (n - weight invalid) c noted = record {
      forward = f.forward;
      nested = f.nested;
      ready = f.ready;
      less = omega (arith, f.less);
    } in
    if_rule (Scans n c) (is_ok r.0) (λ _. commit_token-Scans n c invalid noted invalid≢eof f')
      (λ bad.
        make_eof-Scans n c noted f.forward f.nested f.ready
          (lexer_error-IsFull line column code message lexer.diags bad))

pub one_if-le : (b : Bool) → one_if b ≤ 1
one_if-le b = ground arith

-- A lexer behind at least one byte of another, with no more frames.
pub moved-Follows :
    (n : ℕ) (lexer lexer' : Lexer)
    → measure lexer ≤ n + 1
    → Forward lexer.cursor lexer'.cursor
    → lexer.cursor.pos < lexer'.cursor.pos
    → length lexer'.frames ≤ length lexer.frames
    → IsNested lexer'.mode lexer'.frames
    → IsReady lexer'
    → Follows n lexer.cursor lexer'
moved-Follows n lexer lexer' bound f moved fewer nested ready = record {
  forward = f;
  nested = nested;
  ready = ready;
  less = omega (arith, Forward-Keeps f, bound, moved, fewer);
}

-- The common case: only the cursor changes.
pub token-Scans :
    (lexer : Lexer) (c : Cursor) (type : TokenType)
    → type ≢ eof
    → IsNested lexer.mode lexer.frames
    → IsReady lexer
    → Forward lexer.cursor c
    → lexer.cursor.pos < c.pos
    → Scans
        (measure lexer)
        lexer.cursor
        (commit_token (make_token type lexer.cursor c) (record lexer { cursor = c }))
token-Scans lexer c type no_eof nested ready f moved =
    let lexer' : Lexer = record lexer { cursor = c } in
    commit_token-Scans (measure lexer) lexer.cursor type lexer' no_eof (
      moved-Follows _ lexer lexer' (omega (arith, one_if-le (token_ends_statement type))) f moved
        (omega arith) nested ready)

pub error-Scans :
    (lexer : Lexer) (c : Cursor) (e : ℕ × ℕ × ℕ × List ℕ)
    → IsNested lexer.mode lexer.frames
    → IsReady lexer
    → Forward lexer.cursor c
    → lexer.cursor.pos < c.pos
    → Scans
        (measure lexer)
        lexer.cursor
        (report_token e (make_token invalid lexer.cursor c) (record lexer { cursor = c }))
error-Scans lexer c e nested ready f moved =
    let lexer' : Lexer = record lexer { cursor = c } in
    report_token-Scans (measure lexer) lexer.cursor e lexer'
      (moved-Follows _ lexer lexer' (omega arith) f moved (omega arith) nested ready)

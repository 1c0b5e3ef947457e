-- ===== src/Lexer/Stream.antt =====
-- The tokens of a source, as its reader gets them: calls of `msLexerNext` up to the end of the input.
use mslang_cc.Base.{
  Bool, true, false, ◌^◌, Option, none, some, List, [], ◌∷◌, ℕ, zero, suc, ◌+◌, ◌*◌, ◌≤◌, ◌<◌, ◌≡◌,
  refl, sym, ap, ◌∙◌, ◌≢◌, ◌⊎◌, inl, inr, arith, if◌then◌else◌, none≢some, length, drop,
}
use mslang_cc.Base.Loop.{◌>>=◌, Returns, if_rule, option_rule, bind_rule}
use mslang_cc.Proto.{is_ok, error_syntax}
use mslang_cc.Diag.{DiagList}
use mslang_cc.Lexer.Tokens.{TokenType, eof, Token}
use mslang_cc.Lexer.Cursor.{Cursor, no_bytes, is_at_end}
use mslang_cc.Lexer.State.{Lexer, Scanned, make_token, make_eof}
use mslang_cc.Lexer.Full.{IsFull, lexer_error-IsFull}
use mslang_cc.Lexer.Forward.{false≢true, not-true, Forward, stay, Forward-Keeps}
use mslang_cc.Lexer.Progress.{IsNested, measure, IsPlaced, Scans, make_eof-Scans}
use mslang_cc.Lexer.Scan.{scan, note_cap, scan_guarded, next, has_mark, init_lexer}
use mslang_cc.Lexer.ScanLaws.{scan-Scans}
use mslang_cc.Lexer.Position.{
  bump, walk, locate, walk-zero, walk-bounds, drop-no_bytes, IsAt, Forward-IsAt, start_cursor-IsAt,
}

-- `token.type == MS_TOKEN_EOF`
unfoldable pub is_eof : TokenType → Bool
is_eof eof = true
is_eof _ = false

is_eof-eq : (t : TokenType) → is_eof t ≡ true → t ≡ eof
unfolding is_eof
is_eof-eq eof h = refl
is_eof-eq _ h = cc

-- The first `n` calls at most, with the diagnostics behind them; `none` if the end was not reached.
unfoldable pub collect : ℕ → Lexer → Option (List Token × DiagList)
unfolding next
collect zero lexer = none
collect (suc n) lexer = next lexer >>= λ s.
    let later = collect n s.lexer in
    if is_eof s.token.type_of
    then some (s.token ∷ [], s.lexer.diags)
    else (later >>= λ r. some (s.token ∷ r.0, r.1))

-- The flag of the limit is only set where the diagnostics are full.
abbrev IsCapped : Lexer → Type 0
IsCapped lexer = lexer.hit_diag_cap ≡ true → IsFull lexer.diags

-- The end of the input was reached, or the diagnostics are full.
abbrev IsOver : Scanned → Type 0
IsOver s =
    ((s.token.start ≡ s.lexer.cursor.pos) × (is_at_end s.lexer.cursor ≡ true))
    ⊎ IsFull s.lexer.diags

-- A lexer that is asked for its next token: its frames are nested, and no token is cached.
abbrev IsOpen : Lexer → Type 0
IsOpen lexer = IsNested lexer.mode lexer.frames × (lexer.peeked ≡ none) × IsCapped lexer

-- What a call of `msLexerNext` hands back, where no token is cached.
Next : Lexer → Scanned → Type 0
Next lexer s =
    Forward lexer.cursor s.lexer.cursor
    × IsPlaced lexer.cursor s.lexer.cursor s.token
    × (s.token.type_of ≢ eof → (measure s.lexer < measure lexer) × IsOpen s.lexer)
    × (s.token.type_of ≡ eof → IsOver s)

note_cap-Next :
    (lexer : Lexer) (s : Scanned) → Scans (measure lexer) lexer.cursor s → Next lexer (note_cap s)
unfolding Next
note_cap-Next lexer s h =
    if_rule (Next lexer) (is_ok s.result)
      (λ good. (
        h.forward,
        h.placed,
        (λ more. elim h.progress [
          | inl (_, no_eof, less_left) ↦
              (less_left, (h.nested, h.ready.0, λ hit. absurd (false≢true (sym h.ready.1 ∙ hit))))
          | inr (inl (_, end, there, done)) ↦ absurd (more end)
          | inr (inr (bad, end, full)) ↦ absurd (more end)
        ]),
        λ end. over end,
      ))
      (λ failed. (
        h.forward,
        h.placed,
        (λ more. elim h.progress [
          | inl (good, no_eof, less_left) ↦ absurd (false≢true (sym failed ∙ ap is_ok good))
          | inr (inl (good, end, there, done)) ↦ absurd (more end)
          | inr (inr (bad, end, full)) ↦ absurd (more end)
        ]),
        λ end. over end,
      ))
  where
    over : s.token.type_of ≡ eof → IsOver s
    over end = elim h.progress [
      | inl (good, no_eof, less_left) ↦ absurd (no_eof end)
      | inr (inl (good, _, there, done)) ↦ inl (there, done.0)
      | inr (inr (bad, _, full)) ↦ inr full
    ]

next-Next : (lexer : Lexer) → IsOpen lexer → Returns (next lexer) (Next lexer)
unfolding next Next
next-Next lexer (nested, no_peek, capped) =
    option_rule {B = Option Scanned} (λ r. Returns r (Next lexer)) lexer.peeked (λ _. guarded)
      (λ cached e. absurd (none≢some (sym no_peek ∙ e)))
  where
    stopped : IsFull lexer.diags → Returns (some (make_eof error_syntax lexer)) (Next lexer)
    stopped full =
        let h =
          make_eof-Scans (measure lexer) lexer.cursor (record lexer { hit_diag_cap = false }) stay
            nested (no_peek, refl) full in
        unfold make_eof make_token in
        (stay, h.placed, (λ more. absurd (more refl)), λ end. inr full)

    guarded : Returns (scan_guarded lexer) (Next lexer)
    guarded =
        unfold scan_guarded in
        if_rule (λ r. Returns r (Next lexer)) lexer.hit_diag_cap (λ hit. stopped (capped hit))
          (λ open_cap.
            bind_rule (Scans (measure lexer) lexer.cursor) (Next lexer) (scan lexer) _
              (scan-Scans lexer nested (no_peek, open_cap)) (λ s h. note_cap-Next lexer s h))

-- The token is the end of the source, or the diagnostics are full.
abbrev pub IsLast : List ℕ → DiagList → Token → Type 0
IsLast source diags t = (t.type_of ≡ eof) × ((t.start ≡ length source) ⊎ IsFull diags)

-- The lexeme lies in the source from the offset `p` on, at the line and the column that the source
-- gives its first byte, and both fit into 32 bits.
abbrev pub IsLocated : List ℕ → ℕ → Token → Type 0
IsLocated source p t =
    (p ≤ t.start)
    × (t.start + t.length ≤ length source)
    × (locate source t.start ≡ (t.line, t.column))
    × (t.line < 2 ^ 32)
    × (t.column < 2 ^ 32)

-- The tokens stand in the source one after the other from the offset `p` on, and the last and only the
-- last is the end of the input; `diags` are the diagnostics in the end.
abbrev pub InOrder : List ℕ → DiagList → ℕ → List Token → Type 0
InOrder source diags p [] = ⊥
InOrder source diags p (t ∷ tokens) =
    IsLocated source p t
    × ((IsLast source diags t × (tokens ≡ []))
        ⊎ ((t.type_of ≢ eof) × InOrder source diags (t.start + t.length) tokens))

abbrev pub Tokens : List ℕ → ℕ → List Token × DiagList → Type 0
Tokens source p r = InOrder source r.1 p r.0

-- The part of it that is about one token.
IsPlaced-IsLocated :
    (source : List ℕ) (p : ℕ) (c d : Cursor) (t : Token)
    → length source < 2 ^ 31
    → p ≤ c.pos
    → IsAt source c
    → IsPlaced c d t
    → IsLocated source p t × (t.start + t.length ≤ d.pos)
IsPlaced-IsLocated source p c d t small before at (from, to, f, g, h, start, end, line, column) =
    let at_from = Forward-IsAt source at f in
    let at_to = Forward-IsAt source at_from g in
    let place : locate source t.start ≡ (t.line, t.column) =
      ap (locate source) start ∙ at_from.1 ∙ rw (line, column) refl in
    let (lines, columns) = walk-bounds source t.start (1, 1) (omega arith) in
    (
      (
        omega (arith, Forward-Keeps f, start),
        omega (arith, at_to.2, end),
        place,
        omega (arith, lines, small, ap (λ (q : ℕ × ℕ). q.0) place),
        omega (arith, columns, small, ap (λ (q : ℕ × ℕ). q.1) place),
      ),
      omega (arith, Forward-Keeps h, end),
    )

IsOver-IsLast :
    (source : List ℕ) (s : Scanned)
    → IsAt source s.lexer.cursor
    → s.token.type_of ≡ eof
    → IsOver s
    → IsLast source s.lexer.diags s.token
unfolding is_at_end
IsOver-IsLast source s at end (inl (there, no_more)) =
    let past = drop-no_bytes source s.lexer.cursor.pos (ap no_bytes at.0 ∙ no_more) in
    (end, inl (omega (arith, at.2, past, there)))
IsOver-IsLast source s at end (inr full) = (end, inr full)

-- From any lexer that is in its source, calls one more than the measure are enough.
pub collect-InOrder :
    (source : List ℕ) (n : ℕ) (lexer : Lexer) (p : ℕ)
    → length source < 2 ^ 31
    → measure lexer < n
    → p ≤ lexer.cursor.pos
    → IsAt source lexer.cursor
    → IsOpen lexer
    → Returns (collect n lexer) (Tokens source p)
unfolding collect Next
collect-InOrder source zero lexer p small enough before at ready = absurd (omega arith)
collect-InOrder source (suc n) lexer p small enough before at ready =
    bind_rule (Next lexer) (Tokens source p) (next lexer) _ (next-Next lexer ready) (λ s h.
      let (located, passed) =
        IsPlaced-IsLocated source p lexer.cursor s.lexer.cursor s.token small before at h.1 in
      let at' = Forward-IsAt source at h.0 in
      if_rule (λ r. Returns r (Tokens source p)) (is_eof s.token.type_of)
        (λ last.
          let end = is_eof-eq _ last in
          (located, inl (IsOver-IsLast source s at' end (h.3 end), refl)))
        (λ more.
          let no_eof : s.token.type_of ≢ eof =
            λ e. false≢true (sym more ∙ ap is_eof e ∙ (unfold is_eof in refl)) in
          let (fewer, ready') = h.2 no_eof in
          bind_rule (Tokens source (s.token.start + s.token.length)) (Tokens source p)
            (collect n s.lexer) _
            (collect-InOrder source n s.lexer (s.token.start + s.token.length) small
              (omega (arith, fewer, enough)) passed at' ready')
            (λ r rest. (located, inr (no_eof, rest)))))

-- A lexer at the start of its source, or behind its byte order mark.
abbrev Starts : List ℕ → Lexer → Type 0
Starts source lexer = IsAt source lexer.cursor × IsOpen lexer × (measure lexer ≤ 2 * length source)

mark-IsAt :
    (source : List ℕ)
    → has_mark source ≡ true
    → IsAt source (record { rest = drop 3 source; pos = 3; line = 1; column = 4 })
unfolding walk
mark-IsAt [] h = ground arith
mark-IsAt (a ∷ []) h = ground arith
mark-IsAt (a ∷ b ∷ []) h = ground arith
mark-IsAt (a ∷ b ∷ c ∷ r) h =
    let bumped : bump c r (bump b (c ∷ r) (bump a (b ∷ c ∷ r) (1, 1))) ≡ (1, 4) = ground arith in
    (refl, walk-zero r _ ∙ bumped, omega arith)

length-drop_any : (n : ℕ) (s : List ℕ) → length (drop n s) ≤ length s
length-drop_any zero s = omega arith
length-drop_any (suc n) [] = omega arith
length-drop_any (suc n) (b ∷ s) = omega (arith, length-drop_any n s)

init_lexer-Starts :
    (source chunk_name : List ℕ) (diags : DiagList)
    → Starts source (init_lexer source chunk_name diags)
unfolding init_lexer
init_lexer-Starts source chunk_name diags =
    if_rule (Starts source) (has_mark source)
      (λ mark. (
        mark-IsAt source mark,
        ((omega arith, tt), refl, λ hit. lexer_error-IsFull _ _ _ _ diags (not-true _ hit)),
        omega (arith, length-drop_any 3 source),
      ))
      (λ _. (
        start_cursor-IsAt source,
        ((omega arith, tt), refl, λ hit. absurd (false≢true hit)),
        omega arith,
      ))

-- For every source of fewer than 2^31 bytes, calling `msLexerNext` hands back a token that is the end of
-- the input within twice as many calls as the source has bytes, and one. The tokens up to it lie inside
-- the source one after the other, without overlap; the line and the column of each are those that the
-- source gives its first byte, where a line ends with `\n`, `\r\n` or a lone `\r` and columns count
-- bytes, and both fit into 32 bits. The last token, and no other, is the end of the input; it stands at
-- the end of the source, or the list of diagnostics is full in the end.
pub collect-init_lexer :
    (source chunk_name : List ℕ) (diags : DiagList)
    → length source < 2 ^ 31
    → Returns
        (collect (2 * length source + 1) (init_lexer source chunk_name diags))
        (Tokens source 0)
collect-init_lexer source chunk_name diags small =
    let (at, ready, bound) = init_lexer-Starts source chunk_name diags in
    collect-InOrder source (2 * length source + 1) (init_lexer source chunk_name diags) 0 small
      (omega (arith, bound)) (omega arith) at ready

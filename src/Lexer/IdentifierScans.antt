-- ===== src/Lexer/IdentifierScans.antt =====
-- Scanning an identifier ends, and takes at least its first byte.
use mslang_cc.Base.{
  true, false, not, ◌&&◌, ◌||◌, List, [], ◌∷◌, ℕ, zero, suc, ◌-◌, ◌<◌, ◌≡◌, refl, inl, inr, arith,
  ltb, ◌==◌, drop,
}
use mslang_cc.Base.Loop.{Round, loop, Returns, Does, if_rule, bind_rule, loop_rule}
use mslang_cc.Lexer.Cursor.{
  Cursor, is_at_end, first, current, is_newline, in_range, is_ident_start, is_ident_continue,
  lead_length, are_continuations, utf8_length,
}
use mslang_cc.Lexer.State.{Lexer}
use mslang_cc.Lexer.Forward.{
  and_true, IsOnByte, Forward, stay, size, Forward-same, Nearer, advance-Nearer, HasBytes,
  advance_by-Nearer_pos, IsPlain, IsPlain-IsOnByte,
}
use mslang_cc.Lexer.KeywordLaws.{keyword_type≢eof}
use mslang_cc.Lexer.Progress.{IsNested, measure, IsReady, Scans, token-Scans}
use mslang_cc.Lexer.Scan.{identifier_round, finish_identifier, scan_identifier}

range_byte : (lo hi b : ℕ) → 13 < lo → in_range lo hi b ≡ true → is_newline b ≡ false
range_byte lo hi b h e = ground arith

continuations-HasBytes :
    (n : ℕ) (input : List ℕ) → are_continuations n input ≡ true → HasBytes n input
unfolding are_continuations
continuations-HasBytes zero input h = tt
continuations-HasBytes (suc n) [] h = cc
continuations-HasBytes (suc n) (b ∷ r) h =
    let (one, others) = and_true (in_range 0x80 0xBF b) (are_continuations n r) h in
    (range_byte 0x80 0xBF b (omega arith) one, continuations-HasBytes n r others)

lead-IsPlain : (b : ℕ) → (lead_length b == 0) ≡ false → IsPlain b
unfolding lead_length
lead-IsPlain b h = (ground arith, ground arith)

lead_HasBytes :
    (n : ℕ) (input : List ℕ)
    → 0 < n
    → IsPlain (first input)
    → HasBytes (n - 1) (drop 1 input)
    → HasBytes n input
lead_HasBytes zero input h p r = absurd (omega arith)
lead_HasBytes (suc n) [] h p r = absurd (omega arith)
lead_HasBytes (suc n) (b ∷ input) h p r = let e : suc n - 1 ≡ n = omega arith in (p.1, rw e at r)

utf8_length-HasBytes :
    (input : List ℕ)
    → (utf8_length input == 0) ≡ false
    → (0 < utf8_length input) × HasBytes (utf8_length input) input
unfolding utf8_length
utf8_length-HasBytes input =
    let n = lead_length (first input) in
    let P : ℕ → Type 0 = λ k. (k == 0) ≡ false → (0 < k) × HasBytes k input in
    if_rule P (n == 0) (λ _ h. cc)
      λ some_bytes.
        if_rule P (are_continuations (n - 1) (drop 1 input))
          (λ good h. (
            ground arith,
            lead_HasBytes n input (ground arith) (lead-IsPlain (first input) some_bytes)
                (continuations-HasBytes (n - 1) (drop 1 input) good),
          ))
          (λ _ h. cc)

ident_continue-IsPlain : (b : ℕ) → is_ident_continue b ≡ true → IsPlain b
unfolding is_ident_continue
ident_continue-IsPlain b e = (ground arith, ground arith)

ident_start-continue : (b : ℕ) → is_ident_start b ≡ true → is_ident_continue b ≡ true
unfolding is_ident_continue
ident_start-continue b e = ground arith

-- Where an identifier ends.
abbrev Stopped : Cursor → Type 0
Stopped c = (is_at_end c || (not (is_ident_continue (current c)) && utf8_length c.rest == 0)) ≡ true

abbrev IdentifierRound : Cursor → Cursor → Round Cursor Cursor → Type 0
IdentifierRound c d r = Does r (λ e. Nearer c d e) (λ e. Forward c e × Stopped e)

identifier_round-Nearer : (c d : Cursor) → Forward c d → IdentifierRound c d (identifier_round d)
unfolding identifier_round
identifier_round-Nearer c d f =
    let P = IdentifierRound c d in
    if_rule P (is_at_end d) (λ e. (f, rw e refl))
      λ more.
        if_rule P (is_ident_continue (current d))
          (λ e. advance-Nearer f (IsPlain-IsOnByte d (ident_continue-IsPlain (current d) e)))
          λ stops.
            if_rule P (utf8_length d.rest == 0) (λ z. (f, rw (more, stops, z) refl))
              (λ sequence.
                let (some_bytes, input) = utf8_length-HasBytes d.rest sequence in
                advance_by-Nearer_pos (utf8_length d.rest) some_bytes f input)

-- Where an identifier starts.
abbrev pub StartsIdentifier : Cursor → Type 0
StartsIdentifier c = (is_ident_start (current c) || ltb 0 (utf8_length c.rest)) ≡ true

starts-Stopped : (c : Cursor) → IsOnByte c → StartsIdentifier c → Stopped c → ⊥
starts-Stopped c on h s = ground (arith, ident_start-continue (current c))

pub scan_identifier-Scans :
    (lexer : Lexer)
    → IsNested lexer.mode lexer.frames
    → IsReady lexer
    → IsOnByte lexer.cursor
    → StartsIdentifier lexer.cursor
    → Returns (scan_identifier lexer) (Scans (measure lexer) lexer.cursor)
unfolding scan_identifier
scan_identifier-Scans lexer nested ready on h =
    let c = lexer.cursor in
    bind_rule (λ e. Forward c e × Stopped e) (Scans (measure lexer) c)
      (loop (suc (size c)) identifier_round c) _
      (loop_rule (λ e. Forward c e) (λ e. Forward c e × Stopped e) size identifier_round
        (λ d f. identifier_round-Nearer c d f) (suc (size c)) c (omega arith) stay)
      (λ e (f, stopped).
        unfold finish_identifier in
        token-Scans lexer e _ (keyword_type≢eof _) nested ready f (elim (Forward-same f) [
          | inl same ↦ absurd (starts-Stopped c on h (rw same stopped))
          | inr moved ↦ moved
        ]))

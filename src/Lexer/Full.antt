-- ===== src/Lexer/Full.antt =====
-- src/lexer/ms_lexer.c: an error is refused only where the list of diagnostics is full.
use mslang_cc.Base.{◌≤◌, ◌≡◌, false, ℕ, List, arith, ◌==◌, length}
use mslang_cc.Base.Loop.{if_rule}
use mslang_cc.Proto.{MsResult, is_ok}
use mslang_cc.Diag.{DiagList, diag_max, report}
use mslang_cc.Lexer.Cursor.{Cursor, current, lookahead, lexer_error, consume_newline}
use mslang_cc.Lexer.Trivia.{Trivia, cross_newline}

abbrev pub IsFull : DiagList → Type 0
IsFull diags = diag_max ≤ length diags.items

abbrev pub FullUnless : MsResult → DiagList → Type 0
FullUnless result diags = is_ok result ≡ false → IsFull diags

abbrev Fills : MsResult × DiagList → Type 0
Fills r = FullUnless r.0 r.1

pub lexer_error-IsFull :
    (line column code : ℕ) (message : List ℕ) (diags : DiagList)
    → Fills (lexer_error line column code message diags)
unfolding lexer_error report
lexer_error-IsFull line column code message diags bad = ground arith

pub consume_newline-IsFull :
    (c : Cursor) (diags : DiagList)
    → FullUnless (consume_newline c diags).0 (consume_newline c diags).2
unfolding consume_newline
consume_newline-IsFull c diags =
    let P : MsResult × Cursor × DiagList → Type 0 = λ r. FullUnless r.0 r.2 in
    if_rule P (current c == b'\r')
      (λ _. if_rule P (lookahead c == b'\n') (λ _ e. cc) (λ _. lexer_error-IsFull _ _ _ _ diags))
      (λ _ e. cc)

pub cross_newline-IsFull : (t : Trivia) → FullUnless (cross_newline t).0 (cross_newline t).1.diags
unfolding cross_newline
cross_newline-IsFull t = consume_newline-IsFull t.cursor t.diags

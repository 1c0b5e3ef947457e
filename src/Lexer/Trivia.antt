-- ===== src/Lexer/Trivia.antt =====
-- src/lexer/ms_lexer.c: spaces, newlines and comments between tokens.
use mslang_cc.Base.{
  Bool, not, ◌&&◌, ◌||◌, Option, none, some, List, [], ◌∷◌, ℕ, suc, ◌==◌, if◌then◌else◌, length,
}
use mslang_cc.Base.Loop.{Round, again, leave, loop, ◌>>=◌}
use mslang_cc.Base.Text.{codes}
use mslang_cc.Proto.{MsResult, ok, error_syntax, is_ok}
use mslang_cc.Diag.{DiagList}
use mslang_cc.Lexer.Cursor.{
  Cursor, is_at_end, current, lookahead, advance, advance_by, lexer_error, consume_newline,
  is_newline,
}

-- `struct MsLexerNewline`, once it was seen
pub record Newline : Type 0 where
  pub pos : ℕ
  pub line : ℕ
  pub column : ℕ

-- The part of the lexer that skipping changes, with the first newline that was crossed.
pub record Trivia : Type 0 where
  pub cursor : Cursor
  pub diags : DiagList
  pub newline : Option Newline

-- `msLexerNoteNewline`
unfoldable pub note_newline : Cursor → Option Newline → Option Newline
note_newline c none = some (record { pos = c.pos; line = c.line; column = c.column })
note_newline c (some n) = some n

-- A run of bytes that satisfy a test.
unfoldable pub skip_while : (ℕ → Bool) → List ℕ → Cursor → Cursor
skip_while p [] c = c
skip_while p (b ∷ r) c = if p b then skip_while p r (advance c) else c

-- `msLexerSkipLineComment`
unfoldable pub skip_line_comment : Cursor → Cursor
unfolding skip_while
skip_line_comment c = skip_while (λ b. not (is_newline b)) c.rest c

-- Crossing a newline: noted, then consumed.
unfoldable pub cross_newline : Trivia → MsResult × Trivia
unfolding consume_newline note_newline
cross_newline t =
    let (result, c, diags) = consume_newline t.cursor t.diags in
    (result, record { cursor = c; diags = diags; newline = note_newline t.cursor t.newline })

abbrev pub unclosed : List ℕ
unclosed = codes "unclosed block comment"

-- The body of the loop in `msLexerSkipBlockComment`, for a comment that starts at `line` and `column`.
unfoldable pub block_comment_round : ℕ → ℕ → Trivia → Round Trivia (MsResult × Trivia)
unfolding is_at_end current lookahead advance advance_by cross_newline lexer_error
block_comment_round line column t =
    if is_at_end t.cursor
    then (let (result, diags) = lexer_error line column 105 unclosed t.diags in
        leave (result, record t { diags = diags }))
    else if is_newline (current t.cursor)
    then (let (result, t') = cross_newline t in
        if is_ok result then again t' else leave (error_syntax, t'))
    else if current t.cursor == b'*' && lookahead t.cursor == b'/'
    then leave (ok, record t { cursor = advance_by 2 t.cursor })
    else again (record t { cursor = advance t.cursor })

-- `msLexerSkipBlockComment`
unfoldable pub skip_block_comment : Trivia → Option (MsResult × Trivia)
unfolding block_comment_round loop
skip_block_comment t =
    loop (suc (length t.cursor.rest)) (block_comment_round t.cursor.line t.cursor.column)
      (record t { cursor = advance_by 2 t.cursor })

abbrev pub after_comment : Option (MsResult × Trivia) → Round Trivia (Option (MsResult × Trivia))
after_comment none = leave none
after_comment (some (result, t)) = if is_ok result then again t else leave (some (error_syntax, t))

-- The body of the loop in `msLexerSkipTrivia`.
unfoldable pub trivia_round : Trivia → Round Trivia (Option (MsResult × Trivia))
unfolding current lookahead advance cross_newline skip_line_comment skip_block_comment
trivia_round t =
    let c = current t.cursor in
    if c == b' ' || c == b'\t'
    then again (record t { cursor = advance t.cursor })
    else if is_newline c
    then (let (result, t') = cross_newline t in
        if is_ok result then again t' else leave (some (error_syntax, t')))
    else if c == b'/' && lookahead t.cursor == b'/'
    then again (record t { cursor = skip_line_comment t.cursor })
    else if c == b'/' && lookahead t.cursor == b'*'
    then after_comment (skip_block_comment t)
    else leave (some (ok, t))

-- `msLexerSkipTrivia`
unfoldable pub skip_trivia : Trivia → Option (MsResult × Trivia)
unfolding trivia_round loop
skip_trivia t = loop (suc (length t.cursor.rest)) trivia_round t >>= λ r. r

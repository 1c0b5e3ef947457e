-- ===== src/Lexer/State.antt =====
-- src/lexer/ms_lexer.h and .c: the state of the lexer, and how a token is made and committed.
use mslang_cc.Base.{Bool, true, false, Option, List, ℕ, ◌-◌, if◌then◌else◌, drop}
use mslang_cc.Proto.{MsResult, ok, error_syntax, is_ok}
use mslang_cc.Diag.{DiagList}
use mslang_cc.Lexer.Tokens.{TokenType, eof, string, semicolon, Token, token_ends_statement}
use mslang_cc.Lexer.Cursor.{Cursor, lexer_error}

-- `MsLexerModeKind`
pub data Mode : Type 0 where
  normal fstring_text fstring_format_spec : Mode

-- `struct MsLexerFrame`; the depths are `int` in the source, and count bytes that were read
pub record LexerFrame : Type 0 where
  pub quote : ℕ
  pub brace_depth : ℕ
  pub bracket_depth : ℕ

abbrev pub max_fstring_depth : ℕ
max_fstring_depth = 8

-- `struct MsLexer`: `frames` are the live ones, the innermost first, and `peeked` is the cached token
-- with its result, if there is one.
pub record Lexer : Type 0 where
  pub cursor : Cursor
  pub chunk_name : List ℕ
  pub can_end_statement : Bool
  pub mode : Mode
  pub frames : List LexerFrame
  pub peeked : Option (Token × MsResult)
  pub diags : DiagList
  pub hit_diag_cap : Bool
  pub block_brace_depth : ℕ

-- What a scan hands back: the result, the token and the lexer.
pub record Scanned : Type 0 where
  pub result : MsResult
  pub token : Token
  pub lexer : Lexer

-- `msLexerMakeToken`: the lexeme goes from one cursor to another
unfoldable pub make_token : TokenType → Cursor → Cursor → Token
make_token type from to = record {
  type_of = type;
  start = from.pos;
  length = to.pos - from.pos;
  line = from.line;
  column = from.column;
}

-- `msLexerMakeEof`, with the result beside it
unfoldable pub make_eof : MsResult → Lexer → Scanned
unfolding make_token
make_eof result lexer = record {
  result = result;
  token = make_token eof lexer.cursor lexer.cursor;
  lexer = record lexer { can_end_statement = false };
}

-- A STRING token in the text of an f-string.
abbrev pub is_text_segment : Mode → TokenType → Bool
is_text_segment fstring_text string = true
is_text_segment m t = false

-- `msLexerCommitToken`, and the return of the token
unfoldable pub commit_token : Token → Lexer → Scanned
unfolding token_ends_statement
commit_token token lexer = record {
  result = ok;
  token = token;
  lexer = record lexer {
    can_end_statement =
        if is_text_segment lexer.mode token.type_of
        then false
        else token_ends_statement token.type_of;
  };
}

-- `msLexerMakeSemicolon`
unfoldable pub make_semicolon : ℕ → ℕ → ℕ → Lexer → Scanned
make_semicolon pos line column lexer = record {
  result = ok;
  token = record { type_of = semicolon; start = pos; length = 0; line = line; column = column };
  lexer = record lexer { can_end_statement = false };
}

-- The end of a scan that found an error: it is reported, and the token committed, or the end of the
-- input is returned where the report is refused.
unfoldable pub report_token : ℕ × ℕ × ℕ × List ℕ → Token → Lexer → Scanned
unfolding lexer_error make_eof commit_token
report_token (code, line, column, message) token lexer =
    let (result, diags) = lexer_error line column code message lexer.diags in
    if is_ok result
    then commit_token token (record lexer { diags = diags })
    else make_eof error_syntax (record lexer { diags = diags })

-- `msLexerPopFstringFrame`
unfoldable pub pop_fstring_frame : Lexer → Lexer
pop_fstring_frame lexer = record lexer { frames = drop 1 lexer.frames; mode = normal }

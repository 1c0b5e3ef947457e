-- ===== src/Lexer/Tokens.antt =====
-- src/lexer/ms_lexer.h: the tokens, and which of them end a statement.
use mslang_cc.Base.{Bool, true, false, ℕ}

-- `MsTokenType`
pub data TokenType : Type 0 where
  eof invalid identifier int float string raw_string bytes fstring_start fstring_end : TokenType
  fstring_format semicolon kw_and kw_as kw_async kw_await kw_break kw_case kw_class : TokenType
  kw_continue kw_default kw_del kw_div kw_else kw_except kw_false kw_finally kw_for : TokenType
  kw_from kw_func kw_global kw_if kw_import kw_in kw_is kw_lambda kw_nil kw_not kw_or : TokenType
  kw_pass kw_raise kw_return kw_select kw_self kw_super kw_true kw_try kw_while kw_with : TokenType
  plus minus star slash percent double_star equal_equal bang_equal less less_equal : TokenType
  greater greater_equal amp pipe caret tilde shift_left shift_right colon_equal equal : TokenType
  plus_equal minus_equal star_equal slash_equal percent_equal double_star_equal : TokenType
  amp_equal pipe_equal caret_equal shift_left_equal shift_right_equal plus_plus : TokenType
  minus_minus left_paren right_paren left_bracket right_bracket left_brace right_brace : TokenType
  comma colon dot ellipsis : TokenType

-- `struct MsToken`: `start` is the offset of the lexeme in the source
pub record Token : Type 0 where
  pub type_of : TokenType
  pub start : ℕ
  pub length : ℕ
  pub line : ℕ
  pub column : ℕ

-- `msLexerTokenEndsStatement`
unfoldable pub token_ends_statement : TokenType → Bool
token_ends_statement identifier = true
token_ends_statement int = true
token_ends_statement float = true
token_ends_statement string = true
token_ends_statement raw_string = true
token_ends_statement bytes = true
token_ends_statement fstring_end = true
token_ends_statement kw_true = true
token_ends_statement kw_false = true
token_ends_statement kw_nil = true
token_ends_statement kw_return = true
token_ends_statement kw_break = true
token_ends_statement kw_continue = true
token_ends_statement kw_pass = true
token_ends_statement kw_raise = true
token_ends_statement right_paren = true
token_ends_statement right_bracket = true
token_ends_statement right_brace = true
token_ends_statement plus_plus = true
token_ends_statement minus_minus = true
token_ends_statement _ = false

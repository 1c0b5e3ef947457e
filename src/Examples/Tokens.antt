-- ===== src/Examples/Tokens.antt =====
-- Runs of the lexer.
use mslang_cc.Base.{Option, none, some, List, [], ◌∷◌, ℕ, ◌+◌, ◌*◌, ◌≡◌, refl, arith, length}
use mslang_cc.Base.Loop.{Returns}
use mslang_cc.Base.Text.{codes}
use mslang_cc.Diag.{DiagList}
use mslang_cc.Lexer.Tokens.{
  TokenType, eof, identifier, int, string, fstring_start, fstring_end, fstring_format, semicolon,
  kw_if, equal, plus_equal, left_brace, right_brace, Token,
}
use mslang_cc.Lexer.Keywords.{keyword_type, keyword_search, key_cmp, memcmp}
use mslang_cc.Lexer.State.{Lexer}
use mslang_cc.Lexer.Progress.{measure, Scans}
use mslang_cc.Lexer.Scan.{scan, init_lexer}
use mslang_cc.Lexer.ScanLaws.{scan-Scans}
use mslang_cc.Lexer.KeywordLaws.{Finds, keyword_type-Finds}
use mslang_cc.Lexer.Stream.{is_eof, collect, Tokens, collect-init_lexer}

abbrev no_diags : DiagList
no_diags = record { chunk_name = codes "main"; items = [] }

-- An f-string over two lines of code, one of which ends with `\r\n`.
abbrev program : List ℕ
program = codes "x = f\"a{b:>{w}}\"\r\nif x { // y\n  x += 0x1F\n}"

abbrev start : Lexer
start = init_lexer program (codes "main") no_diags

scan-Scans_example : Returns (scan start) (Scans (measure start) start.cursor)
unfolding init_lexer
scan-Scans_example = scan-Scans start (omega arith, tt) (refl, refl)

collect-init_lexer_example :
    Returns
      (collect (2 * length program + 1) (init_lexer program (codes "main") no_diags))
      (Tokens program 0)
collect-init_lexer_example = collect-init_lexer program (codes "main") no_diags (omega arith)

keyword_type-Finds_example : Finds (codes "while") (keyword_type (codes "while"))
keyword_type-Finds_example = keyword_type-Finds (codes "while")

types : List Token → List TokenType
types [] = []
types (t ∷ ts) = t.type_of ∷ types ts

-- The tokens of the program, or none.
abbrev tokens_of : Option (List Token × DiagList) → List TokenType
tokens_of none = []
tokens_of (some r) = types r.0

tokens_of_program :
    tokens_of (collect 50 start)
    ≡ identifier ∷ equal ∷ fstring_start ∷ string ∷ left_brace ∷ identifier ∷ fstring_format
      ∷ right_brace ∷ fstring_end ∷ semicolon ∷ kw_if ∷ identifier ∷ left_brace ∷ identifier
      ∷ plus_equal ∷ int ∷ semicolon ∷ right_brace ∷ semicolon ∷ eof ∷ []
unfolding collect init_lexer types is_eof keyword_search key_cmp memcmp
tokens_of_program = refl

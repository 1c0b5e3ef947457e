-- ===== src/Lexer/Scan.antt =====
-- src/lexer/ms_lexer.c: one token, the next token, and the lookahead.
use mslang_cc.Base.{
  Bool, true, false, not, ◌&&◌, ◌||◌, Option, none, some, List, [], ◌∷◌, ℕ, suc, ◌-◌, ltb, leb,
  ◌==◌, if◌then◌else◌, length, take, drop,
}
use mslang_cc.Base.Loop.{Round, again, leave, loop, ◌>>=◌}
use mslang_cc.Base.Text.{codes}
use mslang_cc.Proto.{ok, error_syntax, is_ok}
use mslang_cc.Diag.{DiagList}
use mslang_cc.Lexer.Tokens.{TokenType, invalid}
use mslang_cc.Lexer.Cursor.{
  Cursor, is_at_end, first, second, current, lookahead, advance, advance_by, lexer_error,
  is_ident_start, is_ident_continue, is_digit, utf8_length,
}
use mslang_cc.Lexer.Keywords.{keyword_type}
use mslang_cc.Lexer.State.{
  Mode, normal, fstring_text, fstring_format_spec, LexerFrame, Lexer, Scanned, make_token, make_eof,
  commit_token, make_semicolon, report_token, pop_fstring_frame,
}
use mslang_cc.Lexer.Trivia.{Newline, skip_trivia}
use mslang_cc.Lexer.Numbers.{scan_number}
use mslang_cc.Lexer.Strings.{scan_string, scan_raw_string}
use mslang_cc.Lexer.Fstrings.{scan_fstring_start, scan_fstring_format, scan_fstring_text, unpaired}
use mslang_cc.Lexer.Operators.{scan_operator}

-- The body of the loop over the bytes of an identifier.
unfoldable pub identifier_round : Cursor → Round Cursor Cursor
unfolding is_at_end current advance advance_by is_ident_continue utf8_length
identifier_round c =
    if is_at_end c
    then leave c
    else if is_ident_continue (current c)
    then again (advance c)
    else if utf8_length c.rest == 0
    then leave c
    else again (advance_by (utf8_length c.rest) c)

unfoldable pub finish_identifier : Lexer → Cursor → Scanned
unfolding keyword_type commit_token make_token
finish_identifier lexer c =
    let word = take (c.pos - lexer.cursor.pos) lexer.cursor.rest in
    commit_token (make_token (keyword_type word) lexer.cursor c) (record lexer { cursor = c })

-- an identifier or a keyword
unfoldable pub scan_identifier : Lexer → Option Scanned
unfolding loop identifier_round finish_identifier
scan_identifier lexer = loop (suc (length lexer.cursor.rest)) identifier_round lexer.cursor >>= λ c.
    some (finish_identifier lexer c)

-- a byte of a malformed sequence
unfoldable pub refuse_utf8 : Lexer → Scanned
unfolding advance report_token make_token
refuse_utf8 lexer =
    let c = advance lexer.cursor in
    report_token (102, lexer.cursor.line, lexer.cursor.column, codes "invalid UTF-8 sequence")
      (make_token invalid lexer.cursor c) (record lexer { cursor = c })

-- `msLexerScan` from the first byte of a token on
unfoldable pub scan_token : Lexer → Option Scanned
unfolding current lookahead utf8_length is_ident_start is_digit refuse_utf8 scan_string
    scan_raw_string scan_fstring_start scan_identifier scan_number scan_operator
scan_token lexer =
    let c = current lexer.cursor in
    let next = lookahead lexer.cursor in
    let sequence = utf8_length lexer.cursor.rest in
    if leb 0x80 c && sequence == 0
    then some (refuse_utf8 lexer)
    else if c == b'"'
    then scan_string false lexer
    else if c == b'`'
    then scan_raw_string lexer
    else if c == b'f' && next == b'"'
    then scan_fstring_start lexer
    else if c == b'b' && next == b'"'
    then scan_string true lexer
    else if is_ident_start c || ltb 0 sequence
    then scan_identifier lexer
    else if is_digit c || (c == b'.' && is_digit next)
    then scan_number lexer
    else scan_operator lexer

-- `msLexerScan` at the end of the input
unfoldable pub scan_end : Lexer → List LexerFrame → Scanned
unfolding report_token make_token make_semicolon make_eof pop_fstring_frame
scan_end lexer [] =
    if lexer.can_end_statement
    then make_semicolon lexer.cursor.pos lexer.cursor.line lexer.cursor.column lexer
    else make_eof ok lexer
scan_end lexer (f ∷ fs) =
    report_token (unpaired lexer.cursor) (make_token invalid lexer.cursor lexer.cursor)
      (pop_fstring_frame lexer)

unfoldable pub scan_here : Lexer → Option Scanned
unfolding is_at_end scan_end scan_token
scan_here lexer =
    if is_at_end lexer.cursor then some (scan_end lexer lexer.frames) else scan_token lexer

-- `msLexerScan` behind the trivia
unfoldable pub after_trivia : Lexer → Option Newline → Option Scanned
unfolding make_semicolon scan_here
after_trivia lexer none = scan_here lexer
after_trivia lexer (some n) =
    if lexer.can_end_statement
    then some (make_semicolon n.pos n.line n.column lexer)
    else scan_here lexer

unfoldable pub scan_normal : Lexer → Option Scanned
unfolding skip_trivia after_trivia make_eof
scan_normal lexer =
    skip_trivia (record { cursor = lexer.cursor; diags = lexer.diags; newline = none }) >>= λ r.
    let lexer' = record lexer { cursor = r.1.cursor; diags = r.1.diags } in
    if is_ok r.0 then after_trivia lexer' r.1.newline else some (make_eof error_syntax lexer')

-- `msLexerScan`
unfoldable pub scan_in : Mode → Lexer → Option Scanned
unfolding scan_normal scan_fstring_text scan_fstring_format
scan_in normal lexer = scan_normal lexer
scan_in fstring_text lexer = scan_fstring_text lexer
scan_in fstring_format_spec lexer = scan_fstring_format lexer

unfoldable pub scan : Lexer → Option Scanned
unfolding scan_in
scan lexer = scan_in lexer.mode lexer

-- the flag that a failed scan sets
abbrev pub note_cap : Scanned → Scanned
note_cap s =
    if is_ok s.result then s else record s { lexer = record s.lexer { hit_diag_cap = true } }

-- a scan, where the limit was not hit
unfoldable pub scan_guarded : Lexer → Option Scanned
unfolding scan make_eof
scan_guarded lexer =
    if lexer.hit_diag_cap
    then some (make_eof error_syntax lexer)
    else (scan lexer >>= λ s. some (note_cap s))

-- `msLexerNext`
unfoldable pub next : Lexer → Option Scanned
unfolding scan_guarded
next lexer = elim lexer.peeked [
  | some (token, result) ↦
      some (record { result = result; token = token; lexer = record lexer { peeked = none } })
  | none ↦ scan_guarded lexer
]

-- `msLexerPeek`
unfoldable pub peek : Lexer → Option (TokenType × Lexer)
unfolding scan_guarded
peek lexer = elim lexer.peeked [
  | some (token, result) ↦ some (token.type_of, lexer)
  | none ↦ scan_guarded lexer >>= λ s.
      some (s.token.type_of, record s.lexer { peeked = some (s.token, s.result) })
]

-- whether the source starts with a byte order mark
abbrev pub has_mark : List ℕ → Bool
has_mark source = first source == 0xEF && second source == 0xBB && first (drop 2 source) == 0xBF

abbrev pub start_cursor : List ℕ → Cursor
start_cursor source = record { rest = source; pos = 0; line = 1; column = 1 }

abbrev pub fresh_lexer : List ℕ → List ℕ → DiagList → Lexer
fresh_lexer source chunk_name diags = record {
  cursor = start_cursor source;
  chunk_name = chunk_name;
  can_end_statement = false;
  mode = normal;
  frames = [];
  peeked = none;
  diags = diags;
  hit_diag_cap = false;
  block_brace_depth = 0;
}

-- `msLexerInit`
unfoldable pub init_lexer : List ℕ → List ℕ → DiagList → Lexer
unfolding lexer_error
init_lexer source chunk_name diags =
    if has_mark source
    then (let (result, diags') = lexer_error 1 1 101 (codes "UTF-8 byte order mark") diags in
        record (fresh_lexer source chunk_name diags') {
          cursor = record { rest = drop 3 source; pos = 3; line = 1; column = 4 };
          hit_diag_cap = not (is_ok result);
        })
    else fresh_lexer source chunk_name diags

-- ===== src/Lexer/Literals.antt =====
-- src/lexer/ms_lexer.c: what `msLexerScanString` accepts is what `msLexerUnescape` decodes.
use mslang_cc.Base.{
  Bool, true, false, Option, none, List, [], ◌∷◌, ℕ, suc, ◌<◌, max, ◌≡◌, refl, sym, ◌≢◌, arith,
  if◌then◌else◌, length, drop,
}
use mslang_cc.Base.Loop.{
  loop, Returns, if_rule, option_rule, bind_rule, loop_rule, both_rule, Returns-map,
}
use mslang_cc.Proto.{is_ok}
use mslang_cc.Lexer.Tokens.{TokenType, eof, invalid, string, bytes}
use mslang_cc.Lexer.Cursor.{Cursor, advance_by, lexer_error}
use mslang_cc.Lexer.State.{Lexer, Scanned, make_token, make_eof, commit_token, report_token}
use mslang_cc.Lexer.Forward.{Forward, stay, size, Nearer, advance_by-Nearer_pos}
use mslang_cc.Lexer.Strings.{Body, string_round, finish_string, scan_string}
use mslang_cc.Lexer.StringScans.{string_round-Nearer, HasOpening}
use mslang_cc.Lexer.Unescape.{unescape}
use mslang_cc.Lexer.Meaning.{done}
use mslang_cc.Lexer.WritePass.{Unescapes, GivesRoom, unescape_impl-Unescapes}
use mslang_cc.Lexer.Escapes.{advance_by-rest}
use mslang_cc.Lexer.StringBodies.{BodyUpTo, Going, Closed, string_round-Going}

-- The type of the token of a literal that is in order.
abbrev pub literal_type : Bool → TokenType
literal_type is_bytes = if is_bytes then bytes else string

abbrev pub opening : Bool → ℕ
opening is_bytes = if is_bytes then 2 else 1

-- A literal in order has a body that can be decoded, between its opening and its closing quote.
abbrev pub HasBody : Bool → Lexer → Scanned → Type 0
HasBody is_bytes lexer s =
    s.token.type_of ≡ literal_type is_bytes
    → BodyUpTo (drop (opening is_bytes) lexer.cursor.rest) (b'"' ∷ s.lexer.cursor.rest)

other_type : (is_bytes : Bool) (t : TokenType) → t ≢ string → t ≢ bytes → t ≢ literal_type is_bytes
other_type true t s b e = b e
other_type false t s b e = s e

report_token-type :
    (is_bytes : Bool) (e : ℕ × ℕ × ℕ × List ℕ) (from to : Cursor) (lexer : Lexer)
    → (report_token e (make_token invalid from to) lexer).token.type_of ≢ literal_type is_bytes
unfolding report_token commit_token make_eof make_token
report_token-type is_bytes (code, line, column, message) from to lexer =
    if_rule (λ (s : Scanned). s.token.type_of ≢ literal_type is_bytes)
      (is_ok (lexer_error line column code message lexer.diags).0)
      (λ _. other_type is_bytes invalid (λ k. cc) (λ k. cc))
      (λ _. other_type is_bytes eof (λ k. cc) (λ k. cc))

finish_string-HasBody :
    (is_bytes : Bool) (lexer : Lexer) (b : Body)
    → Closed (drop (opening is_bytes) lexer.cursor.rest) b
    → HasBody is_bytes lexer (finish_string lexer (literal_type is_bytes) b)
unfolding finish_string commit_token
finish_string-HasBody is_bytes lexer b h =
    option_rule (HasBody is_bytes lexer) b.fault (λ no_fault _. h no_fault)
      (λ e _ type. absurd (
        report_token-type is_bytes e lexer.cursor b.cursor (record lexer { cursor = b.cursor })
          type))

scan_string-HasBody :
    (is_bytes : Bool) (lexer : Lexer)
    → HasOpening is_bytes lexer.cursor
    → Returns (scan_string is_bytes lexer) (HasBody is_bytes lexer)
unfolding scan_string
scan_string-HasBody is_bytes lexer there =
    let c = lexer.cursor in
    let opened = advance_by (opening is_bytes) c in
    let input = drop (opening is_bytes) c.rest in
    let start : Body = record { cursor = opened; fault = none; check_escapes = true } in
    let near : Nearer c c opened =
      advance_by-Nearer_pos (opening is_bytes) (ground arith) stay there in
    bind_rule (λ b. Forward opened b.cursor × Closed input b) _
      (loop (suc (size c)) (string_round c) start) _
      (loop_rule (λ b. Forward opened b.cursor × Going input b)
        (λ b. Forward opened b.cursor × Closed input b) (λ b. size b.cursor) (string_round c)
        (λ b h.
          both_rule (λ b'. Nearer opened b.cursor b'.cursor) (Going input)
            (λ b'. (Forward opened b'.cursor × Going input b') × (size b'.cursor < size b.cursor))
            (λ b'. Forward opened b'.cursor) (Closed input) (string_round c b)
            (λ b' n g. ((n.0, g), n.1)) (string_round-Nearer c opened b h.0)
            (string_round-Going c input b h.1))
        (suc (size c)) start (omega (arith, near.1))
        (
          stay,
          λ _. record {
            checks = refl;
            so_far = record {
              body = [];
              out = [];
              split = sym (advance_by-rest (opening is_bytes) c);
              decodes = done;
            };
          },
        ))
      (λ b h. finish_string-HasBody is_bytes lexer b h.1)

abbrev pub Literal : (ℕ → Option (List ℕ)) → Bool → Lexer → Scanned → Type 0
Literal alloc is_bytes lexer s =
    s.token.type_of ≡ literal_type is_bytes
    → (literal : BodyUpTo (drop (opening is_bytes) lexer.cursor.rest) (b'"' ∷ s.lexer.cursor.rest))
      × Returns (unescape alloc literal.body)
          (Unescapes literal.out (alloc (max 1 (length literal.out))))

-- The lexer and the decoder agree on strings and bytes literals: where the scan of one, from its
-- opening on, ends with a token that is no error, the bytes between the opening and the closing
-- quote are a body that stands for bytes, where `Decodes` says so apart from the code, and decoding
-- it violates no assertion, writes nothing outside its block and hands back these bytes, unless the
-- allocation fails. The scan always ends. A block is assumed to have the size that was asked for.
pub scan_string-unescape :
    (alloc : ℕ → Option (List ℕ))
    → GivesRoom alloc
    → (is_bytes : Bool) (lexer : Lexer) → HasOpening is_bytes lexer.cursor
    → Returns (scan_string is_bytes lexer) (Literal alloc is_bytes lexer)
unfolding unescape
scan_string-unescape alloc room is_bytes lexer there =
    Returns-map (HasBody is_bytes lexer) (Literal alloc is_bytes lexer) (scan_string is_bytes lexer)
      (λ s h type.
        let literal = h type in
        (
          literal,
          unescape_impl-Unescapes alloc room false literal.body literal.out literal.decodes,
        ))
      (scan_string-HasBody is_bytes lexer there)

-- ===== src/Lexer/SizePass.antt =====
-- src/lexer/ms_lexer.c: the first pass of `msLexerUnescapeImpl` sizes a body.
use mslang_cc.Base.{
  Bool, true, Option, none, some, List, [], ℕ, suc, ◌+◌, ◌<◌, ◌≡◌, refl, ap, arith, if◌then◌else◌,
  length, length-append,
}
use mslang_cc.Base.Loop.{
  join_rule, Round, loop, Returns, Does, if_rule, option_rule, Returns-some, Returns-none,
  loop_rule,
}
use mslang_cc.Lexer.Cursor.{no_bytes}
use mslang_cc.Lexer.Unescape.{Piece, next_piece, Sizing, size_round, decoded_size}
use mslang_cc.Lexer.Unescaping.{Finds, next_piece-Found, Found}
use mslang_cc.Lexer.Meaning.{Decodes, done, plain, brace, letter, hex}

no_bytes-Decodes :
    {braces : Bool} {raw out : List ℕ} → no_bytes raw ≡ true → Decodes braces raw out → out ≡ []
no_bytes-Decodes h done = refl
no_bytes-Decodes h (plain c e k d) = cc
no_bytes-Decodes h (brace c e k d) = cc
no_bytes-Decodes h (letter kind byte l d) = cc
no_bytes-Decodes h (hex kind digits bytes e d) = cc

-- A round of either loop: what it does at the end of the body, and with the piece it finds.
pub next_piece_rule :
    {X : Type 0} (P : X → Type 0) {braces : Bool} {raw out : List ℕ} {x : X} (y : X)
    (f : List ℕ × Piece → X)
    → Decodes braces raw out
    → (out ≡ [] → P x)
    → ((rest : List ℕ) (piece : Piece) → Found braces raw out rest piece → P (f (rest, piece)))
    → P (if no_bytes raw then x else elim (next_piece braces raw) [ none ↦ y | some q ↦ f q ])
next_piece_rule P {braces} {raw} y f d at_end more =
    if_rule P (no_bytes raw) (λ e. at_end (no_bytes-Decodes e d))
      λ e.
        option_rule P (next_piece braces raw)
          (λ n. absurd (Returns-none _ n (next_piece-Found d e)))
          (λ q found. more q.0 q.1 (Returns-some (Finds braces raw _) found (next_piece-Found d e)))

-- In the first pass, the size so far and that of what is left make the total.
record SizeInv (braces : Bool) (total : ℕ) (s : Sizing) : Type 0 where
  out : List ℕ
  decodes : Decodes braces s.rest out
  adds_up : s.size + length out ≡ total

abbrev SizeRound : Bool → ℕ → Sizing → Round Sizing (Option ℕ) → Type 0
SizeRound braces total s r =
    Does r (λ s'. SizeInv braces total s' × (length s'.rest < length s.rest))
      (λ r. Returns r (λ n. n ≡ total))

size_round-SizeInv :
    (braces : Bool) (total : ℕ) (s : Sizing)
    → SizeInv braces total s
    → SizeRound braces total s (size_round braces s)
unfolding size_round
size_round-SizeInv braces total s inv =
    next_piece_rule (SizeRound braces total s) _ _ inv.decodes
      (λ e. omega (arith, inv.adds_up, ap length e))
      (λ rest piece found. (
        record {
          out = found.later;
          decodes = found.decodes;
          adds_up = omega (
            arith,
            inv.adds_up,
            found.counted,
            ap length found.split,
            length-append piece.written found.later,
          );
        },
        found.shorter,
      ))

-- The first pass computes the number of bytes that the body stands for.
pub decoded_size-Decodes :
    {braces : Bool} {raw out : List ℕ}
    → Decodes braces raw out
    → Returns (decoded_size braces raw) (λ n. n ≡ length out)
unfolding decoded_size
decoded_size-Decodes {braces} {raw} {out} d =
    let total = length out in
    join_rule (λ n. n ≡ total)
      (loop (suc (length raw)) (size_round braces) (record { rest = raw; size = 0 }))
      (loop_rule (SizeInv braces total) (λ r. Returns r (λ n. n ≡ total)) (λ s. length s.rest)
        (size_round braces) (size_round-SizeInv braces total) (suc (length raw))
        (record { rest = raw; size = 0 }) (omega arith)
        (record { out = out; decodes = d; adds_up = omega arith }))

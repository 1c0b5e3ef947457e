-- ===== src/Lexer/WritePass.antt =====
-- src/lexer/ms_lexer.c: the second pass of `msLexerUnescapeImpl` writes the bytes of a body.
use mathlib.Core.List.{append_assoc, append-nil}
use mslang_cc.Base.{
  Bool, true, Option, none, some, List, [], ◌∷◌, ◌++◌, ℕ, suc, ◌+◌, ◌≤◌, ◌<◌, max, ◌≡◌, refl, sym,
  ap, ◌∙◌, arith, ◌==◌, length, length-append,
}
use mslang_cc.Base.Loop.{Round, loop, Returns, Does, bind_rule, loop_rule}
use mslang_cc.Proto.{ok, error_oom}
use mslang_cc.Lexer.Unescape.{
  block_size, decoded_size, write_at, Writing, write_round, Unescaped, write_decoded, unescape_impl,
}
use mslang_cc.Lexer.Meaning.{Decodes}
use mslang_cc.Lexer.SizePass.{next_piece_rule, decoded_size-Decodes}

-- A write behind `done` keeps it, and takes its room from the spare bytes.
record Written (done piece spare : List ℕ) : Type 0 where
  left : List ℕ
  writes : write_at (length done) piece (done ++ spare) ≡ some (done ++ (piece ++ left))
  room : length piece + length left ≡ length spare

write_at-Written :
    (before piece spare : List ℕ) → length piece ≤ length spare → Written before piece spare
unfolding write_at
write_at-Written [] [] spare h = record { left = spare; writes = refl; room = omega arith }
write_at-Written [] (b ∷ bs) [] h = absurd (omega arith)
write_at-Written [] (b ∷ bs) (c ∷ spare) h =
    let w = write_at-Written [] bs spare (omega arith) in
    record { left = w.left; writes = rw w.writes refl; room = omega (arith, w.room) }
write_at-Written (x ∷ before) bs spare h =
    let w = write_at-Written before bs spare h in
    record { left = w.left; writes = rw w.writes refl; room = w.room }

-- In the second pass, the buffer begins with the bytes so far, and has room for the others.
record WriteInv (braces : Bool) (out : List ℕ) (room : ℕ) (w : Writing) : Type 0 where
  so_far : List ℕ
  later : List ℕ
  spare : List ℕ
  decodes : Decodes braces w.rest later
  split : out ≡ so_far ++ later
  buffered : w.buffer ≡ so_far ++ spare
  placed : w.out_pos ≡ length so_far
  fits : length later ≤ length spare
  capacity : length w.buffer ≡ room

-- The second pass ends with all bytes written.
pub record Complete (out : List ℕ) (room : ℕ) (w : Writing) : Type 0 where
  pub spare : List ℕ
  pub buffered : w.buffer ≡ out ++ spare
  pub placed : w.out_pos ≡ length out
  pub capacity : length w.buffer ≡ room

abbrev WriteRound : Bool → List ℕ → ℕ → Writing → Round Writing (Option Writing) → Type 0
WriteRound braces out room w r =
    Does r (λ w'. WriteInv braces out room w' × (length w'.rest < length w.rest))
      (λ r. Returns r (Complete out room))

write_round-WriteInv :
    (braces : Bool) (out : List ℕ) (room : ℕ) (w : Writing)
    → WriteInv braces out room w
    → WriteRound braces out room w (write_round braces w)
unfolding write_round
write_round-WriteInv braces out room w inv =
    next_piece_rule (WriteRound braces out room w) _ _ inv.decodes
      (λ e.
        let same : out ≡ inv.so_far =
          inv.split ∙ ap (λ (l : List ℕ). inv.so_far ++ l) e ∙ append-nil inv.so_far in
        record {
          spare = inv.spare;
          buffered = inv.buffered ∙ ap (λ (l : List ℕ). l ++ inv.spare) (sym same);
          placed = inv.placed ∙ ap length (sym same);
          capacity = inv.capacity;
        })
      (λ rest piece found.
        let fits : length piece.written ≤ length inv.spare =
          omega (arith, inv.fits, ap length found.split, length-append piece.written found.later) in
        let put = write_at-Written inv.so_far piece.written inv.spare fits in
        let writes : write_at w.out_pos piece.written w.buffer
            ≡ some (inv.so_far ++ (piece.written ++ put.left)) =
          rw (inv.placed, inv.buffered) put.writes in
        rw writes (
          record {
            so_far = inv.so_far ++ piece.written;
            later = found.later;
            spare = put.left;
            decodes = found.decodes;
            split =
                inv.split
                ∙ ap (λ (l : List ℕ). inv.so_far ++ l) found.split
                ∙ sym (append_assoc inv.so_far piece.written found.later);
            buffered = sym (append_assoc inv.so_far piece.written put.left);
            placed =
                omega (arith, found.counted, inv.placed, length-append inv.so_far piece.written);
            fits = omega (
              arith,
              inv.fits,
              put.room,
              ap length found.split,
              length-append piece.written found.later,
            );
            capacity = omega (
              arith,
              inv.capacity,
              put.room,
              ap length inv.buffered,
              length-append inv.so_far inv.spare,
              length-append inv.so_far (piece.written ++ put.left),
              length-append piece.written put.left,
            );
          },
          found.shorter,
        ))

-- `msLexerUnescapeImpl` hands back the error of a failed allocation, or the block, which begins with
-- the bytes `out`, and their number.
abbrev pub Unescapes : List ℕ → Option (List ℕ) → Unescaped → Type 0
Unescapes out none u = (u.result ≡ error_oom) × (u.out ≡ []) × (u.out_len ≡ 0)
Unescapes out (some block) u =
    (u.result ≡ ok)
    × (u.out_len ≡ length out)
    × (length u.out ≡ length block)
    × (spare : List ℕ) × (u.out ≡ out ++ spare)

write_decoded-Unescapes :
    {braces : Bool} {raw out : List ℕ} (block : List ℕ)
    → Decodes braces raw out
    → length out ≤ length block
    → Returns (write_decoded braces raw (length out) block) (Unescapes out (some block))
unfolding write_decoded
write_decoded-Unescapes {braces} {raw} {out} block d fits =
    let start : Writing = record { rest = raw; out_pos = 0; buffer = block } in
    bind_rule (λ r. Returns r (Complete out (length block))) _
      (loop (suc (length raw)) (write_round braces) start) _
      (loop_rule (WriteInv braces out (length block)) (λ r. Returns r (Complete out (length block)))
        (λ w. length w.rest) (write_round braces) (write_round-WriteInv braces out (length block))
        (suc (length raw)) start (omega arith)
        (record {
          so_far = [];
          later = out;
          spare = block;
          decodes = d;
          split = refl;
          buffered = refl;
          placed = refl;
          fits = fits;
          capacity = refl;
        }))
      (λ r whole. bind_rule (Complete out (length block)) _ r _ whole (λ w c.
        let full : (w.out_pos == length out) ≡ true = ground (arith, c.placed) in
        rw full (refl, refl, c.capacity, c.spare, c.buffered)))

allocation-Unescapes :
    {braces : Bool} {raw out : List ℕ} (o : Option (List ℕ)) (n : ℕ)
    → n ≡ length out
    → Decodes braces raw out
    → ((block : List ℕ) → o ≡ some block → length out ≤ length block)
    → Returns
        (elim o [
          | none ↦ some (record { result = error_oom; out = []; out_len = 0 })
          | some buffer ↦ write_decoded braces raw n buffer
        ])
        (Unescapes out o)
allocation-Unescapes none n same d fits = (refl, refl, refl)
allocation-Unescapes (some block) n same d fits =
    rw same (write_decoded-Unescapes block d (fits block refl))

-- A block of `msAlloc` has the size that was asked for.
abbrev pub GivesRoom : (ℕ → Option (List ℕ)) → Type 0
GivesRoom alloc = (n : ℕ) (block : List ℕ) → alloc n ≡ some block → length block ≡ n

-- A body of a literal that stands for bytes, where `Decodes` says so by the letters, the values of the
-- hex digits, UTF-8 and the doubled braces, and not by the code, is decoded: no assertion fails, no byte
-- is written outside the block, the number handed back is that of the bytes the body stands for, and the
-- block begins with them, or the allocation failed, and that error is returned. The block is assumed to
-- have the size that was asked for.
pub unescape_impl-Unescapes :
    (alloc : ℕ → Option (List ℕ))
    → GivesRoom alloc
    → (braces : Bool) (raw out : List ℕ) → Decodes braces raw out
    → Returns (unescape_impl alloc braces raw) (Unescapes out (alloc (max 1 (length out))))
unfolding unescape_impl
unescape_impl-Unescapes alloc room braces raw out d =
    bind_rule (λ n. n ≡ length out) _ (decoded_size braces raw) _ (decoded_size-Decodes d)
      (λ n same.
        let size : block_size n ≡ max 1 (length out) = unfold block_size in ground (arith, same) in
        rw size (
          allocation-Unescapes (alloc (max 1 (length out))) n same d
            (λ block given. omega (arith, room (max 1 (length out)) block given))))

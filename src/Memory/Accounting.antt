-- ===== src/Memory/Accounting.antt =====
-- src/core/ms_memory.c: the counters tell the live blocks, whatever the program allocates.
use mslang_cc.Base.{
  inr, inl, ℕ, ◌+◌, ◌^◌, ◌<◌, true, false, none, some, List, [], ◌∷◌, ◌++◌, length, ◌≡◌, refl,
  arith, if◌then◌else◌, length-append, inl, inr, ◌⊎◌,
}
use mslang_cc.Base.Int.{ℤ}
use mslang_cc.Memory.{
  Mem, MemStats, wrap, zero_stats, alloc, realloc, free, reset_stats, obtain, account_alloc,
  account_realloc, set_fail_after,
}

abbrev pub sum : List ℕ → ℕ
sum [] = 0
sum (n ∷ ns) = n + sum ns

pub sum-append : (xs ys : List ℕ) → sum (xs ++ ys) ≡ sum xs + sum ys
sum-append [] ys = omega arith
sum-append (x ∷ xs) ys = omega (arith, sum-append xs ys)

-- The calls of the interface, the live blocks that they leave, and those that were live when the
-- counters were reset last: a block that was granted is live until it is freed, and a block that is
-- resized keeps its place. Failed calls leave all blocks as they were, and a reset does too.
pub data Run : Mem → List ℕ → List ℕ → Type 0 where
  start : (m : Mem) → m.stats ≡ zero_stats → Run m [] []
  allocs :
      {m : Mem} {blocks base : List ℕ} (size : ℕ)
      → Run m blocks base
      → Run (alloc size m).1 (if (alloc size m).0 then size ∷ blocks else blocks) base
  reallocs :
      {m : Mem} {base : List ℕ} (before after : List ℕ) (old size : ℕ)
      → Run m (before ++ old ∷ after) base
      → Run
          (realloc (some old) size m).1
          (before ++ (if (realloc (some old) size m).0 then size else old) ∷ after)
          base
  frees :
      {m : Mem} {base : List ℕ} (before after : List ℕ) (old : ℕ)
      → Run m (before ++ old ∷ after) base
      → Run (free (some old) m) (before ++ after) base
  reallocs_null :
      {m : Mem} {blocks base : List ℕ} (size : ℕ)
      → Run m blocks base
      → Run (realloc none size m).1 (if (realloc none size m).0 then size ∷ blocks else blocks) base
  frees_null : {m : Mem} {blocks base : List ℕ} → Run m blocks base → Run (free none m) blocks base
  injects :
      {m : Mem} {blocks base : List ℕ} (n : ℤ)
      → Run m blocks base
      → Run (set_fail_after n m) blocks base
  resets : {m : Mem} {blocks base : List ℕ} → Run m blocks base → Run (reset_stats m) blocks blocks

abbrev pub AllFit : List ℕ → Type 0
AllFit [] = Unit
AllFit (n ∷ ns) = (n < 2 ^ 64) × AllFit ns

AllFit-middle :
    (before after : List ℕ) (n : ℕ)
    → AllFit (before ++ n ∷ after)
    → (n < 2 ^ 64) × AllFit (before ++ after)
AllFit-middle [] after n h = h
AllFit-middle (b ∷ before) after n h =
    let (hn, rest) = AllFit-middle before after n h.1 in (hn, (h.0, rest))

AllFit-put :
    (before after : List ℕ) (n : ℕ)
    → n < 2 ^ 64
    → AllFit (before ++ after)
    → AllFit (before ++ n ∷ after)
AllFit-put [] after n hn h = (hn, h)
AllFit-put (b ∷ before) after n hn h = (h.0, AllFit-put before after n hn h.1)

-- The counters tell of the live blocks against those at the last reset, modulo 2^64: how many, how
-- many bytes, and which calls made them.
pub record Tells (blocks base : List ℕ) (s : MemStats) : Type 0 where
  pub live : wrap (s.live_blocks + length base) ≡ wrap (length blocks)
  pub bytes : wrap (s.current_bytes + sum base) ≡ wrap (sum blocks)
  pub calls : wrap (s.alloc_count + length base) ≡ wrap (s.free_count + length blocks)
  pub in_word : (s.live_blocks < 2 ^ 64) × (s.current_bytes < 2 ^ 64)
  pub fit : AllFit blocks

obtain-stats : (m : Mem) → (obtain m).1.stats ≡ m.stats
unfolding obtain
obtain-stats m = ground arith

alloc_cases :
    (m : Mem) (size : ℕ)
    → (((alloc size m).0 ≡ false) × ((alloc size m).1.stats ≡ m.stats))
      ⊎ (((alloc size m).0 ≡ true)
          × ((alloc size m).1.stats ≡ account_alloc size m.stats)
          × (size < 2 ^ 64))
unfolding alloc
alloc_cases m size = ground (arith, obtain-stats m)

realloc_cases :
    (m : Mem) (old size : ℕ)
    → (((realloc (some old) size m).0 ≡ false) × ((realloc (some old) size m).1.stats ≡ m.stats))
      ⊎ (((realloc (some old) size m).0 ≡ true)
          × ((realloc (some old) size m).1.stats ≡ account_realloc old size m.stats)
          × (size < 2 ^ 64))
unfolding realloc
realloc_cases m old size = ground (arith, obtain-stats m)

account_alloc-Tells :
    (size : ℕ) (blocks base : List ℕ) (s : MemStats)
    → size < 2 ^ 64
    → Tells blocks base s
    → Tells (size ∷ blocks) base (account_alloc size s)
unfolding account_alloc
account_alloc-Tells size blocks base s h t = record {
  live = omega (arith, t.live);
  bytes = omega (arith, t.bytes);
  calls = omega (arith, t.calls);
  in_word = (omega arith, omega arith);
  fit = (h, t.fit);
}

account_realloc-Tells :
    (before after base : List ℕ) (old size : ℕ) (s : MemStats)
    → size < 2 ^ 64
    → Tells (before ++ old ∷ after) base s
    → Tells (before ++ size ∷ after) base (account_realloc old size s)
unfolding account_realloc
account_realloc-Tells before after base old size s h t =
    let (ho, rest) = AllFit-middle before after old t.fit in
    let grown = length-append before (old ∷ after) in
    let grown' = length-append before (size ∷ after) in
    record {
      live = omega (arith, t.live, grown, grown');
      bytes =
          omega (arith, t.bytes, sum-append before (old ∷ after), sum-append before (size ∷ after));
      calls = omega (arith, t.calls, grown, grown');
      in_word = (omega arith, omega arith);
      fit = AllFit-put before after size h rest;
    }

free-Tells :
    (before after base : List ℕ) (old : ℕ) (m : Mem)
    → Tells (before ++ old ∷ after) base m.stats
    → Tells (before ++ after) base (free (some old) m).stats
unfolding free
free-Tells before after base old m t =
    let (ho, rest) = AllFit-middle before after old t.fit in
    let grown = length-append before (old ∷ after) in
    let grown' = length-append before after in
    record {
      live = omega (arith, t.live, grown, grown');
      bytes = omega (arith, t.bytes, sum-append before (old ∷ after), sum-append before after);
      calls = omega (arith, t.calls, grown, grown');
      in_word = (omega arith, omega arith);
      fit = rest;
    }

zero_stats-Tells : Tells [] [] zero_stats
unfolding zero_stats
zero_stats-Tells = record {
  live = refl;
  bytes = refl;
  calls = refl;
  in_word = (omega arith, omega arith);
  fit = tt;
}

set_fail_after-stats : (n : ℤ) (m : Mem) → (set_fail_after n m).stats ≡ m.stats
unfolding set_fail_after
set_fail_after-stats n m = refl

alloc-Tells :
    (size : ℕ) (blocks base : List ℕ) (m : Mem)
    → Tells blocks base m.stats
    → Tells (if (alloc size m).0 then size ∷ blocks else blocks) base (alloc size m).1.stats
alloc-Tells size blocks base m t = elim (alloc_cases m size) [
  | inl (no_block, same) ↦ rw (no_block, same) t
  | inr (block, stats, h) ↦ rw (block, stats) (account_alloc-Tells size blocks base m.stats h t)
]

realloc_null : (size : ℕ) (m : Mem) → realloc none size m ≡ alloc size m
unfolding realloc
realloc_null size m = refl

free_null : (m : Mem) → free none m ≡ m
unfolding free
free_null m = refl

reset_stats-Tells :
    (blocks : List ℕ) (m : Mem) → AllFit blocks → Tells blocks blocks (reset_stats m).stats
unfolding reset_stats zero_stats
reset_stats-Tells blocks m fit = record {
  live = omega arith;
  bytes = omega arith;
  calls = omega arith;
  in_word = (omega arith, omega arith);
  fit = fit;
}

-- From counters at zero and no live block, after any sequence of calls, failed and injected failures
-- and resets of the counters included: modulo 2^64, the counter of live blocks is the number of the
-- live blocks less that at the last reset, the counter of current bytes is their total size less that
-- at the last reset, and the allocations are the frees and that difference; both counters fit 64 bits.
-- Without a reset, nothing is subtracted.
pub Run-Tells : {m : Mem} {blocks base : List ℕ} → Run m blocks base → Tells blocks base m.stats
Run-Tells (start m e) = rw e zero_stats-Tells
Run-Tells (allocs {m} {blocks} {base} size r) = alloc-Tells size blocks base m (Run-Tells r)
Run-Tells (reallocs {m} {base} before after old size r) =
    let t = Run-Tells r in
    elim (realloc_cases m old size) [
      | inl (no_block, same) ↦ rw (no_block, same) t
      | inr (block, stats, h) ↦
          rw (block, stats) (account_realloc-Tells before after base old size m.stats h t)
    ]
Run-Tells (frees {m} {base} before after old r) = free-Tells before after base old m (Run-Tells r)
Run-Tells (reallocs_null {m} {blocks} {base} size r) =
    rw realloc_null (alloc-Tells size blocks base m (Run-Tells r))
Run-Tells (frees_null {m} r) = rw free_null (Run-Tells r)
Run-Tells (injects {m} n r) = rw set_fail_after-stats (Run-Tells r)
Run-Tells (resets {m} {blocks} r) = reset_stats-Tells blocks m (Run-Tells r).fit

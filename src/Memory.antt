-- ===== src/Memory.antt =====
-- src/core/ms_memory.c: the allocator with its counters and its fault injection. A block is known
-- by the size in its header, on a 64-bit platform whose header takes 16 bytes. Whether the host's
-- `malloc` and `realloc` succeed is told by a list of answers; after its end they succeed.
pub mod Accounting
use mslang_cc.Base.{
  ℕ, ◌+◌, ◌-◌, ◌%◌, ◌^◌, Bool, true, false, ◌||◌, Option, none, some, List, [], ◌∷◌, ltb, ◌==◌,
  if◌then◌else◌,
}
use mslang_cc.Base.Int.{ℤ, pos, negsuc}

abbrev pub size_max : ℕ
size_max = 2 ^ 64 - 1

-- `MS_MEM_HEADER_SIZE`
abbrev pub header_size : ℕ
header_size = 16

-- arithmetic on `size_t` and `uint64_t`
abbrev pub wrap : ℕ → ℕ
wrap n = n % 2 ^ 64

-- `struct MsMemStats`
pub record MemStats : Type 0 where
  pub alloc_count : ℕ
  pub realloc_count : ℕ
  pub free_count : ℕ
  pub live_blocks : ℕ
  pub current_bytes : ℕ
  pub peak_bytes : ℕ
  pub total_allocated_bytes : ℕ

-- `msMemStats` and `msMemFailAfter`, with the answers of the host to come.
pub record Mem : Type 0 where
  pub stats : MemStats
  pub fail_after : ℤ
  pub host : List Bool

unfoldable pub zero_stats : MemStats
zero_stats = record {
  alloc_count = 0;
  realloc_count = 0;
  free_count = 0;
  live_blocks = 0;
  current_bytes = 0;
  peak_bytes = 0;
  total_allocated_bytes = 0;
}

-- `consumeFailAfter`: whether this allocation must fail
unfoldable pub consume_fail_after : Mem → Bool × Mem
consume_fail_after m = elim m.fail_after [
  | negsuc n ↦ (false, m)
  | pos n ↦ if n == 0 then (true, m) else (false, record m { fail_after = pos (n - 1) })
]

-- a call of the host's `malloc` or `realloc`
unfoldable pub ask_host : Mem → Bool × Mem
ask_host m = elim m.host [ [] ↦ (true, m) | answer ∷ rest ↦ (answer, record m { host = rest }) ]

abbrev pub raise_peak : ℕ → ℕ → ℕ
raise_peak current peak = if ltb peak current then current else peak

unfoldable pub account_alloc : ℕ → MemStats → MemStats
account_alloc size s =
    let current = wrap (s.current_bytes + size) in
    record s {
      alloc_count = wrap (s.alloc_count + 1);
      live_blocks = wrap (s.live_blocks + 1);
      current_bytes = current;
      peak_bytes = raise_peak current s.peak_bytes;
      total_allocated_bytes = wrap (s.total_allocated_bytes + size);
    }

-- the accounting at the end of `msRealloc`; `newSize - oldSize` may wrap
unfoldable pub account_realloc : ℕ → ℕ → MemStats → MemStats
account_realloc old size s =
    let current = wrap (s.current_bytes + wrap (size + 2 ^ 64 - old)) in
    record s {
      realloc_count = wrap (s.realloc_count + 1);
      current_bytes = current;
      peak_bytes = raise_peak current s.peak_bytes;
      total_allocated_bytes =
          if ltb old size
          then wrap (s.total_allocated_bytes + (size - old))
          else s.total_allocated_bytes;
    }

-- the test of the size that both functions make first
unfoldable pub bad_size : ℕ → Bool
bad_size size = size == 0 || ltb (size_max - header_size) size

-- injection and host: whether the call goes through
unfoldable pub obtain : Mem → Bool × Mem
unfolding consume_fail_after ask_host
obtain m =
    let (injected, m') = consume_fail_after m in if injected then (false, m') else ask_host m'

-- `msAlloc`: whether the result is a block, and the state
unfoldable pub alloc : ℕ → Mem → Bool × Mem
unfolding bad_size
alloc size m =
    if bad_size size
    then (false, m)
    else (let (granted, m') = obtain m in
        if granted then (true, record m' { stats = account_alloc size m'.stats }) else (false, m'))

-- `msRealloc` of a block with `old` bytes, or of NULL
unfoldable pub realloc : Option ℕ → ℕ → Mem → Bool × Mem
unfolding bad_size alloc
realloc none size m = alloc size m
realloc (some old) size m =
    if bad_size size
    then (false, m)
    else (let (granted, m') = obtain m in
        if granted
        then (true, record m' { stats = account_realloc old size m'.stats })
        else (false, m'))

-- `msFree`
unfoldable pub free : Option ℕ → Mem → Mem
free none m = m
free (some size) m = record m {
  stats = record m.stats {
    free_count = wrap (m.stats.free_count + 1);
    live_blocks = wrap (m.stats.live_blocks + 2 ^ 64 - 1);
    current_bytes = wrap (m.stats.current_bytes + 2 ^ 64 - size);
  };
}

-- `msMemResetStats` and `msMemSetFailAfter`
unfoldable pub reset_stats : Mem → Mem
unfolding zero_stats
reset_stats m = record m { stats = zero_stats }

unfoldable pub set_fail_after : ℤ → Mem → Mem
set_fail_after n m = record m { fail_after = n }

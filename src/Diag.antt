-- ===== src/Diag.antt =====
-- src/core/ms_diag.c: the list of diagnostics of one file. A message is its bytes, after formatting.
pub mod Report
use mslang_cc.Base.{
  Bool, true, false, Option, some, List, [], ◌∷◌, ◌++◌, ℕ, ◌-◌, ◌*◌, leb, if◌then◌else◌, length,
  get_elem?, take,
}
use mslang_cc.Memory.{Mem, alloc, free}
use mslang_cc.Proto.{MsResult, ok, error_oom}

abbrev pub diag_max : ℕ
diag_max = 20

-- `MS_DIAG_MESSAGE_LEN`, with the NUL at the end
abbrev pub message_len : ℕ
message_len = 256

-- `struct MsDiag`
pub record Diag : Type 0 where
  pub file : List ℕ
  pub line : ℕ
  pub column : ℕ
  pub code : ℕ
  pub message : List ℕ

-- `struct MsDiagList`: `items` are the first `count` entries
pub record DiagList : Type 0 where
  pub chunk_name : List ℕ
  pub items : List Diag

-- the size of a `struct MsDiag`
abbrev pub diag_size : ℕ
diag_size = 280

-- `msDiagListInit`
unfoldable pub list_init : List ℕ → Mem → MsResult × DiagList × Mem
list_init chunk_name m =
    let (granted, m') = alloc (diag_max * diag_size) m in
    (if granted then ok else error_oom, record { chunk_name = chunk_name; items = [] }, m')

-- `msDiagListDestroy` of a list that was initialised
unfoldable pub list_destroy : DiagList → Mem → DiagList × Mem
list_destroy list m = (record { chunk_name = []; items = [] }, free (some (diag_max * diag_size)) m)

-- `msDiagListIsFull`, `msDiagListCount` and `msDiagListAt`
unfoldable pub list_is_full : DiagList → Bool
list_is_full list = leb diag_max (length list.items)

unfoldable pub list_count : DiagList → ℕ
list_count list = length list.items

unfoldable pub list_at : DiagList → ℕ → Option Diag
list_at list i = get_elem? list.items i

-- the entry that `msDiagReport` writes; `vsnprintf` cuts the message to its buffer
unfoldable pub diag_entry : List ℕ → ℕ × ℕ × ℕ × List ℕ → Diag
diag_entry chunk_name (line, column, code, message) = record {
  file = chunk_name;
  line = line;
  column = column;
  code = code;
  message = take (message_len - 1) message;
}

-- `msDiagReport`
unfoldable pub report : ℕ × ℕ × ℕ × List ℕ → DiagList → Bool × DiagList
report r list =
    if leb diag_max (length list.items)
    then (false, list)
    else (true, record list { items = list.items ++ diag_entry list.chunk_name r ∷ [] })

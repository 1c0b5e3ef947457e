-- ===== src/Examples/Machine.antt =====
-- Runs of the globals, the containers, and the frames of the virtual machine.
use mslang_cc.Base.{Bool, true, Option, some, List, [], ◌∷◌, ◌++◌, take, ℕ, ◌≡◌, refl, arith}
use mslang_cc.Base.Int.{pos, negsuc}
use mslang_cc.Memory.{Mem, zero_stats}
use mslang_cc.Object.{Ref, nil_ref, bool_ref, cell_ref, same_ref}
use mslang_cc.Proto.{Proto, empty_proto}
use mslang_cc.State.{Table, set_global}
use mslang_cc.State.Globals.{Sets, set_global-Sets}
use mslang_cc.Container.{Storage, list_append, dict_set}
use mslang_cc.Container.Growth.{Pushes, list_append-Pushes}
use mslang_cc.Container.Entries.{DictSets, dict_set-DictSets, visit, visit-drop}
use mslang_cc.Diag.{DiagList, diag_max}
use mslang_cc.Diag.Report.{report_all, entries_of, report_all-take}
use mslang_cc.Vm.{coroutine_init, push_frame_at}
use mslang_cc.Vm.Frames.{IsSafe, Enters, push_frame_at-Enters}

abbrev heap : Mem
heap = record { stats = zero_stats; fail_after = negsuc 0; host = [] }

abbrev x_name : List ℕ
x_name = 120 ∷ []

abbrev y_name : List ℕ
y_name = 121 ∷ []

abbrev globals : Table
globals = record { entries = record { name = x_name; value = nil_ref } ∷ []; cap = 8 }

set_global-Sets_example :
    Sets y_name x_name (bool_ref true) globals (set_global y_name (bool_ref true) globals heap)
set_global-Sets_example = set_global-Sets y_name x_name (bool_ref true) globals heap

abbrev full_list : Storage Ref
full_list = record { items = nil_ref ∷ nil_ref ∷ nil_ref ∷ nil_ref ∷ []; capacity = 4 }

list_append-Pushes_example :
    Pushes (bool_ref true) full_list (list_append (bool_ref true) full_list heap)
list_append-Pushes_example = list_append-Pushes (bool_ref true) full_list heap (omega arith)

abbrev by_address : Ref → Ref → Option Bool
by_address a b = some (same_ref a b)

abbrev two_keys : Storage (Ref × Ref)
two_keys = record { items = (cell_ref 0, nil_ref) ∷ (cell_ref 1, nil_ref) ∷ []; capacity = 4 }

dict_set-DictSets_example :
    DictSets by_address
      (cell_ref 1)
      (bool_ref true)
      two_keys
      (dict_set by_address (cell_ref 1) (bool_ref true) two_keys heap)
dict_set-DictSets_example =
    dict_set-DictSets by_address (cell_ref 1) (bool_ref true) two_keys heap
      ((same_ref (cell_ref 0) (cell_ref 1), refl), ((same_ref (cell_ref 1) (cell_ref 1), refl), tt))
      (omega arith)

visit-drop_example : visit 3 two_keys (pos 0) ≡ two_keys.items
visit-drop_example = visit-drop 3 two_keys 0 (omega arith)

-- A function of one parameter with two locals, called on a fresh coroutine.
abbrev function_code : Proto
function_code = record empty_proto { param_count = 1; local_count = 2; stack_size = 4 }

coroutine_init-IsSafe : IsSafe coroutine_init
unfolding coroutine_init
coroutine_init-IsSafe = record {
  top = omega arith;
  room = omega arith;
  inside = tt;
  count = omega arith;
  limit = omega arith;
}

push_frame_at-Enters_example :
    Enters function_code 1 coroutine_init
      (push_frame_at function_code 1 (some (nil_ref ∷ [])) 1 coroutine_init heap)
push_frame_at-Enters_example =
    push_frame_at-Enters function_code 1 (some (nil_ref ∷ [])) 1 coroutine_init heap
      coroutine_init-IsSafe

abbrev no_diags : DiagList
no_diags = record { chunk_name = x_name; items = [] }

abbrev two_reports : List (ℕ × ℕ × ℕ × List ℕ)
two_reports = (1, 2, 103, x_name) ∷ (3, 1, 104, y_name) ∷ []

report_all-take_example :
    (report_all two_reports no_diags).items
    ≡ take diag_max (no_diags.items ++ entries_of no_diags.chunk_name two_reports)
report_all-take_example = report_all-take two_reports no_diags (omega arith)

-- ===== src/State.antt =====
-- src/vm/ms_state.c: the table of globals. A name is the bytes of its string.
pub mod Globals
use mslang_cc.Base.{
  Bool, true, false, not, ◌&&◌, ◌||◌, Option, none, some, List, [], ◌∷◌, ◌++◌, map, ℕ, zero, suc,
  ◌+◌, ◌-◌, ◌*◌, ◌/◌, ◌%◌, ◌^◌, ◌≤◌, ◌<◌, min, max, bit_and, bit_or, bit_xor, ◌≡◌, refl, sym, ap,
  ◌∙◌, ◌≡⟨◌⟩◌, ◌∎, ◌≢◌, ◌↔◌, ◌⊎◌, inl, inr, arith, ltb, leb, ◌==◌, if◌then◌else◌, ltb→lt, lt→ltb,
  leb→le, ==_iff, tests, Bool-cases, Option-cases, none≢some, length, get_elem?, set, take, drop,
  replicate, length-append, length-set, length-replicate, length-take, get_elem?-set_self,
  get_elem?-set_ne, get_elem?-lt, get_elem?-some, get_elem?-append_left, get_elem?-append_self,
  List-cases,
}
use mslang_cc.Memory.{
  size_max, header_size, wrap, MemStats, Mem, zero_stats, consume_fail_after, ask_host, raise_peak,
  account_alloc, account_realloc, bad_size, obtain, alloc, realloc, free, reset_stats,
  set_fail_after,
}
use mslang_cc.Object.{
  TypeTag, nil_tag, bool_tag, int_tag, float_tag, string_tag, bytes_tag, list_tag, tuple_tag,
  dict_tag, set_tag, function_tag, class_tag, instance_tag, module_tag, channel_tag, coroutine_tag,
  iterator_tag, bound_method_tag, c_function_tag, c_type_tag, proto_tag, tag_number, same_bool, Ref,
  nil_ref, bool_ref, cached_ref, type_ref, proto_ref, cell_ref, Object, nil, bool, int, float,
  string, list, dict, function, c_function, class, proto, tag_of, Store, cache_value, deref,
  same_ref,
}
use mslang_cc.Object.Equals.{string_equals}
use mslang_cc.Proto.{MsResult, ok, error_oom}

-- `struct MsGlobalEntry`
pub record Global : Type 0 where
  pub name : List ℕ
  pub value : Ref

-- `globals`, `globalsLen` and `globalsCap` of `struct MsState`
pub record Table : Type 0 where
  pub entries : List Global
  pub cap : ℕ

-- the loop of `msStateGetGlobal`
unfoldable pub find_value : List ℕ → List Global → Option Ref
find_value name [] = none
find_value name (g ∷ gs) =
    let rest = find_value name gs in if string_equals g.name name then some g.value else rest

-- `msStateGetGlobal`
unfoldable pub get_global : List ℕ → Table → Option Ref
get_global name t = find_value name t.entries

-- the first loop of `msStateSetGlobal`: the entries with the new value, if the name is there
unfoldable pub replace_value : List ℕ → Ref → List Global → Option (List Global)
replace_value name v [] = none
replace_value name v (g ∷ gs) =
    let rest = replace_value name v gs in
    if string_equals g.name name
    then some (record g { value = v } ∷ gs)
    else elim rest [ none ↦ none | some gs' ↦ some (g ∷ gs') ]

-- the growth of the table by entries of 16 bytes: the new capacity
unfoldable pub grow_table : ℕ → Mem → Option ℕ × Mem
grow_table cap m =
    let new_cap = if cap == 0 then 8 else cap * 2 in
    if ltb ((2 ^ 31 - 1) / 2) cap || ltb (size_max / 16) new_cap
    then (none, m)
    else (let (granted, m') =
          realloc (if cap == 0 then none else some (cap * 16)) (new_cap * 16) m in
        (if granted then some new_cap else none, m'))

unfoldable pub table_room : Table → Mem → Option ℕ × Mem
table_room t m = if length t.entries == t.cap then grow_table t.cap m else (some t.cap, m)

-- `msStateSetGlobal`
unfoldable pub set_global : List ℕ → Ref → Table → Mem → MsResult × Table × Mem
set_global name v t m = elim (replace_value name v t.entries) [
  | some entries ↦ (ok, record t { entries = entries }, m)
  | none ↦
      let (room, m') = table_room t m in
      elim room [
        | none ↦ (error_oom, t, m')
        | some cap ↦ (
          ok,
          record { entries = t.entries ++ record { name = name; value = v } ∷ []; cap = cap },
          m',
        )
      ]
]

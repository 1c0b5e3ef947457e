-- ===== src/Container.antt =====
-- src/object/ms_list.c and ms_dict.c: the operations of lists and dicts. A list is its items, a dict
-- its entries in the order of insertion, each beside its capacity.
pub mod Growth
pub mod Entries
use mslang_cc.Base.{
  Bool, true, false, not, ◌&&◌, ◌||◌, Option, none, some, List, [], ◌∷◌, ◌++◌, map, ℕ, zero, suc,
  ◌+◌, ◌-◌, ◌*◌, ◌/◌, ◌%◌, ◌^◌, ◌≤◌, ◌<◌, min, max, bit_and, bit_or, bit_xor, ◌≡◌, refl, sym, ap,
  ◌∙◌, ◌≡⟨◌⟩◌, ◌∎, ◌≢◌, ◌↔◌, ◌⊎◌, inl, inr, arith, ltb, leb, ◌==◌, if◌then◌else◌, ltb→lt, lt→ltb,
  leb→le, ==_iff, tests, Bool-cases, Option-cases, none≢some, length, get_elem?, set, take, drop,
  replicate, length-append, length-set, length-replicate, length-take, get_elem?-set_self,
  get_elem?-set_ne, get_elem?-lt, get_elem?-some, get_elem?-append_left, get_elem?-append_self,
  List-cases,
}
use mslang_cc.Base.Int.{
  ℤ, pos, negsuc, pos_part, neg_part, sub_ℕ, ◌+ℤ◌, ◌-ℤ◌, ◌*ℤ◌, ◌≤ℤ◌, ltb_ℤ, +ℤ_comm, +ℤ_assoc,
  +ℤ_cancel, ≤ℤ_total, +ℤ_parts, -ℤ_parts, eq_of_parts, int_laws, +ℤ_mono, *ℤ_comm, one-*ℤ,
  *ℤ_parts, *ℤ_assoc,
}
use mslang_cc.Memory.{
  size_max, header_size, wrap, MemStats, Mem, zero_stats, consume_fail_after, ask_host, raise_peak,
  account_alloc, account_realloc, bad_size, obtain, alloc, realloc, free, reset_stats,
  set_fail_after,
}
use mslang_cc.Object.{
  TypeTag, nil_tag, bool_tag, int_tag, float_tag, string_tag, bytes_tag, list_tag, tuple_tag,
  dict_tag, set_tag, function_tag, class_tag, instance_tag, module_tag, channel_tag, coroutine_tag,
  iterator_tag, bound_method_tag, c_function_tag, c_type_tag, proto_tag, tag_number, same_bool, Ref,
  nil_ref, bool_ref, cached_ref, type_ref, proto_ref, cell_ref, Object, nil, bool, int, float,
  string, list, dict, function, c_function, class, proto, tag_of, Store, cache_value, deref,
  same_ref,
}
use mslang_cc.Proto.{MsResult, ok, error_runtime, error_oom}

-- `struct MsList` and `struct MsDict`
pub record Storage (A : Type 0) : Type 0 where
  pub items : List A
  pub capacity : ℕ

abbrev pub empty_storage : {A : Type 0} → Storage A
empty_storage = record { items = []; capacity = 0 }

-- the growth before an append, by elements of `size` bytes: the new capacity
unfoldable pub grow_storage : ℕ → ℕ → Mem → Option ℕ × Mem
grow_storage size capacity m =
    let new_capacity = if capacity == 0 then 4 else capacity * 2 in
    if ltb ((2 ^ 63 - 1) / 2) capacity || ltb (size_max / size) new_capacity
    then (none, m)
    else (let (granted, m') =
          realloc (if capacity == 0 then none else some (capacity * size)) (new_capacity * size)
            m in
        (if granted then some new_capacity else none, m'))

unfoldable pub storage_room : {A : Type 0} → ℕ → Storage A → Mem → Option ℕ × Mem
storage_room size s m =
    if length s.items == s.capacity then grow_storage size s.capacity m else (some s.capacity, m)

-- growth and the write of one element at the end
unfoldable pub push : {A : Type 0} → ℕ → A → Storage A → Mem → MsResult × Storage A × Mem
push size a s m =
    let (room, m') = storage_room size s m in
    elim room [
      | none ↦ (error_oom, s, m')
      | some capacity ↦ (ok, record { items = s.items ++ a ∷ []; capacity = capacity }, m')
    ]

-- the size of a `struct MsList` and of a `struct MsDict`
abbrev pub container_size : ℕ
container_size = 48

-- `msNewList`; `error_runtime` is its value error
unfoldable pub new_list : ℤ → Mem → MsResult × Storage Ref × Mem
new_list (negsuc n) m = (error_runtime, empty_storage, m)
new_list (pos capacity) m =
    if ltb (size_max / 8) capacity
    then (error_oom, empty_storage, m)
    else (let (made, m1) = alloc container_size m in
        if not made
        then (error_oom, empty_storage, m1)
        else if capacity == 0
        then (ok, empty_storage, m1)
        else (let (granted, m2) = alloc (capacity * 8) m1 in
            if granted
            then (ok, record { items = []; capacity = capacity }, m2)
            else (error_oom, empty_storage, free (some container_size) m2)))

-- `msListAppend`
unfoldable pub list_append : Ref → Storage Ref → Mem → MsResult × Storage Ref × Mem
list_append v s m = push 8 v s m

-- `msListReleaseStorage` and `msDictReleaseStorage`
unfoldable pub release_storage : {A : Type 0} → ℕ → Storage A → Mem → Storage A × Mem
release_storage size s m =
    (empty_storage, free (if s.capacity == 0 then none else some (s.capacity * size)) m)

-- `msNewDict`
unfoldable pub new_dict : Mem → MsResult × Storage (Ref × Ref) × Mem
new_dict m =
    let (made, m') = alloc container_size m in (if made then ok else error_oom, empty_storage, m')

-- the loop of `msDictSet`: the entries with the new value, if an equal key is there; `equals` is
-- `msObjectValueEquals`, and the outer `none` is its lack of an answer
unfoldable pub replace_entry :
    (Ref → Ref → Option Bool) → Ref → Ref → List (Ref × Ref) → Option (Option (List (Ref × Ref)))
replace_entry equals key value [] = some none
replace_entry equals key value (e ∷ es) =
    let rest = replace_entry equals key value es in
    elim (equals e.0 key) [
      | none ↦ none
      | some true ↦ some (some ((e.0, value) ∷ es))
      | some false ↦ elim rest [
        | none ↦ none
        | some none ↦ some none
        | some (some es') ↦ some (some (e ∷ es'))
      ]
    ]

-- `msDictSet`
unfoldable pub dict_set :
    (Ref → Ref → Option Bool)
    → Ref
    → Ref
    → Storage (Ref × Ref)
    → Mem
    → Option (MsResult × Storage (Ref × Ref) × Mem)
dict_set equals key value s m = elim (replace_entry equals key value s.items) [
  | none ↦ none
  | some (some items) ↦ some (ok, record s { items = items }, m)
  | some none ↦ some (push 16 (key, value) s m)
]

-- `msDictNext`: key and value, and the next cursor
unfoldable pub dict_next : Storage (Ref × Ref) → ℤ → Option (Ref × Ref × ℤ)
dict_next s (negsuc n) = none
dict_next s (pos cursor) = elim (get_elem? s.items cursor) [
  | none ↦ none
  | some e ↦ some (e.0, e.1, pos (cursor + 1))
]

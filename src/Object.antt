-- ===== src/Object.antt =====
-- The values of src/object/ms_object.h and the containers of src/object: references, the objects
-- they point to, and the store that holds the objects of a heap.
pub mod Equals
pub mod Hash
pub mod HashLaws
pub mod EqualsLaws
pub mod CompareLaws
pub mod Compare
use mslang_cc.Base.{
  ℕ, ◌+◌, ◌-◌, Bool, true, false, Option, none, some, List, get_elem?, ltb, ◌==◌, not,
  if◌then◌else◌,
}
use mslang_cc.Base.Int.{ℤ, pos, negsuc}

-- `MsTypeTag`, without the sentinel `MS_TYPE_COUNT`.
pub data TypeTag : Type 0 where
  nil_tag bool_tag int_tag float_tag string_tag bytes_tag list_tag tuple_tag : TypeTag
  dict_tag set_tag function_tag class_tag instance_tag module_tag channel_tag : TypeTag
  coroutine_tag iterator_tag bound_method_tag c_function_tag c_type_tag : TypeTag
  proto_tag : TypeTag

-- The number of a tag in the enumeration.
unfoldable pub tag_number : TypeTag → ℕ
tag_number nil_tag = 0
tag_number bool_tag = 1
tag_number int_tag = 2
tag_number float_tag = 3
tag_number string_tag = 4
tag_number bytes_tag = 5
tag_number list_tag = 6
tag_number tuple_tag = 7
tag_number dict_tag = 8
tag_number set_tag = 9
tag_number function_tag = 10
tag_number class_tag = 11
tag_number instance_tag = 12
tag_number module_tag = 13
tag_number channel_tag = 14
tag_number coroutine_tag = 15
tag_number iterator_tag = 16
tag_number bound_method_tag = 17
tag_number c_function_tag = 18
tag_number c_type_tag = 19
tag_number proto_tag = 21

abbrev pub same_bool : Bool → Bool → Bool
same_bool true b = b
same_bool false b = not b

-- A `struct MsObject*`: the singletons, an entry of the cache of small integers, a type object, a
-- proto, or an object that was allocated, by its address.
pub data Ref : Type 0 where
  nil_ref : Ref
  bool_ref : Bool → Ref
  cached_ref : ℕ → Ref
  type_ref : TypeTag → Ref
  proto_ref : ℕ → Ref
  cell_ref : ℕ → Ref

-- What a reference points to. A string carries its cached hash, a container its capacity; a
-- function has the address of its proto, a C function the number of its code.
pub data Object (D : Type 0) : Type 0 where
  nil : Object D
  bool : Bool → Object D
  int : ℤ → Object D
  float : D → Object D
  string : (hash : ℕ) → (bytes : List ℕ) → Object D
  list : (items : List Ref) → (capacity : ℕ) → Object D
  dict : (entries : List (Ref × Ref)) → (capacity : ℕ) → Object D
  function : (proto : ℕ) → Object D
  c_function : (func : ℕ) → Object D
  class : TypeTag → Object D
  proto : Object D

unfoldable pub tag_of : {D : Type 0} → Object D → TypeTag
tag_of nil = nil_tag
tag_of (bool b) = bool_tag
tag_of (int z) = int_tag
tag_of (float d) = float_tag
tag_of (string h bs) = string_tag
tag_of (list xs c) = list_tag
tag_of (dict es c) = dict_tag
tag_of (function p) = function_tag
tag_of (c_function f) = c_function_tag
tag_of (class t) = class_tag
tag_of proto = proto_tag

-- The allocated objects by address; a freed one leaves `none`.
abbrev pub Store : Type 0 → Type 0
Store D = List (Option (Object D))

-- `(int64_t)MS_INT_CACHE_MIN + (int64_t)i`
unfoldable pub cache_value : ℕ → ℤ
cache_value i = if ltb i 256 then negsuc (255 - i) else pos (i - 256)

-- Following a pointer; `none` is a dangling one.
unfoldable pub deref : {D : Type 0} → Store D → Ref → Option (Object D)
unfolding cache_value
deref s nil_ref = some nil
deref s (bool_ref b) = some (bool b)
deref s (cached_ref i) = some (int (cache_value i))
deref s (type_ref t) = some (class t)
deref s (proto_ref p) = some proto
deref s (cell_ref a) = elim (get_elem? s a) [ some o ↦ o | none ↦ none ]

-- `a == b` on pointers
unfoldable pub same_ref : Ref → Ref → Bool
unfolding tag_number
same_ref nil_ref nil_ref = true
same_ref (bool_ref a) (bool_ref b) = same_bool a b
same_ref (cached_ref i) (cached_ref j) = i == j
same_ref (type_ref t) (type_ref u) = tag_number t == tag_number u
same_ref (proto_ref p) (proto_ref q) = p == q
same_ref (cell_ref a) (cell_ref b) = a == b
same_ref _ _ = false

-- ===== src/Proto/Consts.antt =====
-- src/vm/ms_proto.c: `msProtoConstEquals`, `msProtoAddConst`, `msProtoAddProto` and
-- `msProtoConstProto`. The outer `Option` is the fuel of `value_equals`, or a dangling pointer.
use mslang_cc.Base.{
  Bool, true, false, not, ◌&&◌, Option, none, some, List, [], ◌∷◌, ◌++◌, ℕ, suc, leb, ◌==◌,
  if◌then◌else◌, length, get_elem?,
}
use mslang_cc.Floats.{Floats, float_zero}
use mslang_cc.Memory.{Mem}
use mslang_cc.Object.{
  proto_tag, tag_number, same_bool, Ref, proto_ref, Object, float, tag_of, Store, deref,
}
use mslang_cc.Object.Equals.{value_equals}
use mslang_cc.Proto.{error_syntax, error_oom, is_ok, Proto, Builder, make_room, fail}

-- `MS_PROTO_CONSTS_MAX`
abbrev pub consts_max : ℕ
consts_max = 65536

-- the array of constants with one more
unfoldable pub append_const : Ref → Builder → Mem → Option ℕ × Builder × Mem
append_const value b m =
    let (grown, m') = make_room 8 (length b.proto.consts) b.consts_cap m in
    elim grown [
      | none ↦ (none, fail error_oom b, m')
      | some cap ↦ (
        some (length b.proto.consts),
        record b {
          proto = record b.proto { consts = b.proto.consts ++ value ∷ [] };
          consts_cap = cap;
        },
        m',
      )
    ]

-- `msProtoAddProto`; a null pointer is `none`
unfoldable pub add_proto : Option ℕ → Builder → Mem → Option ℕ × Builder × Mem
add_proto child b m = if not (is_ok b.error) then (none, b, m) else elim child [
  | none ↦ (none, fail error_syntax b, m)
  | some p ↦
      if leb consts_max (length b.proto.consts)
      then (none, fail error_syntax b, m)
      else append_const (proto_ref p) b m
]

-- `msProtoConstProto`
unfoldable pub const_proto : Proto → ℕ → Option ℕ
const_proto p i = elim (get_elem? p.consts i) [
  | none ↦ none
  | some value ↦ elim value [ proto_ref q ↦ some q | _ ↦ none ]
]

module _ (F : Floats) where
  open F use {Double, feq, signbit}

  -- two zeros of different signs
  unfoldable pub signs_differ : Object Double → Object Double → Bool
  signs_differ (float a) (float b) =
      feq a (float_zero F) && feq b (float_zero F) && not (same_bool (signbit a) (signbit b))
  signs_differ _ _ = false

  -- `msProtoConstEquals`
  unfoldable pub const_equals : ℕ → Store Double → Ref → Ref → Option Bool
  const_equals fuel s a b = elim (deref s a) [
    | none ↦ none
    | some x ↦ elim (deref s b) [
      | none ↦ none
      | some y ↦
          if not (tag_number (tag_of x) == tag_number (tag_of y))
          then some false
          else if signs_differ x y
          then some false
          else value_equals F fuel s a b
    ]
  ]

  -- the scan for an equal constant, from index `i`
  unfoldable pub find_const : ℕ → Store Double → Ref → ℕ → List Ref → Option (Option ℕ)
  find_const fuel s value i [] = some none
  find_const fuel s value i (c ∷ cs) =
      let rest = find_const fuel s value (suc i) cs in
      elim (const_equals fuel s c value) [
        | none ↦ none
        | some true ↦ some (some i)
        | some false ↦ rest
      ]

  -- `msProtoAddConst`
  unfoldable pub add_const :
      ℕ → Store Double → Ref → Builder → Mem → Option (Option ℕ × Builder × Mem)
  add_const fuel s value b m =
      if not (is_ok b.error) then some (none, b, m) else elim (deref s value) [
        | none ↦ none
        | some x ↦
            if tag_number (tag_of x) == tag_number proto_tag
            then some (none, fail error_syntax b, m)
            else if leb consts_max (length b.proto.consts)
            then some (none, fail error_syntax b, m)
            else elim (find_const fuel s value 0 b.proto.consts) [
              | none ↦ none
              | some (some i) ↦ some (some i, b, m)
              | some none ↦ some (append_const value b m)
            ]
      ]

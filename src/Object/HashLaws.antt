-- ===== src/Object/HashLaws.antt =====
-- src/object/ms_object.c: values that are equal have equal hashes, as keys of a dictionary need.
use mslang_cc.Base.{
  get_elem?, ℕ, zero, suc, Bool, true, Option, some, List, [], ◌∷◌, ◌≡◌, refl, sym, ap, arith, inl,
  inr, Bool-cases,
}
use mslang_cc.Base.Int.{ℤ, pos, negsuc}
use mslang_cc.Floats.{Floats, IsIeee}
use mslang_cc.Object.{
  proto_tag, nil_tag, bool_tag, int_tag, float_tag, string_tag, bytes_tag, list_tag, tuple_tag,
  dict_tag, set_tag, function_tag, class_tag, instance_tag, module_tag, channel_tag, coroutine_tag,
  iterator_tag, bound_method_tag, c_function_tag, c_type_tag, Ref, nil_ref, bool_ref, cached_ref,
  type_ref, proto_ref, cell_ref, TypeTag, tag_number, Object, int, float, string, Store, deref,
  same_ref,
}
use mslang_cc.Object.Equals.{
  same_int, same_bytes, string_equals, int_equals_float, equal_objects, value_equals,
}
use mslang_cc.Object.Hash.{fnv1a, float_hash, object_hash}

pub same_int-eq : (a b : ℤ) → same_int a b ≡ true → a ≡ b
unfolding same_int
same_int-eq (pos a) (pos b) h = ground arith
same_int-eq (negsuc a) (negsuc b) h = ground arith
same_int-eq (pos a) (negsuc b) h = cc
same_int-eq (negsuc a) (pos b) h = cc

pub same_bytes-eq : (xs ys : List ℕ) → same_bytes xs ys ≡ true → xs ≡ ys
unfolding same_bytes
same_bytes-eq [] [] h = refl
same_bytes-eq [] (y ∷ ys) h = cc
same_bytes-eq (x ∷ xs) [] h = cc
same_bytes-eq (x ∷ xs) (y ∷ ys) h = ground (arith, same_bytes-eq xs ys)

pub string_equals-eq : (a b : List ℕ) → string_equals a b ≡ true → a ≡ b
unfolding string_equals
string_equals-eq a b h = ground (arith, same_bytes-eq a b)

all_tags : List TypeTag
all_tags =
    nil_tag ∷ bool_tag ∷ int_tag ∷ float_tag ∷ string_tag ∷ bytes_tag ∷ list_tag ∷ tuple_tag
    ∷ dict_tag ∷ set_tag ∷ function_tag ∷ class_tag ∷ instance_tag ∷ module_tag ∷ channel_tag
    ∷ coroutine_tag ∷ iterator_tag ∷ bound_method_tag ∷ c_function_tag ∷ c_type_tag ∷ proto_tag
    ∷ proto_tag ∷ []

all_tags-tag_number : (t : TypeTag) → get_elem? all_tags (tag_number t) ≡ some t
unfolding all_tags tag_number
all_tags-tag_number nil_tag = refl
all_tags-tag_number _ = refl

pub tag_number-injective : (t u : TypeTag) → tag_number t ≡ tag_number u → t ≡ u
tag_number-injective t u h = cc (all_tags-tag_number t, all_tags-tag_number u)

pub same_ref-eq : (a b : Ref) → same_ref a b ≡ true → a ≡ b
unfolding same_ref
same_ref-eq nil_ref nil_ref h = refl
same_ref-eq (bool_ref a) (bool_ref b) h = ground arith
same_ref-eq (cached_ref a) (cached_ref b) h = ground arith
same_ref-eq (type_ref a) (type_ref b) h = ground (arith, tag_number-injective a b)
same_ref-eq (proto_ref a) (proto_ref b) h = ground arith
same_ref-eq (cell_ref a) (cell_ref b) h = ground arith
same_ref-eq _ _ h = cc

-- A string's cached hash is the hash of its bytes.
abbrev pub IsHashed : {D : Type 0} → Object D → Type 0
IsHashed (string h bs) = h ≡ fnv1a bs
IsHashed _ = Unit

-- So for every object of a store.
abbrev pub AllHashed : {D : Type 0} → Store D → Type 0
AllHashed {D} s = (r : Ref) (o : Object D) → deref s r ≡ some o → IsHashed o

module _ (F : Floats) (ieee : IsIeee F) where
  open F use {Double, of_int, trunc, bits, feq}

  mixed_hash :
      (i : ℤ) (d : Double) → int_equals_float F i d ≡ true → object_hash F (int i) ≡ float_hash F d
  unfolding object_hash int_equals_float
  mixed_hash i d h = ground (arith, same_int-eq (trunc d) i)

  float_hash-eq : (a b : Double) → feq a b ≡ true → float_hash F a ≡ float_hash F b
  unfolding float_hash
  float_hash-eq a b h = elim (ieee.feq_same a b h) [
    | inl e ↦ ap (float_hash F) e
    | inr (za, zb) ↦ ground (
      arith,
      ieee.zero_range a za,
      ieee.zero_range b zb,
      ieee.zero_trunc a za,
      ieee.zero_trunc b zb,
      ieee.feq_symm a (of_int (pos 0)),
      ieee.feq_symm b (of_int (pos 0)),
    )
  ]

  equal_objects-hash :
      (equals : Ref → Ref → Option Bool) (x y : Object Double)
      → IsHashed x
      → IsHashed y
      → equal_objects F equals x y ≡ some true
      → object_hash F x ≡ object_hash F y
  unfolding equal_objects object_hash
  equal_objects-hash equals (int a) (int b) hx hy e = ground (arith, same_int-eq a b)
  equal_objects-hash equals (float a) (float b) hx hy e = float_hash-eq a b (ground arith)
  equal_objects-hash equals (int a) (float b) hx hy e = mixed_hash a b (ground arith)
  equal_objects-hash equals (float a) (int b) hx hy e = sym (mixed_hash b a (ground arith))
  equal_objects-hash equals (string h a) (string k b) hx hy e = ground (arith, string_equals-eq a b)
  equal_objects-hash equals _ _ hx hy e = ground arith

  -- Two values that `msObjectValueEquals` finds equal have one hash: across `int` and `float`, for
  -- the two zeros, and for strings at different addresses, if every string's cached hash is the hash of its bytes.
  pub hash-value_equals :
      (fuel : ℕ) (s : Store Double) (a b : Ref) (x y : Object Double)
      → AllHashed s
      → deref s a ≡ some x
      → deref s b ≡ some y
      → value_equals F fuel s a b ≡ some true
      → object_hash F x ≡ object_hash F y
  unfolding value_equals
  hash-value_equals zero s a b x y hs p q e = cc
  hash-value_equals (suc fuel) s a b x y hs p q e =
      let hx = hs a x p in
      let hy = hs b y q in
      elim (Bool-cases (same_ref a b)) [
        | inl same ↦ let e' = same_ref-eq a b same in ap (object_hash F) (cc)
        | inr apart ↦
            equal_objects-hash (value_equals F fuel s) x y hx hy
              (rw (p, q, apart, value_equals) at e)
      ]

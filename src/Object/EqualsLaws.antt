-- ===== src/Object/EqualsLaws.antt =====
-- src/object/ms_object.c: `msObjectValueEquals` is symmetric, does not depend on the fuel once it
-- ends, and ends where no list holds itself.
use mslang_cc.Base.{
  ℕ, zero, suc, ◌<◌, Bool, true, false, Option, some, List, [], ◌∷◌, length, ◌≡◌, refl, ap, arith,
  ◌==◌, ◌&&◌, Option-cases, Bool-cases, inl, inr,
}
use mslang_cc.Base.Int.{ℤ, pos, negsuc}
use mslang_cc.Floats.{Floats, IsIeee}
use mslang_cc.Object.{
  dict, Ref, nil_ref, bool_ref, cell_ref, Object, nil, bool, int, float, string, list, Store, deref,
  same_ref, same_bool,
}
use mslang_cc.Object.Equals.{
  same_int, same_bytes, string_equals, int_equals_float, equal_items, equal_objects, equal_itself,
  value_equals,
}
use mslang_cc.Object.HashLaws.{same_ref-eq}

same_int_symm : (a b : ℤ) → same_int a b ≡ same_int b a
unfolding same_int
same_int_symm (pos a) (pos b) = ground arith
same_int_symm (negsuc a) (negsuc b) = ground arith
same_int_symm (pos a) (negsuc b) = refl
same_int_symm (negsuc a) (pos b) = refl

same_bytes_symm : (xs ys : List ℕ) → same_bytes xs ys ≡ same_bytes ys xs
unfolding same_bytes
same_bytes_symm [] [] = refl
same_bytes_symm [] (y ∷ ys) = refl
same_bytes_symm (x ∷ xs) [] = refl
same_bytes_symm (x ∷ xs) (y ∷ ys) = ground (arith, same_bytes_symm xs ys)

string_equals_symm : (a b : List ℕ) → string_equals a b ≡ string_equals b a
unfolding string_equals
string_equals_symm a b = ground (arith, same_bytes_symm a b)

same_ref_symm : (a b : Ref) → same_ref a b ≡ same_ref b a
unfolding same_ref
same_ref_symm nil_ref nil_ref = refl
same_ref_symm (bool_ref a) (bool_ref b) = ground arith
same_ref_symm _ _ = ground arith

module _ (F : Floats) where
  open F use {Double, feq}

  module _ (equals : Ref → Ref → Option Bool) (symm : (a b : Ref) → equals a b ≡ equals b a) where
    equal_items_symm : (xs ys : List Ref) → equal_items F equals xs ys ≡ equal_items F equals ys xs
    unfolding equal_items
    equal_items_symm [] [] = refl
    equal_items_symm [] (y ∷ ys) = refl
    equal_items_symm (x ∷ xs) [] = refl
    equal_items_symm (x ∷ xs) (y ∷ ys) = ground (arith, symm x y, equal_items_symm xs ys)

    equal_objects_symm :
        IsIeee F → (x y : Object Double) → equal_objects F equals x y ≡ equal_objects F equals y x
    unfolding equal_objects
    equal_objects_symm ieee nil nil = refl
    equal_objects_symm ieee (bool true) (bool true) = refl
    equal_objects_symm ieee (bool true) (bool false) = refl
    equal_objects_symm ieee (bool false) (bool true) = refl
    equal_objects_symm ieee (bool false) (bool false) = refl
    equal_objects_symm ieee (int a) (int b) = ap some (same_int_symm a b)
    equal_objects_symm ieee (float a) (float b) = ap some (ieee.feq_symm a b)
    equal_objects_symm ieee (string h a) (string k b) = ap some (string_equals_symm a b)
    equal_objects_symm ieee (list xs c) (list ys d) = ground (arith, equal_items_symm xs ys)
    equal_objects_symm ieee nil (dict es c) = refl
    equal_objects_symm ieee (dict es c) nil = refl
    equal_objects_symm ieee _ _ = ground arith

  -- Equality of values is symmetric, for every pair of values, nested lists, mixed numbers and
  -- values that are no number included.
  pub value_equals_symm :
      (fuel : ℕ) (s : Store Double) (a b : Ref)
      → IsIeee F
      → value_equals F fuel s a b ≡ value_equals F fuel s b a
  unfolding value_equals
  value_equals_symm zero s a b ieee = refl
  value_equals_symm (suc fuel) s a b ieee = elim (Bool-cases (same_ref a b)) [
    | inl same ↦ rw (same_ref-eq a b same)
    | inr apart ↦
        let deep = value_equals F fuel s in
        let symm = equal_objects_symm deep (λ c d. value_equals_symm fuel s c d ieee) ieee in
        elim (Option-cases (deref s a)) [
          | inl p ↦ ground (arith, same_ref_symm a b)
          | inr (x, p) ↦ elim (Option-cases (deref s b)) [
            | inl q ↦ ground (arith, same_ref_symm a b)
            | inr (y, q) ↦ ground (arith, same_ref_symm a b, symm x y)
          ]
        ]
  ]

-- How deep a reference reaches, given a rank of the addresses.
abbrev pub ref_rank : (ℕ → ℕ) → Ref → ℕ
ref_rank rank (cell_ref a) = suc (rank a)
ref_rank rank _ = 0

abbrev pub IsLive : {D : Type 0} → Store D → Ref → Type 0
IsLive {D} s r = (o : Object D) × (deref s r ≡ some o)

-- The items of a list are live and of a lower rank than the list: no list holds itself.
abbrev pub AllBelow : {D : Type 0} → Store D → (ℕ → ℕ) → ℕ → List Ref → Type 0
AllBelow s rank n [] = Unit
AllBelow s rank n (x ∷ xs) = IsLive s x × (ref_rank rank x < n) × AllBelow s rank n xs

abbrev pub IsRanked : {D : Type 0} → Store D → (ℕ → ℕ) → Type 0
IsRanked s rank =
    (r : Ref) (xs : List Ref) (c : ℕ)
    → deref s r ≡ some (list xs c)
    → AllBelow s rank (ref_rank rank r) xs

module _ (F : Floats) (s : Store F.Double) (rank : ℕ → ℕ) (ranked : IsRanked s rank) where
  open F use {Double, feq}

  abbrev Decides : Option Bool → Type 0
  Decides o = (v : Bool) × (o ≡ some v)

  items_decide :
      (fuel : ℕ)
      → ((a b : Ref)
          → IsLive s a
          → IsLive s b
          → ref_rank rank a < fuel
          → Decides (value_equals F fuel s a b))
      → (xs ys : List Ref) (n m : ℕ) → AllBelow s rank n xs
      → AllBelow s rank m ys
      → n < suc fuel
      → Decides (equal_items F (value_equals F fuel s) xs ys)
  unfolding equal_items
  items_decide fuel step [] ys n m hx hy h = (true, refl)
  items_decide fuel step (x ∷ xs) [] n m hx hy h = (true, refl)
  items_decide fuel step (x ∷ xs) (y ∷ ys) n m hx hy h =
      let (v, e) = step x y hx.0 hy.0 (omega arith) in
      let rest = items_decide fuel step xs ys n m hx.2 hy.2 h in
      (v && rest.0, ground (arith, e, rest.1))

  objects_decide :
      (fuel : ℕ)
      → ((a b : Ref)
          → IsLive s a
          → IsLive s b
          → ref_rank rank a < fuel
          → Decides (value_equals F fuel s a b))
      → (a b : Ref) (x y : Object Double) → deref s a ≡ some x
      → deref s b ≡ some y
      → ref_rank rank a < suc fuel
      → Decides (equal_objects F (value_equals F fuel s) x y)
  unfolding equal_objects
  objects_decide fuel step a b nil nil p q h = (true, refl)
  objects_decide fuel step a b (bool u) (bool v) p q h = (same_bool u v, refl)
  objects_decide fuel step a b (int u) (int v) p q h = (same_int u v, refl)
  objects_decide fuel step a b (float u) (float v) p q h = (feq u v, refl)
  objects_decide fuel step a b (int u) (float v) p q h = (int_equals_float F u v, refl)
  objects_decide fuel step a b (float u) (int v) p q h = (int_equals_float F v u, refl)
  objects_decide fuel step a b (string k u) (string l v) p q h = (string_equals u v, refl)
  objects_decide fuel step a b (list xs c) (list ys d) p q h =
      elim (Bool-cases (length xs == length ys)) [
        | inl even ↦
            rw even (items_decide fuel step xs ys _ _ (ranked a xs c p) (ranked b ys d q) h)
        | inr odd ↦ (false, rw odd)
      ]
  objects_decide fuel step a b _ _ p q h = (false, refl)

  -- Where no list holds itself and no pointer dangles, equality ends with an answer, and as many
  -- rounds as the left value's lists are deep are enough.
  pub value_equals_total :
      (fuel : ℕ) (a b : Ref)
      → IsLive s a
      → IsLive s b
      → ref_rank rank a < fuel
      → (v : Bool) × (value_equals F fuel s a b ≡ some v)
  unfolding value_equals
  value_equals_total zero a b la lb h = elim h [ ]
  value_equals_total (suc fuel) a b la lb h =
      let (x, p) = la in
      let (y, q) = lb in
      elim (Bool-cases (same_ref a b)) [
        | inl same ↦ (equal_itself F x, rw (p, q, same, value_equals))
        | inr apart ↦
            let (v, e) = objects_decide fuel (λ c d. value_equals_total fuel c d) a b x y p q h in
            (v, ground (arith, e))
      ]

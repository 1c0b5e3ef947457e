-- ===== src/Proto/Pool.antt =====
-- The pool of constants: what `msProtoAddConst` returns and keeps.
use mslang_cc.Base.{
  Bool, true, false, Option, none, some, List, [], ◌∷◌, ◌++◌, ℕ, suc, ◌+◌, ◌<◌, ◌≡◌, refl, ap, ◌∙◌,
  ◌⊎◌, inl, inr, arith, leb, ◌==◌, Bool-cases, Option-cases, length, get_elem?,
}
use mslang_cc.Floats.{Floats}
use mslang_cc.Memory.{Mem}
use mslang_cc.Object.{proto_tag, tag_number, Ref, tag_of, Store}
use mslang_cc.Object.EqualsLaws.{ref_rank, IsLive, AllBelow, IsRanked, value_equals_total}
use mslang_cc.Proto.{ok, is_ok, Builder, make_room}
use mslang_cc.Proto.Consts.{
  consts_max, append_const, signs_differ, const_equals, find_const, add_const,
}
use mslang_cc.Proto.Emit.{is_ok-ok}

module _ (F : Floats) where
  open F use {Double}

  -- no constant of the pool counts as equal to `value`
  abbrev pub IsFresh : ℕ → Store Double → Ref → List Ref → Type 0
  IsFresh fuel s value [] = Unit
  IsFresh fuel s value (c ∷ cs) =
      (const_equals F fuel s c value ≡ some false) × IsFresh fuel s value cs

  -- the entry `k` counts as equal to `value`
  abbrev pub IsShared : ℕ → Store Double → Ref → ℕ → List Ref → Type 0
  IsShared fuel s value k pool =
      (c : Ref) × (get_elem? pool k ≡ some c) × (const_equals F fuel s c value ≡ some true)

  -- What adding a constant does to the pool: it shares the slot of an equal one, or appends; where it
  -- fails it leaves an error.
  abbrev pub Adds : ℕ → Store Double → Ref → Builder → Option (Option ℕ × Builder × Mem) → Type 0
  Adds fuel s value b none = ⊥
  Adds fuel s value b (some (none, b', m')) = (b'.proto ≡ b.proto) × (is_ok b'.error ≡ false)
  Adds fuel s value b (some (some k, b', m')) =
      (k < consts_max)
      × (b'.error ≡ ok)
      × (b'.proto.code ≡ b.proto.code)
      × ((IsShared fuel s value k b.proto.consts × (b'.proto.consts ≡ b.proto.consts))
          ⊎ (IsFresh fuel s value b.proto.consts
              × (k ≡ length b.proto.consts)
              × (b'.proto.consts ≡ b.proto.consts ++ value ∷ [])))

module _ (F : Floats) (s : Store F.Double) (rank : ℕ → ℕ) (ranked : IsRanked s rank) (fuel : ℕ)
    (value : Ref) where
  open F use {Double}

  const_decides :
      (c : Ref)
      → IsLive s c
      → IsLive s value
      → ref_rank rank c < fuel
      → (v : Bool) × (const_equals F fuel s c value ≡ some v)
  unfolding const_equals
  const_decides c lc lv h =
      let (x, p) = lc in
      let (y, q) = lv in
      let (v, e) = value_equals_total F s rank ranked fuel c value lc lv h in
      elim (Bool-cases (tag_number (tag_of x) == tag_number (tag_of y))) [
        | inr differ ↦ (false, rw (p, q, differ, const_equals))
        | inl same ↦ elim (Bool-cases (signs_differ F x y)) [
          | inl zeros ↦ (false, rw (p, q, same, zeros, const_equals))
          | inr alike ↦ (v, rw (p, q, same, alike, const_equals) e)
        ]
      ]

  abbrev Scanned : ℕ → List Ref → Type 0
  Scanned i pool =
      ((find_const F fuel s value i pool ≡ some none) × IsFresh F fuel s value pool)
      ⊎ ((k : ℕ) × (find_const F fuel s value i pool ≡ some (some (i + k)))
          × (k < length pool)
          × IsShared F fuel s value k pool)

  find_const-Scanned :
      (i : ℕ) (pool : List Ref) → IsLive s value → AllBelow s rank fuel pool → Scanned i pool
  unfolding find_const
  find_const-Scanned i [] lv live = inl (refl, tt)
  find_const-Scanned i (c ∷ cs) lv live =
      let (v, e) = const_decides c live.0 lv live.1 in
      elim (Bool-cases v) [
        | inl hit ↦
            let equal : const_equals F fuel s c value ≡ some true = e ∙ ap some hit in
            inr (
              0,
              rw (equal, find_const) (ap (λ (n : ℕ). some (some n)) (omega arith)),
              omega arith,
              (c, refl, equal),
            )
        | inr miss ↦
            let differ : const_equals F fuel s c value ≡ some false = e ∙ ap some miss in
            elim (find_const-Scanned (suc i) cs lv live.2) [
              | inl (stop, fresh) ↦ inl (rw (differ, find_const) stop, (differ, fresh))
              | inr (k, found, short, shared) ↦ inr (
                suc k,
                rw (differ, find_const) (found ∙ ap (λ (n : ℕ). some (some n)) (omega arith)),
                omega arith,
                shared,
              )
            ]
      ]

  append_const-Adds :
      (b : Builder) (m : Mem)
      → b.error ≡ ok
      → length b.proto.consts < consts_max
      → IsFresh F fuel s value b.proto.consts
      → Adds F fuel s value b (some (append_const value b m))
  unfolding append_const
  append_const-Adds b m fine room fresh =
      elim (Option-cases (make_room 8 (length b.proto.consts) b.consts_cap m).0) [
        | inl stop ↦ rw (stop, append_const) (refl, refl)
        | inr (size, grown) ↦ rw (grown, append_const) (room, fine, refl, inr (fresh, refl, refl))
      ]

  -- Adding a constant always ends, if no list holds itself and all pointers are live. On success the
  -- index is below the limit, and either that slot already held a constant that counts as equal and
  -- the pool is unchanged, or no slot did and the constant is the new last one. On failure the proto
  -- is unchanged and the builder holds an error.
  pub add_const-Adds :
      (b : Builder) (m : Mem)
      → IsLive s value
      → AllBelow s rank fuel b.proto.consts
      → Adds F fuel s value b (add_const F fuel s value b m)
  unfolding add_const
  add_const-Adds b m lv live =
      let (x, p) = lv in
      elim (Bool-cases (is_ok b.error)) [
        | inr failed ↦ rw (failed, add_const) (refl, failed)
        | inl fine ↦ elim (Bool-cases (tag_number (tag_of x) == tag_number proto_tag)) [
          | inl child ↦ rw (fine, p, child, add_const) (refl, refl)
          | inr plain ↦ elim (Bool-cases (leb consts_max (length b.proto.consts))) [
            | inl full ↦ rw (fine, p, plain, full, add_const) (refl, refl)
            | inr place ↦
                let room : length b.proto.consts < consts_max = ground arith in
                elim (find_const-Scanned 0 b.proto.consts lv live) [
                  | inl (scanned, fresh) ↦
                      rw (fine, p, plain, place, scanned, add_const)
                        (append_const-Adds b m (is_ok-ok b.error fine) room fresh)
                  | inr (k, hit, short, shared) ↦
                      let scanned : find_const F fuel s value 0 b.proto.consts ≡ some (some k) =
                        hit ∙ ap (λ (n : ℕ). some (some n)) (omega arith) in
                      rw (fine, p, plain, place, scanned, add_const)
                        (omega arith, is_ok-ok b.error fine, refl, inl (shared, refl))
                ]
          ]
        ]
      ]

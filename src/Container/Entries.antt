-- ===== src/Container/Entries.antt =====
-- Dicts: setting an entry, and visiting all of them.
use mathlib.Core.Option.{some_inj}
use mslang_cc.Base.{
  Bool, true, false, Option, none, some, List, [], ◌∷◌, ◌++◌, ℕ, zero, suc, ◌+◌, ◌≤◌, ◌<◌, ◌≡◌,
  refl, sym, ap, ◌∙◌, ◌⊎◌, inl, inr, arith, Bool-cases, Option-cases, none≢some, length, get_elem?,
  drop, length-append,
}
use mslang_cc.Base.Int.{ℤ, pos}
use mslang_cc.Memory.{Mem}
use mslang_cc.Object.{Ref}
use mslang_cc.Proto.{MsResult, ok, error_runtime, error_syntax, error_oom}
use mslang_cc.Container.{Storage, push, replace_entry, dict_set, dict_next}
use mslang_cc.Container.Growth.{Pushes, push-Pushes}

module _ (equals : Ref → Ref → Option Bool) (key value : Ref) where
  -- no key counts as equal
  abbrev pub IsAbsent : List (Ref × Ref) → Type 0
  IsAbsent [] = Unit
  IsAbsent (e ∷ es) = (equals e.0 key ≡ some false) × IsAbsent es

  -- the first entry with an equal key has the new value, and keeps its key and its place
  abbrev pub Updates : List (Ref × Ref) → List (Ref × Ref) → Type 0
  Updates es es' =
      (before after : List (Ref × Ref)) × (e : Ref × Ref) × (es ≡ before ++ e ∷ after)
      × IsAbsent before
      × (equals e.0 key ≡ some true)
      × (es' ≡ before ++ (e.0, value) ∷ after)

  -- the comparisons with the keys end
  abbrev pub AllAnswer : List (Ref × Ref) → Type 0
  AllAnswer [] = Unit
  AllAnswer (e ∷ es) = ((v : Bool) × (equals e.0 key ≡ some v)) × AllAnswer es

  abbrev Replaced : List (Ref × Ref) → Type 0
  Replaced es =
      ((replace_entry equals key value es ≡ some none) × IsAbsent es)
      ⊎ ((es' : List (Ref × Ref)) × (replace_entry equals key value es ≡ some (some es'))
          × Updates es es')

  replace_entry-Replaced : (es : List (Ref × Ref)) → AllAnswer es → Replaced es
  unfolding replace_entry
  replace_entry-Replaced [] h = inl (refl, tt)
  replace_entry-Replaced (e ∷ es) h =
      let (v, compares) = h.0 in
      elim (Bool-cases v) [
        | inl hit ↦
            let equal : equals e.0 key ≡ some true = compares ∙ ap some hit in
            inr (
              (e.0, value) ∷ es,
              rw (equal, replace_entry) refl,
              ([], es, e, refl, tt, equal, refl),
            )
        | inr miss ↦
            let differ : equals e.0 key ≡ some false = compares ∙ ap some miss in
            elim (replace_entry-Replaced es h.1) [
              | inl (stop, absent) ↦ inl (rw (differ, stop, replace_entry) refl, (differ, absent))
              | inr (es', found, (before, after, d, split, absent, equal, made)) ↦ inr (
                e ∷ es',
                rw (differ, found, replace_entry) refl,
                (
                  e ∷ before,
                  after,
                  d,
                  ap (λ r. e ∷ r) split,
                  (differ, absent),
                  equal,
                  ap (λ r. e ∷ r) made,
                ),
              )
            ]
      ]

  -- What setting an entry does.
  abbrev pub DictSets : Storage (Ref × Ref) → Option (MsResult × Storage (Ref × Ref) × Mem) → Type 0
  DictSets s none = ⊥
  DictSets s (some (ok, s', m')) =
      (length s'.items ≤ s'.capacity)
      × (Updates s.items s'.items ⊎ (IsAbsent s.items × (s'.items ≡ s.items ++ (key, value) ∷ [])))
  DictSets s (some (r, s', m')) = (r ≡ error_oom) × (s' ≡ s)

  pushed-DictSets :
      (s : Storage (Ref × Ref)) (r : MsResult × Storage (Ref × Ref) × Mem)
      → IsAbsent s.items
      → Pushes (key, value) s r
      → DictSets s (some r)
  pushed-DictSets s (ok, s', m') absent p = (p.1, inr (absent, p.0))
  pushed-DictSets s (error_runtime, s', m') absent p = p
  pushed-DictSets s (error_syntax, s', m') absent p = p
  pushed-DictSets s (error_oom, s', m') absent p = p

  length-Updates : (es es' : List (Ref × Ref)) → Updates es es' → length es' ≡ length es
  length-Updates es es' (before, after, e, split, absent, equal, made) =
      rw (split, made)
        (length-append before ((e.0, value) ∷ after) ∙ sym (length-append before (e ∷ after)))

  -- Setting an entry of a dict within its capacity, where the comparisons with its keys end, always
  -- ends. It writes the value to the first entry with an equal key, which keeps its key and place;
  -- or no key is equal and the entry is added at the end; or memory ran out and the dict is as it was.
  pub dict_set-DictSets :
      (s : Storage (Ref × Ref)) (m : Mem)
      → AllAnswer s.items
      → length s.items ≤ s.capacity
      → DictSets s (dict_set equals key value s m)
  unfolding dict_set
  dict_set-DictSets s m answers within = elim (replace_entry-Replaced s.items answers) [
    | inl (stop, absent) ↦
        rw (stop, dict_set)
          (pushed-DictSets s (push 16 (key, value) s m) absent
            (push-Pushes 16 (key, value) s m within))
    | inr (items, found, updates) ↦
        rw (found, dict_set) (omega (arith, length-Updates s.items items updates), inl updates)
  ]

-- All that `msDictNext` gives from a cursor on, in at most `fuel` calls.
unfoldable pub visit : ℕ → Storage (Ref × Ref) → ℤ → List (Ref × Ref)
visit zero s cursor = []
visit (suc fuel) s cursor = elim (dict_next s cursor) [
  | none ↦ []
  | some (k, v, next) ↦ (k, v) ∷ visit fuel s next
]

drop-get :
    (es : List (Ref × Ref)) (i : ℕ) (e : Ref × Ref)
    → get_elem? es i ≡ some e
    → drop i es ≡ e ∷ drop (suc i) es
drop-get [] i e h = absurd (none≢some h)
drop-get (x ∷ es) zero e h = ap (λ (d : Ref × Ref). d ∷ es) (some_inj.0 h)
drop-get (x ∷ es) (suc i) e h = drop-get es i e h

drop-past : (es : List (Ref × Ref)) (i : ℕ) → get_elem? es i ≡ none → drop i es ≡ []
drop-past [] zero h = refl
drop-past [] (suc i) h = refl
drop-past (x ∷ es) zero h = absurd (none≢some (sym h))
drop-past (x ∷ es) (suc i) h = drop-past es i h

drop-long : (es : List (Ref × Ref)) (i : ℕ) → length es ≤ i → drop i es ≡ []
drop-long [] zero h = refl
drop-long [] (suc i) h = refl
drop-long (x ∷ es) zero h = absurd (omega arith)
drop-long (x ∷ es) (suc i) h = drop-long es i (omega arith)

-- Calling `msDictNext` from the cursor `i` visits the entries from `i` on, each once and in the order
-- of insertion, and then stops; one call more than there are entries left is enough.
pub visit-drop :
    (fuel : ℕ) (s : Storage (Ref × Ref)) (i : ℕ)
    → length s.items < fuel + i
    → visit fuel s (pos i) ≡ drop i s.items
unfolding visit dict_next
visit-drop zero s i h = sym (drop-long s.items i (omega arith))
visit-drop (suc fuel) s i h = elim (Option-cases (get_elem? s.items i)) [
  | inl past ↦ rw (past, visit, dict_next) (sym (drop-past s.items i past))
  | inr (e, found) ↦
      let next : i + 1 ≡ suc i = omega arith in
      rw (found, visit, dict_next)
        (ap (λ r. e ∷ r) (visit-drop fuel s (i + 1) (omega arith) ∙ ap (λ n. drop n s.items) next)
          ∙ sym (drop-get s.items i e found))
]

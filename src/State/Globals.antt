-- ===== src/State/Globals.antt =====
-- Setting a global against getting it.
use mathlib.Core.Option.{some_inj}
use mslang_cc.Base.{
  true, false, none, some, List, [], ◌∷◌, ◌++◌, ℕ, ◌≡◌, refl, sym, ap, ◌∙◌, ◌⊎◌, inl, inr,
  if◌then◌else◌, Bool-cases, Option-cases, none≢some,
}
use mslang_cc.Memory.{Mem}
use mslang_cc.Object.{Ref}
use mslang_cc.Object.Equals.{string_equals}
use mslang_cc.Object.HashLaws.{string_equals-eq}
use mslang_cc.Proto.{MsResult, ok, error_oom}
use mslang_cc.Scope.Lookup.{string_equals_self}
use mslang_cc.State.{Global, Table, find_value, get_global, replace_value, table_room, set_global}

-- A name in the entries after another name was set.
abbrev Reads : List ℕ → List ℕ → Ref → List Global → List Global → Type 0
Reads name other v gs gs' =
    find_value other gs' ≡ (if string_equals name other then some v else find_value other gs)

-- An entry of another name in front of both.
Reads-cons :
    (name other : List ℕ) (v : Ref) (g : Global) (gs gs' : List Global)
    → string_equals g.name name ≡ false
    → Reads name other v gs gs'
    → Reads name other v (g ∷ gs) (g ∷ gs')
unfolding find_value
Reads-cons name other v g gs gs' miss deep = elim (Bool-cases (string_equals g.name other)) [
  | inr away ↦ rw away deep
  | inl here ↦ elim (Bool-cases (string_equals name other)) [
    | inr off ↦ rw (here, off) refl
    | inl on ↦
        let same : g.name ≡ name =
          string_equals-eq g.name other here ∙ sym (string_equals-eq name other on) in
        let hit : string_equals g.name name ≡ true = rw same (string_equals_self name) in absurd cc
  ]
]

Reads-hit :
    (name other : List ℕ) (v : Ref) (g : Global) (gs : List Global)
    → string_equals g.name name ≡ true
    → Reads name other v (g ∷ gs) (record g { value = v } ∷ gs)
unfolding find_value
Reads-hit name other v g gs hit =
    let same = string_equals-eq g.name name hit in
    let both : string_equals g.name other ≡ string_equals name other =
      ap (λ (n : List ℕ). string_equals n other) same in
    elim (Bool-cases (string_equals name other)) [
      | inl on ↦ rw (both ∙ on, on) refl
      | inr off ↦ rw (both ∙ off, off) refl
    ]

-- The two ways that the first loop ends.
replace_cases :
    (name : List ℕ) (v : Ref) (g : Global) (gs : List Global)
    → ((string_equals g.name name ≡ true)
        × (replace_value name v (g ∷ gs) ≡ some (record g { value = v } ∷ gs)))
      ⊎ ((string_equals g.name name ≡ false)
          × (replace_value name v (g ∷ gs)
              ≡ elim (replace_value name v gs) [ none ↦ none | some gs' ↦ some (g ∷ gs') ]))
unfolding replace_value
replace_cases name v g gs = elim (Bool-cases (string_equals g.name name)) [
  | inl hit ↦ inl (hit, rw hit refl)
  | inr miss ↦ inr (miss, rw miss refl)
]

replace_value-Reads :
    (name other : List ℕ) (v : Ref) (gs gs' : List Global)
    → replace_value name v gs ≡ some gs'
    → Reads name other v gs gs'
unfolding replace_value
replace_value-Reads name other v [] gs' h = absurd (none≢some h)
replace_value-Reads name other v (g ∷ gs) gs' h = elim (replace_cases name v g gs) [
  | inl (hit, e) ↦ rw (← some_inj.0 (sym e ∙ h)) (Reads-hit name other v g gs hit)
  | inr (miss, e) ↦ elim (Option-cases (replace_value name v gs)) [
    | inl stop ↦ absurd (none≢some (rw stop at (sym e ∙ h)))
    | inr (rest, found) ↦
        rw (← some_inj.0 (rw found at (sym e ∙ h)))
          (Reads-cons name other v g gs rest miss (replace_value-Reads name other v gs rest found))
  ]
]

append-Reads :
    (name other : List ℕ) (v : Ref) (gs : List Global)
    → replace_value name v gs ≡ none
    → Reads name other v gs (gs ++ record { name = name; value = v } ∷ [])
unfolding find_value
append-Reads name other v [] h = refl
append-Reads name other v (g ∷ gs) h = elim (replace_cases name v g gs) [
  | inl (hit, e) ↦ absurd (none≢some (sym h ∙ e))
  | inr (miss, e) ↦ elim (Option-cases (replace_value name v gs)) [
    | inr (rest, found) ↦ absurd (none≢some (rw found at (sym h ∙ e)))
    | inl stop ↦ Reads-cons name other v g gs _ miss (append-Reads name other v gs stop)
  ]
]

-- What setting a global does to the table, and to the value of any name.
abbrev pub Sets : List ℕ → List ℕ → Ref → Table → MsResult × Table × Mem → Type 0
Sets name other v t (ok, t', m') =
    get_global other t' ≡ (if string_equals name other then some v else get_global other t)
Sets name other v t (r, t', m') = (r ≡ error_oom) × (t' ≡ t) × (get_global name t ≡ none)

replace_value-none :
    (name : List ℕ) (v : Ref) (gs : List Global)
    → replace_value name v gs ≡ none
    → find_value name gs ≡ none
unfolding find_value
replace_value-none name v [] h = refl
replace_value-none name v (g ∷ gs) h = elim (replace_cases name v g gs) [
  | inl (hit, e) ↦ absurd (none≢some (sym h ∙ e))
  | inr (miss, e) ↦ elim (Option-cases (replace_value name v gs)) [
    | inr (rest, found) ↦ absurd (none≢some (rw found at (sym h ∙ e)))
    | inl stop ↦ rw miss (replace_value-none name v gs stop)
  ]
]

-- After a global was set, its name reads the new value and every other name what it read before.
-- Where it cannot be set memory ran out, the name was not there, and the table is as it was.
pub set_global-Sets :
    (name other : List ℕ) (v : Ref) (t : Table) (m : Mem)
    → Sets name other v t (set_global name v t m)
unfolding set_global get_global
set_global-Sets name other v t m = elim (Option-cases (replace_value name v t.entries)) [
  | inr (entries, found) ↦
      rw (found, set_global) (replace_value-Reads name other v t.entries entries found)
  | inl absent ↦ elim (Option-cases (table_room t m).0) [
    | inl stop ↦
        rw (absent, stop, set_global) (refl, refl, replace_value-none name v t.entries absent)
    | inr (cap, room) ↦ rw (absent, room, set_global) (append-Reads name other v t.entries absent)
  ]
]

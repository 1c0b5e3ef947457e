-- ===== src/Diag/Report.antt =====
-- A sequence of reports, and what the list holds after it.
use mathlib.Core.List.{append_assoc}
use mslang_cc.Base.{
  true, false, List, [], ◌∷◌, ◌++◌, ℕ, zero, suc, ◌≤◌, ◌<◌, ◌≡◌, refl, sym, ap, ◌∙◌, ◌⊎◌, inl, inr,
  arith, leb, leb→le, Bool-cases, length, take, length-append,
}
use mslang_cc.Diag.{diag_max, Diag, DiagList, diag_entry, report}

-- The reports of a compilation, which goes on after a refused one.
unfoldable pub report_all : List (ℕ × ℕ × ℕ × List ℕ) → DiagList → DiagList
report_all [] list = list
report_all (r ∷ rs) list = report_all rs (report r list).1

report-entries :
    (r : ℕ × ℕ × ℕ × List ℕ) (list : DiagList)
    → (((report r list).0 ≡ false) × ((report r list).1 ≡ list) × (diag_max ≤ length list.items))
      ⊎ (((report r list).0 ≡ true)
          × ((report r list).1
              ≡ record list { items = list.items ++ diag_entry list.chunk_name r ∷ [] })
          × (length list.items < diag_max))
unfolding report
report-entries r list = elim (Bool-cases (leb diag_max (length list.items))) [
  | inl full ↦ inl (rw full refl, rw full refl, leb→le _ _ full)
  | inr room ↦ inr (rw room refl, rw room refl, ground arith)
]

take-append : {A : Type 0} (n : ℕ) (xs ys : List A) → length xs ≡ n → take n (xs ++ ys) ≡ xs
take-append zero [] ys h = refl
take-append zero (x ∷ xs) ys h = absurd (omega arith)
take-append (suc n) [] ys h = absurd (omega arith)
take-append (suc n) (x ∷ xs) ys h = ap (λ r. x ∷ r) (take-append n xs ys (omega arith))

take-all : {A : Type 0} (n : ℕ) (xs : List A) → length xs ≤ n → take n (xs ++ []) ≡ xs
take-all zero [] h = refl
take-all zero (x ∷ xs) h = absurd (omega arith)
take-all (suc n) [] h = refl
take-all (suc n) (x ∷ xs) h = ap (λ r. x ∷ r) (take-all n xs (omega arith))

-- What a report leaves in the list, under the name of a file: its line, its column, its code, and at
-- most 255 bytes of its message.
abbrev pub noted : List ℕ → ℕ × ℕ × ℕ × List ℕ → Diag
noted name (line, column, code, message) = record {
  file = name;
  line = line;
  column = column;
  code = code;
  message = take 255 message;
}

abbrev pub entries_of : List ℕ → List (ℕ × ℕ × ℕ × List ℕ) → List Diag
entries_of name [] = []
entries_of name (r ∷ rs) = noted name r ∷ entries_of name rs

diag_entry-noted : (name : List ℕ) (r : ℕ × ℕ × ℕ × List ℕ) → diag_entry name r ≡ noted name r
unfolding diag_entry
diag_entry-noted name (line, column, code, message) = refl

-- After a sequence of reports the list holds the first 20 of what was there and what was reported, in
-- order: each report with its line, its column, its code and the first 255 bytes of its message, under
-- the name of the file.
pub report_all-take :
    (rs : List (ℕ × ℕ × ℕ × List ℕ)) (list : DiagList)
    → length list.items ≤ diag_max
    → (report_all rs list).items ≡ take diag_max (list.items ++ entries_of list.chunk_name rs)
unfolding report_all
report_all-take [] list h = sym (take-all diag_max list.items h)
report_all-take (r ∷ rs) list h = elim (report-entries r list) [
  | inl (refused, same, full) ↦
      let whole : length list.items ≡ diag_max = omega arith in
      rw (same, report_all)
        (report_all-take rs list h
          ∙ take-append diag_max list.items _ whole
          ∙ sym (take-append diag_max list.items _ whole))
  | inr (taken, next, room) ↦
      let e = noted list.chunk_name r in
      let next' : (report r list).1 ≡ record list { items = list.items ++ e ∷ [] } =
        next
        ∙ ap (λ (d : Diag). record list { items = list.items ++ d ∷ [] })
            (diag_entry-noted list.chunk_name r) in
      let longer : length (list.items ++ e ∷ []) ≤ diag_max =
        omega (arith, length-append list.items (e ∷ [])) in
      rw (next', report_all)
        (report_all-take rs (record list { items = list.items ++ e ∷ [] }) longer
          ∙ ap (take diag_max) (append_assoc list.items (e ∷ []) (entries_of list.chunk_name rs)))
]

-- ===== src/Proto/Lines.antt =====
-- The table from pcs to lines: the binary search of `msProtoLineAt` against a scan from the front.
use mslang_cc.Base.{
  true, false, Option, some, List, [], ◌∷◌, ℕ, zero, suc, ◌+◌, ◌-◌, ◌/◌, ◌≤◌, ◌<◌, ◌≡◌, refl, sym,
  ap, ◌∙◌, inl, inr, arith, ltb, leb, ◌==◌, if◌then◌else◌, ltb→lt, leb→le, ==_iff, Bool-cases,
  length, get_elem?, get_elem?-lt, get_elem?-some,
}
use mathlib.Core.Option.{some_inj}
use mslang_cc.Proto.{LineEntry, line_search, line_at}

-- The entries after one at `lo`, by rising pc.
abbrev pub IsRising : ℕ → List LineEntry → Type 0
IsRising lo [] = Unit
IsRising lo (e ∷ es) = (lo < e.first_pc) × IsRising e.first_pc es

abbrev pub IsSorted : List LineEntry → Type 0
IsSorted [] = Unit
IsSorted (e ∷ es) = IsRising e.first_pc es

-- The line of the last entry at or before a pc, found by a scan; before the first entry it is the
-- line of the first.
abbrev pub scan : ℕ → List LineEntry → ℕ → ℕ
scan line [] pc = line
scan line (e ∷ es) pc = if leb e.first_pc pc then scan e.line es pc else line

abbrev pub line_of : List LineEntry → ℕ → ℕ
line_of [] pc = 0
line_of (e ∷ es) pc = scan e.line es pc

-- No entry after index `i` is at or before `pc`.
abbrev NoneAfter : List LineEntry → ℕ → ℕ → Type 0
NoneAfter lines pc i =
    (j : ℕ) (e : LineEntry) → i < j → get_elem? lines j ≡ some e → pc < e.first_pc

rising_le :
    (lo : ℕ) (es : List LineEntry) (i : ℕ) (e : LineEntry)
    → IsRising lo es
    → get_elem? es i ≡ some e
    → lo < e.first_pc
rising_le lo [] i e up h = absurd cc
rising_le lo (x ∷ es) zero e up h = rw (← ap (λ (x : LineEntry). x.first_pc) (some_inj.0 h)) up.0
rising_le lo (x ∷ es) (suc i) e up h = omega (arith, rising_le x.first_pc es i e up.1 h, up.0)

sorted_le :
    (es : List LineEntry) (i j : ℕ) (a b : LineEntry)
    → IsSorted es
    → i < j
    → get_elem? es i ≡ some a
    → get_elem? es j ≡ some b
    → a.first_pc < b.first_pc
sorted_le [] i j a b up h ha hb = absurd cc
sorted_le (x ∷ es) zero zero a b up h ha hb = omega arith
sorted_le (x ∷ es) zero (suc j) a b up h ha hb =
    rw (← ap (λ (x : LineEntry). x.first_pc) (some_inj.0 ha)) (rising_le x.first_pc es j b up hb)
sorted_le (x ∷ es) (suc i) zero a b up h ha hb = omega arith
sorted_le (x ∷ []) (suc i) (suc j) a b up h ha hb = absurd cc
sorted_le (x ∷ y ∷ es) (suc i) (suc j) a b up h ha hb =
    sorted_le (y ∷ es) i j a b up.1 (omega arith) ha hb

later_le :
    (lines : List LineEntry) (pc mid : ℕ) (f : LineEntry)
    → IsSorted lines
    → get_elem? lines mid ≡ some f
    → pc < f.first_pc
    → NoneAfter lines pc (mid - 1)
later_le lines pc mid f up at_mid below j g h at_j = elim (Bool-cases (mid == j)) [
  | inl same ↦
      let e : f ≡ g =
        some_inj.0 (sym at_mid ∙ ap (get_elem? lines) ((==_iff mid j).0 same) ∙ at_j) in
      rw (← e) below
  | inr apart ↦
      let lt : mid < j = ground arith in
      omega (arith, sorted_le lines mid j f g up lt at_mid at_j, below)
]

-- What the search returns: the last index whose entry is at or before `pc`.
abbrev Finds : List LineEntry → ℕ → Option ℕ → Type 0
Finds lines pc r =
    (i : ℕ) × (e : LineEntry) × (r ≡ some i)
    × (get_elem? lines i ≡ some e)
    × (e.first_pc ≤ pc)
    × NoneAfter lines pc i

line_search-Finds :
    (fuel : ℕ) (lines : List LineEntry) (pc lo hi : ℕ) (e : LineEntry)
    → IsSorted lines
    → lo ≤ hi
    → hi < length lines
    → hi - lo < fuel
    → get_elem? lines lo ≡ some e
    → e.first_pc ≤ pc
    → NoneAfter lines pc hi
    → Finds lines pc (line_search fuel lines pc lo hi)
unfolding line_search
line_search-Finds zero lines pc lo hi e up h1 h2 h3 at_lo le after = absurd (omega arith)
line_search-Finds (suc fuel) lines pc lo hi e up h1 h2 h3 at_lo le after =
    let mid = (lo + hi + 1) / 2 in
    elim (Bool-cases (ltb lo hi)) [
      | inr stop ↦
          let same : lo ≡ hi = ground arith in
          rw (stop, line_search) (lo, e, refl, at_lo, le, λ j f h. after j f (rw (← same) h))
      | inl go ↦
          let lt : lo < hi = ltb→lt lo hi go in
          let in_range : mid < length lines = omega arith in
          let (f, at_mid) = get_elem?-lt lines mid in_range in
          elim (Bool-cases (leb f.first_pc pc)) [
            | inl left ↦
                rw (go, at_mid, left, line_search)
                  (line_search-Finds fuel lines pc mid hi f up (omega arith) h2 (omega arith) at_mid
                    (leb→le _ _ left) after)
            | inr right ↦
                rw (go, at_mid, right, line_search)
                  (line_search-Finds fuel lines pc lo (mid - 1) e up (omega arith) (omega arith)
                    (omega arith) at_lo le (later_le lines pc mid f up at_mid (ground arith)))
          ]
    ]

first_le :
    (x : LineEntry) (es : List LineEntry) (i : ℕ) (found : LineEntry) {pc : ℕ}
    → IsRising x.first_pc es
    → get_elem? (x ∷ es) i ≡ some found
    → found.first_pc ≤ pc
    → x.first_pc ≤ pc
first_le x es zero found up h le = rw (some_inj.0 h) le
first_le x es (suc i) found up h le = omega (arith, rising_le x.first_pc es i found up h, le)

scan-before :
    (e : LineEntry) (es : List LineEntry) (pc : ℕ)
    → IsSorted (e ∷ es)
    → pc < e.first_pc
    → scan e.line es pc ≡ e.line
scan-before e [] pc up h = refl
scan-before e (x ∷ es) pc up h =
    let stop : leb x.first_pc pc ≡ false = ground (arith, up.0) in rw stop refl

scan-Finds :
    (e : LineEntry) (es : List LineEntry) (pc i : ℕ) (found : LineEntry)
    → IsSorted (e ∷ es)
    → get_elem? (e ∷ es) i ≡ some found
    → found.first_pc ≤ pc
    → NoneAfter (e ∷ es) pc i
    → scan e.line es pc ≡ found.line
scan-Finds e [] pc zero found up h le after = ap (λ (x : LineEntry). x.line) (some_inj.0 h)
scan-Finds e [] pc (suc i) found up h le after = absurd cc
scan-Finds e (x ∷ es) pc zero found up h le after =
    let past : pc < x.first_pc = after 1 x (omega arith) refl in
    let stop : leb x.first_pc pc ≡ false = ground arith in
    rw stop (ap (λ (x : LineEntry). x.line) (some_inj.0 h))
scan-Finds e (x ∷ es) pc (suc i) found up h le after =
    let first : x.first_pc ≤ pc = first_le x es i found up.1 h le in
    let go : leb x.first_pc pc ≡ true = ground arith in
    rw go (scan-Finds x es pc i found up.1 h le (λ j f lt at_j. after (suc j) f (omega arith) at_j))

-- On a table whose entries have rising pcs, the binary search ends and gives the line of the last
-- entry at or before the pc, that of the first entry if there is none, and 0 on an empty table.
pub line_at-line_of :
    (lines : List LineEntry) (pc : ℕ) → IsSorted lines → line_at lines pc ≡ some (line_of lines pc)
unfolding line_at
line_at-line_of [] pc up = refl
line_at-line_of (e ∷ es) pc up = elim (Bool-cases (ltb pc e.first_pc)) [
  | inl before ↦ rw before (ap some (sym (scan-before e es pc up (ltb→lt _ _ before))))
  | inr from ↦
      let (i, found, ran, at_i, le, after) =
        line_search-Finds (length es + 1) (e ∷ es) pc 0 (length es) e up (omega arith) (omega arith)
          (omega arith) refl (ground arith)
          (λ j f lt at_j. absurd (omega (arith, get_elem?-some (e ∷ es) j at_j, lt))) in
      rw (from, ran, at_i) (ap some (sym (scan-Finds e es pc i found up at_i le after)))
]

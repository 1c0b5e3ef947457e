-- ===== src/Proto/Emit.antt =====
-- What emitting and patching do to the code and to the table of lines.
use mslang_cc.Base.{
  Bool, true, false, ◌||◌, Option, none, some, List, [], ◌∷◌, ◌++◌, ℕ, ◌+◌, ◌≤◌, ◌<◌, ◌≡◌, refl,
  sym, ◌∙◌, inl, inr, arith, leb, ◌==◌, if◌then◌else◌, leb→le, ==_iff, Bool-cases, Option-cases,
  length, length-append,
}
use mslang_cc.Memory.{Mem}
use mslang_cc.Proto.{
  MsResult, ok, error_runtime, error_syntax, error_oom, is_ok, LineEntry, Proto, Builder, make_room,
  last_line, line_entry, put_instr, lines_room, emit,
}
use mslang_cc.Proto.Lines.{IsRising, IsSorted, scan, line_of}

pub is_ok-ok : (r : MsResult) → is_ok r ≡ true → r ≡ ok
is_ok-ok ok h = refl
is_ok-ok error_runtime h = absurd cc
is_ok-ok error_syntax h = absurd cc
is_ok-ok error_oom h = absurd cc

-- One run of the emit: it appends as `put_instr` says, or leaves code and table alone and holds an error.
abbrev Runs : ℕ → Builder → Option ℕ × Builder × Mem → Type 0
Runs instr b (some pc, b', m') =
    (pc ≡ length b.proto.code)
    × (b'.error ≡ ok)
    × (b'.pending_line ≡ none)
    × (b'.proto ≡ (put_instr instr b).proto)
Runs instr b (none, b', m') = (b'.proto ≡ b.proto) × (is_ok b'.error ≡ false)

emit-Runs : (instr : ℕ) (b : Builder) (m : Mem) → Runs instr b (emit instr b m)
unfolding emit put_instr line_entry
emit-Runs instr b m =
    let (grown, m1) = make_room 4 (length b.proto.code) b.code_cap m in
    elim (Bool-cases (is_ok b.error)) [
      | inr failed ↦ rw (failed, emit) (refl, failed)
      | inl fine ↦ elim (Option-cases grown) [
        | inl stop ↦ rw (fine, stop, emit) (refl, refl)
        | inr (size, room) ↦ elim (Option-cases (lines_room (record b { code_cap = size }) m1).0) [
          | inl stop ↦ rw (fine, room, stop, emit) (refl, refl)
          | inr (lines_cap, more) ↦
              rw (fine, room, more, emit) (refl, is_ok-ok b.error fine, refl, refl)
        ]
      ]
    ]

-- Every entry of the table starts below `pc`.
abbrev pub AllBelow : ℕ → List LineEntry → Type 0
AllBelow pc [] = Unit
AllBelow pc (e ∷ es) = (e.first_pc < pc) × AllBelow pc es

-- The table of a builder: rising pcs, all of instructions that were emitted.
abbrev pub IsTable : Proto → Type 0
IsTable p = IsSorted p.lines × AllBelow (length p.code) p.lines

AllBelow-mono : (pc : ℕ) (es : List LineEntry) → AllBelow pc es → AllBelow (pc + 1) es
AllBelow-mono pc [] h = h
AllBelow-mono pc (e ∷ es) h = (omega (arith, h.0), AllBelow-mono pc es h.1)

AllBelow-append :
    (pc line : ℕ) (es : List LineEntry)
    → AllBelow pc es
    → AllBelow (pc + 1) (es ++ record { first_pc = pc; line = line } ∷ [])
AllBelow-append pc line [] h = (omega arith, h)
AllBelow-append pc line (e ∷ es) h = (omega (arith, h.0), AllBelow-append pc line es h.1)

IsRising-append :
    (lo pc line : ℕ) (es : List LineEntry)
    → IsRising lo es
    → lo < pc
    → AllBelow pc es
    → IsRising lo (es ++ record { first_pc = pc; line = line } ∷ [])
IsRising-append lo pc line [] up h below = (h, up)
IsRising-append lo pc line (e ∷ es) up h below =
    (up.0, IsRising-append e.first_pc pc line es up.1 below.0 below.1)

IsSorted-append :
    (pc line : ℕ) (es : List LineEntry)
    → IsSorted es
    → AllBelow pc es
    → IsSorted (es ++ record { first_pc = pc; line = line } ∷ [])
IsSorted-append pc line [] up below = up
IsSorted-append pc line (e ∷ es) up below = IsRising-append e.first_pc pc line es up below.0 below.1

-- Reading the table with a new entry at its end.
scan-append :
    (old pc line p : ℕ) (es : List LineEntry)
    → AllBelow pc es
    → scan old (es ++ record { first_pc = pc; line = line } ∷ []) p
      ≡ (if leb pc p then line else scan old es p)
scan-append old pc line p [] below = refl
scan-append old pc line p (e ∷ es) below =
    let rest = scan-append e.line pc line p es below.1 in
    elim (Bool-cases (leb e.first_pc p)) [
      | inl go ↦ rw go rest
      | inr stop ↦ let early : leb pc p ≡ false = ground (arith, below.0) in rw (stop, early) refl
    ]

-- Reading a table past its end gives the last line.
scan-last :
    (old pc p : ℕ) (es : List LineEntry)
    → AllBelow pc es
    → pc ≤ p
    → scan old es p ≡ elim (last_line es) [ none ↦ old | some l ↦ l ]
unfolding last_line
scan-last old pc p [] below h = refl
scan-last old pc p (e ∷ es) below h =
    let go : leb e.first_pc p ≡ true = ground (arith, below.0) in
    let rest = scan-last e.line pc p es below.1 h in
    elim (Option-cases (last_line es)) [
      | inl empty ↦ rw go (rest ∙ rw empty refl)
      | inr (l, e) ↦ rw go (rest ∙ rw e refl)
    ]

-- The line in force for the next instruction: the pending one, or that of the table's end.
abbrev pub line_now : Builder → ℕ
line_now b = elim b.pending_line [
  | some line ↦ line
  | none ↦ line_of b.proto.lines (length b.proto.code)
]

abbrev pub is_empty : List LineEntry → Bool
is_empty [] = true
is_empty (e ∷ es) = false

-- The table after an instruction was put at `pc`.
abbrev Follows : ℕ → ℕ → List LineEntry → List LineEntry → Type 0
Follows pc line es es' =
    IsSorted es'
    × AllBelow (pc + 1) es'
    × ((p : ℕ) → line_of es' p ≡ (if leb pc p || is_empty es then line else line_of es p))

Follows-append :
    (pc line : ℕ) (es : List LineEntry)
    → IsSorted es
    → AllBelow pc es
    → Follows pc line es (es ++ record { first_pc = pc; line = line } ∷ [])
Follows-append pc line [] up below = (up, AllBelow-append pc line [] below, λ p. ground arith)
Follows-append pc line (e ∷ es) up below = (
  IsSorted-append pc line (e ∷ es) up below,
  AllBelow-append pc line (e ∷ es) below,
  λ p. ground (arith, scan-append e.line pc line p es below.1),
)

-- Past the end of a table every pc reads the same line.
line_of-end :
    (pc p : ℕ) (es : List LineEntry)
    → AllBelow pc es
    → pc ≤ p
    → line_of es p ≡ elim (last_line es) [ none ↦ 0 | some l ↦ l ]
unfolding last_line
line_of-end pc p [] below h = refl
line_of-end pc p (e ∷ es) below h =
    scan-last e.line pc p es below.1 h ∙ elim (Option-cases (last_line es)) [
      | inl none_left ↦ rw none_left refl
      | inr (l, found) ↦ rw found refl
    ]

line_of-keep :
    (pc p : ℕ) (es : List LineEntry)
    → AllBelow pc es
    → line_of es p ≡ (if leb pc p || is_empty es then line_of es pc else line_of es p)
line_of-keep pc p [] below = ground arith
line_of-keep pc p (e ∷ es) below = elim (Bool-cases (leb pc p)) [
  | inl past ↦ rw past (
      line_of-end pc p (e ∷ es) below (leb→le pc p past)
      ∙ sym (line_of-end pc pc (e ∷ es) below (omega arith)))
  | inr early ↦ rw early refl
]

Follows-keep :
    (pc line : ℕ) (es : List LineEntry)
    → IsSorted es
    → AllBelow pc es
    → line_of es pc ≡ line
    → Follows pc line es es
Follows-keep pc line es up below same =
    rw (← same) (up, AllBelow-mono pc es below, λ p. line_of-keep pc p es below)

put_instr-Follows :
    (instr : ℕ) (b : Builder)
    → IsTable b.proto
    → Follows (length b.proto.code) (line_now b) b.proto.lines (put_instr instr b).proto.lines
unfolding put_instr line_entry
put_instr-Follows instr b table =
    let es = b.proto.lines in
    let pc = length b.proto.code in
    elim (Option-cases b.pending_line) [
      | inl idle ↦ rw (idle, put_instr) (Follows-keep pc (line_of es pc) es table.0 table.1 refl)
      | inr (line, pending) ↦ elim (Option-cases (last_line es)) [
        | inl fresh ↦ rw (pending, fresh, put_instr) (Follows-append pc line es table.0 table.1)
        | inr (previous, ended) ↦ elim (Bool-cases (previous == line)) [
          | inr moved ↦
              rw (pending, ended, moved, put_instr) (Follows-append pc line es table.0 table.1)
          | inl same ↦
              rw (pending, ended, same, put_instr)
                (Follows-keep pc line es table.0 table.1 (
                  line_of-end pc pc es table.1 (omega arith)
                  ∙ rw ended ((==_iff previous line).0 same)))
        ]
      ]
    ]

-- What an emit does to code and table.
abbrev pub Emits : ℕ → Builder → Option ℕ × Builder × Mem → Type 0
Emits instr b (some pc, b', m') =
    (pc ≡ length b.proto.code)
    × (b'.proto.code ≡ b.proto.code ++ instr ∷ [])
    × IsTable b'.proto
    × ((p : ℕ)
        → line_of b'.proto.lines p
          ≡ (if leb pc p || is_empty b.proto.lines then line_now b else line_of b.proto.lines p))
Emits instr b (none, b', m') = (b'.proto ≡ b.proto) × (is_ok b'.error ≡ false)

Runs-Emits :
    (instr : ℕ) (b : Builder) (r : Option ℕ × Builder × Mem)
    → IsTable b.proto
    → Runs instr b r
    → Emits instr b r
unfolding put_instr
Runs-Emits instr b (none, b', m') table run = run
Runs-Emits instr b (some pc, b', m') table run =
    let (at, fine, cleared, same) = run in
    let (up, below, read) = put_instr-Follows instr b table in
    let longer : length (b.proto.code ++ instr ∷ []) ≡ length b.proto.code + 1 =
      length-append b.proto.code (instr ∷ []) in
    rw (same, at, longer) (refl, refl, (up, below), read)

-- Emitting on a builder whose table has rising pcs of emitted instructions either appends the
-- instruction and returns its pc, keeps the table so, and gives this pc and every later one the line
-- in force, while earlier pcs keep theirs if the table had an entry; or returns -1, with code and
-- table as they were and an error in the builder.
pub emit-Emits :
    (instr : ℕ) (b : Builder) (m : Mem) → IsTable b.proto → Emits instr b (emit instr b m)
emit-Emits instr b m table = Runs-Emits instr b (emit instr b m) table (emit-Runs instr b m)

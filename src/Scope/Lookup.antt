-- ===== src/Scope/Lookup.antt =====
-- src/compiler/ms_scope.c: resolution finds the innermost local of a name, and `global` marks.
use mslang_cc.Base.{
  ℕ, suc, ◌+◌, ◌≤◌, ◌<◌, Bool, true, false, none, some, List, [], ◌∷◌, ◌++◌, length, ◌≡◌, ◌≢◌, ◌⊎◌,
  refl, arith, leb, sym, ◌∙◌, Bool-cases, inl, inr, Option-cases, if◌then◌else◌, none≢some, ◌==◌,
}
use mslang_cc.Memory.{Mem}
use mslang_cc.Object.HashLaws.{string_equals-eq}
use mslang_cc.Object.Equals.{same_bytes, string_equals}
use mslang_cc.Scope.{
  ScopeCtx, Local, scope_depth, alloc_local, declare_local, max_locals, resolve_local, find_last,
  is_named, is_marked, is_marked_global, mark_global, MarkResult, marked, local_exists,
  out_of_memory, grow_globals,
}

find_last-append :
    (test : Local → Bool) (i k : ℕ) (ls : List Local) (l : Local)
    → k ≡ i + length ls
    → find_last test i (ls ++ l ∷ []) ≡ (if test l then some k else find_last test i ls)
unfolding find_last
find_last-append test i k [] l e = ground arith
find_last-append test i k (m ∷ ls) l e = ground (arith, find_last-append test (suc i) k ls l)

-- A declaration that succeeds takes the next slot; its name then resolves to that slot, and every
-- other name to what it did before. One that fails, for lack of a slot, changes nothing.
pub resolve_local-declare_local :
    (name other : List ℕ) (ctx : ScopeCtx)
    → ((declare_local name ctx).0 ≡ none)
        × ((declare_local name ctx).1 ≡ ctx)
        × (max_locals ≤ length ctx.locals)
      ⊎ ((declare_local name ctx).0 ≡ some (length ctx.locals))
        × (length ctx.locals < max_locals)
        × (resolve_local (declare_local name ctx).1 other ≡ (
            if string_equals name other then some (length ctx.locals) else resolve_local ctx other))
unfolding declare_local resolve_local is_named
resolve_local-declare_local name other ctx =
    let l : Local = record { name = some name; depth = scope_depth ctx; is_captured = false } in
    elim (Bool-cases (leb max_locals (length ctx.locals))) [
      | inl full ↦ inl (ground arith)
      | inr room ↦ inr (
        ground arith,
        ground arith,
        rw (room, declare_local, alloc_local)
            (find_last-append (is_named other) 0 (length ctx.locals) ctx.locals l (omega arith)),
      )
    ]

is_marked-append :
    (names : List (List ℕ)) (name other : List ℕ)
    → is_marked (names ++ name ∷ []) other
      ≡ (if is_marked names other then true else string_equals name other)
unfolding is_marked
is_marked-append [] name other = ground arith
is_marked-append (n ∷ names) name other = ground (arith, is_marked-append names name other)

same_bytes_self : (xs : List ℕ) → same_bytes xs xs ≡ true
unfolding same_bytes
same_bytes_self [] = refl
same_bytes_self (x ∷ xs) = ground (arith, same_bytes_self xs)

pub string_equals_self : (a : List ℕ) → string_equals a a ≡ true
unfolding string_equals
string_equals_self a = ground (arith, same_bytes_self a)

-- The marks after `name` is added to them.
abbrev pub Adds : List ℕ → List ℕ → ScopeCtx → ScopeCtx → Type 0
Adds name other ctx ctx' =
    is_marked_global ctx' other
    ≡ (if is_marked_global ctx other then true else string_equals name other)

Adds-old :
    (name other : List ℕ) (ctx : ScopeCtx)
    → is_marked_global ctx name ≡ true
    → Adds name other ctx ctx
Adds-old name other ctx old = elim (Bool-cases (string_equals name other)) [
  | inl same ↦
      let e : name ≡ other = string_equals-eq name other same in
      rw (← e) (ground (arith, old, string_equals_self name))
  | inr apart ↦ rw apart (ground arith)
]

-- What the three results of `global name` leave behind.
abbrev pub Marks : List ℕ → List ℕ → ScopeCtx → MarkResult → ScopeCtx → Type 0
Marks name other ctx marked ctx' =
    (resolve_local ctx name ≡ none) × Adds name other ctx ctx' × (ctx'.locals ≡ ctx.locals)
Marks name other ctx local_exists ctx' = (resolve_local ctx name ≢ none) × (ctx' ≡ ctx)
Marks name other ctx out_of_memory ctx' = (resolve_local ctx name ≡ none) × (ctx' ≡ ctx)

-- `global name` succeeds only where no local has the name: afterwards a name is marked exactly if
-- it was before or is that name, and the locals are unchanged. It is refused where a local has the
-- name, and then, as when memory runs out, changes nothing.
pub mark_global-Marks :
    (name other : List ℕ) (ctx : ScopeCtx) (m : Mem)
    → Marks name other ctx (mark_global name ctx m).0 (mark_global name ctx m).1
unfolding mark_global is_marked_global
mark_global-Marks name other ctx m =
    let adds = is_marked-append ctx.global_names name other in
    elim (Option-cases (resolve_local ctx name)) [
      | inr (slot, e) ↦ rw (e, mark_global) (λ n. none≢some (sym n ∙ e), refl)
      | inl e ↦ elim (Bool-cases (is_marked_global ctx name)) [
        | inl old ↦ rw (e, old, mark_global) (e, Adds-old name other ctx old, refl)
        | inr new ↦ elim (Bool-cases (length ctx.global_names == ctx.global_cap)) [
          | inr room ↦ rw (e, new, room, mark_global) (e, adds, refl)
          | inl full ↦ elim (Option-cases (grow_globals ctx m).0) [
            | inl stop ↦ rw (e, new, full, stop, mark_global) (e, refl)
            | inr (cap, grown) ↦ rw (e, new, full, grown, mark_global) (e, adds, refl)
          ]
        ]
      ]
    ]

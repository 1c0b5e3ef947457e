-- ===== src/Scope.antt =====
-- src/compiler/ms_scope.c and ms_scope.h: the local variables and the blocks of one function. The
-- arrays `locals` and `blocks` are the lists of their entries in use; a name is its bytes.
pub mod Blocks
pub mod Lookup
use mslang_cc.Base.{
  ◌||◌, ℕ, suc, ◌+◌, ◌-◌, ◌*◌, ◌/◌, ◌^◌, Bool, true, false, ◌&&◌, Option, none, some, List, [], ◌∷◌,
  ◌++◌, length, take, ltb, leb, ◌==◌, if◌then◌else◌,
}
use mslang_cc.Memory.{Mem, realloc, free, size_max}
use mslang_cc.Object.Equals.{string_equals}

abbrev pub max_locals : ℕ
max_locals = 256

abbrev pub max_depth : ℕ
max_depth = 128

-- `struct MsLocal`; a hidden local has no name.
pub record Local : Type 0 where
  pub name : Option (List ℕ)
  pub depth : ℕ
  pub is_captured : Bool

-- `struct MsScopeBlock`; `none` is the slot -1.
pub record Block : Type 0 where
  pub local_base : ℕ
  pub discard_slot : Option ℕ

-- `struct MsScopeCtx`: `locals` holds the first `localCount` entries, the last declared at the end;
-- `blocks` holds those of the depths below the current one, innermost first.
pub record ScopeCtx : Type 0 where
  pub locals : List Local
  pub local_max : ℕ
  pub block : Block
  pub blocks : List Block
  pub global_names : List (List ℕ)
  pub global_cap : ℕ
  pub is_module : Bool

-- `scopeDepth`
abbrev pub scope_depth : ScopeCtx → ℕ
scope_depth ctx = length ctx.blocks

-- `msScopeCtxInit`
unfoldable pub init : Bool → ScopeCtx
init is_module = record {
  locals = [];
  local_max = 0;
  block = record { local_base = 0; discard_slot = none };
  blocks = [];
  global_names = [];
  global_cap = 0;
  is_module = is_module;
}

-- what `msScopeBeginBlock` and `msScopeEndBlock` write
unfoldable pub open_block : ScopeCtx → ScopeCtx
open_block ctx = record ctx {
  block = record { local_base = length ctx.locals; discard_slot = none };
  blocks = ctx.block ∷ ctx.blocks;
}

unfoldable pub close_block : Block → List Block → ScopeCtx → ScopeCtx
close_block outer rest ctx = record ctx {
  locals = take ctx.block.local_base ctx.locals;
  block = outer;
  blocks = rest;
}

-- `msScopeBeginBlock`; `none` is the failed assertion, which the compiler tests for beforehand
unfoldable pub begin_block : ScopeCtx → Option ScopeCtx
unfolding open_block
begin_block ctx = if ltb (scope_depth ctx + 1) max_depth then some (open_block ctx) else none

-- `msScopeEndBlock`; `none` is the failed assertion
unfoldable pub end_block : ScopeCtx → Option ScopeCtx
unfolding close_block
end_block ctx = elim ctx.blocks [ [] ↦ none | outer ∷ rest ↦ some (close_block outer rest ctx) ]

-- `msScopeAllocLocal`: the slot, or `none` for -1
unfoldable pub alloc_local : Option (List ℕ) → ScopeCtx → Option ℕ × ScopeCtx
alloc_local name ctx =
    if leb max_locals (length ctx.locals)
    then (none, ctx)
    else (let local : Local = record {
      name = name;
      depth = scope_depth ctx;
      is_captured = false;
    } in
        let count = length ctx.locals + 1 in
        (
          some (length ctx.locals),
          record ctx {
            locals = ctx.locals ++ local ∷ [];
            local_max = if ltb ctx.local_max count then count else ctx.local_max;
          },
        ))

-- `msScopeDeclareLocal` and `msScopeAllocHiddenLocal`
unfoldable pub declare_local : List ℕ → ScopeCtx → Option ℕ × ScopeCtx
unfolding alloc_local
declare_local name = alloc_local (some name)

unfoldable pub alloc_hidden_local : ScopeCtx → Option ℕ × ScopeCtx
unfolding alloc_local
alloc_hidden_local = alloc_local none

-- whether a local has this name
unfoldable pub is_named : List ℕ → Local → Bool
is_named name local = elim local.name [ none ↦ false | some n ↦ string_equals n name ]

-- the last index at which a test holds, counted from `i`: the loop from the last entry down
unfoldable pub find_last : (Local → Bool) → ℕ → List Local → Option ℕ
find_last test i [] = none
find_last test i (l ∷ ls) =
    let later = find_last test (suc i) ls in
    elim later [ some slot ↦ some slot | none ↦ if test l then some i else none ]

-- `msScopeResolveLocal`
unfoldable pub resolve_local : ScopeCtx → List ℕ → Option ℕ
unfolding find_last
resolve_local ctx name = find_last (is_named name) 0 ctx.locals

-- `msScopeHasLocalAtDepth`
unfoldable pub has_local_at_depth : ScopeCtx → List ℕ → Bool
unfolding find_last
has_local_at_depth ctx name =
    elim (find_last (λ l. l.depth == scope_depth ctx && is_named name l) 0 ctx.locals) [
      | some slot ↦ true
      | none ↦ false
    ]

-- `msScopeIsMarkedGlobal`
unfoldable pub is_marked : List (List ℕ) → List ℕ → Bool
is_marked [] name = false
is_marked (n ∷ ns) name =
    let rest = is_marked ns name in if string_equals n name then true else rest

unfoldable pub is_marked_global : ScopeCtx → List ℕ → Bool
unfolding is_marked
is_marked_global ctx name = is_marked ctx.global_names name

-- `MS_OK`, `MS_ERROR_SYNTAX` and `MS_ERROR_OOM`
pub data MarkResult : Type 0 where
  marked local_exists out_of_memory : MarkResult

abbrev pub int_max : ℕ
int_max = 2 ^ 31 - 1

-- the growth of `globalNames`: the new capacity, if there is room
unfoldable pub grow_globals : ScopeCtx → Mem → Option ℕ × Mem
grow_globals ctx m =
    let cap = if ctx.global_cap == 0 then 4 else ctx.global_cap * 2 in
    if ltb (int_max / 2) ctx.global_cap || ltb (size_max / 8) cap
    then (none, m)
    else (let (granted, m') =
          realloc (if ctx.global_cap == 0 then none else some (ctx.global_cap * 8)) (cap * 8) m in
        (if granted then some cap else none, m'))

-- `msScopeMarkGlobal`
unfoldable pub mark_global : List ℕ → ScopeCtx → Mem → MarkResult × ScopeCtx × Mem
unfolding grow_globals
mark_global name ctx m = elim (resolve_local ctx name) [
  | some slot ↦ (local_exists, ctx, m)
  | none ↦
      if is_marked_global ctx name
      then (marked, ctx, m)
      else if length ctx.global_names == ctx.global_cap
      then (let (grown, m') = grow_globals ctx m in
          elim grown [
            | none ↦ (out_of_memory, ctx, m')
            | some cap ↦ (
              marked,
              record ctx { global_names = ctx.global_names ++ name ∷ []; global_cap = cap },
              m',
            )
          ])
      else (marked, record ctx { global_names = ctx.global_names ++ name ∷ [] }, m)
]

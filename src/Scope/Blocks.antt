-- ===== src/Scope/Blocks.antt =====
-- src/compiler/ms_scope.c: the layout of the locals in blocks, and that a block ends where it began.
use mslang_cc.Base.{
  ◌∙◌, sym, none≢some, List-cases, false, leb, Option, ℕ, zero, suc, ◌+◌, ◌≤◌, ◌<◌, Bool, some,
  List, [], ◌∷◌, ◌++◌, length, take, drop, ◌≡◌, refl, arith, ltb, ap, Bool-cases, inl, inr,
}
use mathlib.Core.Option.{some_inj}
use mathlib.Core.List.{append_assoc, append-nil}
use mslang_cc.Scope.{
  find_last, is_named, resolve_local, close_block, open_block, end_block, end_block, alloc_local,
  ScopeCtx, Local, Block, scope_depth, init, begin_block, max_locals, max_depth,
}

-- All locals have one depth.
abbrev pub AllAt : ℕ → List Local → Type 0
AllAt d [] = Unit
AllAt d (l ∷ ls) = (l.depth ≡ d) × AllAt d ls

-- From the innermost block out: the locals from the block's base on have the block's depth, and the
-- locals before it are laid out in the outer blocks.
abbrev pub Layered : Block → List Block → List Local → Type 0
Layered b [] locals = (b.local_base ≡ 0) × AllAt 0 locals
Layered b (outer ∷ rest) locals =
    (b.local_base ≤ length locals)
    × AllAt (suc (length rest)) (drop b.local_base locals)
    × Layered outer rest (take b.local_base locals)

pub record IsValid (ctx : ScopeCtx) : Type 0 where
  pub layered : Layered ctx.block ctx.blocks ctx.locals
  pub depth : scope_depth ctx < max_depth
  pub used : length ctx.locals ≤ ctx.local_max
  pub room : ctx.local_max ≤ max_locals

take_all : (ls : List Local) → take (length ls) ls ≡ ls
take_all [] = refl
take_all (l ∷ ls) = ap (λ r. l ∷ r) (take_all ls)

take-append : (n : ℕ) (ls ms : List Local) → n ≤ length ls → take n (ls ++ ms) ≡ take n ls
take-append zero ls ms h = refl
take-append (suc n) [] ms h = absurd (omega arith)
take-append (suc n) (l ∷ ls) ms h = ap (λ r. l ∷ r) (take-append n ls ms (omega arith))

begin_block-eq :
    (ctx : ScopeCtx) {c : ScopeCtx}
    → begin_block ctx ≡ some c
    → (scope_depth ctx + 1 < max_depth) × (open_block ctx ≡ c)
unfolding begin_block
begin_block-eq ctx {c} h = elim (Bool-cases (ltb (scope_depth ctx + 1) max_depth)) [
  | inl room ↦ (ground arith, some_inj.0 (rw (room, begin_block) at h))
  | inr full ↦ absurd (none≢some (rw (full, begin_block) at h))
]

end_block-eq :
    (ctx : ScopeCtx) {c : ScopeCtx}
    → end_block ctx ≡ some c
    → (outer : Block) × (rest : List Block) × (ctx.blocks ≡ outer ∷ rest)
      × (close_block outer rest ctx ≡ c)
unfolding end_block
end_block-eq ctx {c} h = elim (List-cases ctx.blocks) [
  | inl e ↦ absurd (none≢some (rw (e, end_block) at h))
  | inr (outer, rest, e) ↦ (outer, rest, e, some_inj.0 (rw (e, end_block) at h))
]

-- What the compiler does between the two ends of a block: declarations, and whole inner blocks.
pub data Body : ScopeCtx → ScopeCtx → Type 0 where
  stop : {c : ScopeCtx} → Body c c
  declares : {c d : ScopeCtx} (name : Option (List ℕ)) → Body c d → Body c (alloc_local name d).1
  nests :
      {c d d₁ d₂ d₃ : ScopeCtx}
      → Body c d
      → begin_block d ≡ some d₁
      → Body d₁ d₂
      → end_block d₂ ≡ some d₃
      → Body c d₃

-- The block stays the same, and its locals are only added to.
pub record Extends (c d : ScopeCtx) : Type 0 where
  pub same_block : d.block ≡ c.block
  pub same_blocks : d.blocks ≡ c.blocks
  pub added : (more : List Local) × (d.locals ≡ c.locals ++ more)

alloc_local-Extends :
    (name : Option (List ℕ)) (c d : ScopeCtx) → Extends c d → Extends c (alloc_local name d).1
unfolding alloc_local
alloc_local-Extends name c d x = elim (Bool-cases (leb max_locals (length d.locals))) [
  | inl full ↦ rw (full, alloc_local) x
  | inr room ↦
      let l : Local = record { name = name; depth = scope_depth d; is_captured = false } in
      let (more, e) = x.added in
      rw (room, alloc_local)
        (record {
          same_block = x.same_block;
          same_blocks = x.same_blocks;
          added = (more ++ l ∷ [], rw e (append_assoc c.locals more (l ∷ [])));
        })
]

-- One block, entered at `d` and left at `d₃`.
block_restores :
    (d d₁ d₂ d₃ : ScopeCtx)
    → begin_block d ≡ some d₁
    → Extends d₁ d₂
    → end_block d₂ ≡ some d₃
    → (d₃.locals ≡ d.locals) × (d₃.block ≡ d.block) × (d₃.blocks ≡ d.blocks)
unfolding open_block close_block
block_restores d d₁ d₂ d₃ b y e =
    let (deep, o) = begin_block-eq d b in
    let (outer, rest, bs, k) = end_block-eq d₂ e in
    let y' : Extends (open_block d) d₂ = rw (sym o) at y in
    let (more, ls) = y'.added in
    let blocks : d.block ∷ d.blocks ≡ outer ∷ rest = sym y'.same_blocks ∙ bs in
    let base : d₂.block.local_base ≡ length d.locals =
      ap (λ (t : Block). t.local_base) y'.same_block in
    let back : take d₂.block.local_base d₂.locals ≡ d.locals =
      rw (base, ls)
        (take-append (length d.locals) d.locals more (omega arith) ∙ take_all d.locals) in
    rw (← k) (back, cc, cc)

nest-Extends :
    (c d d₁ d₂ d₃ : ScopeCtx)
    → Extends c d
    → begin_block d ≡ some d₁
    → Extends d₁ d₂
    → end_block d₂ ≡ some d₃
    → Extends c d₃
nest-Extends c d d₁ d₂ d₃ x b y e =
    let (ls, block, blocks) = block_restores d d₁ d₂ d₃ b y e in
    record {
      same_block = block ∙ x.same_block;
      same_blocks = blocks ∙ x.same_blocks;
      added = (x.added.0, ls ∙ x.added.1);
    }

Body-Extends : {c d : ScopeCtx} → Body c d → Extends c d
Body-Extends {c} stop = record {
  same_block = refl;
  same_blocks = refl;
  added = ([], sym (append-nil c.locals));
}
Body-Extends {c} (declares {d = d} name b) = alloc_local-Extends name c d (Body-Extends b)
Body-Extends {c} (nests {d = d} {d₁ = d₁} {d₂ = d₂} {d₃ = d₃} b p inner q) =
    nest-Extends c d d₁ d₂ d₃ (Body-Extends b) p (Body-Extends inner) q

-- Leaving a block restores the locals and the blocks of the time it was entered, whatever it
-- declared and however blocks were nested in it; so a name then resolves as it did before.
pub end_block-begin_block :
    (c c₁ c₂ c₃ : ScopeCtx)
    → begin_block c ≡ some c₁
    → Body c₁ c₂
    → end_block c₂ ≡ some c₃
    → (c₃.locals ≡ c.locals)
      × (c₃.block ≡ c.block)
      × (c₃.blocks ≡ c.blocks)
      × ((name : List ℕ) → resolve_local c₃ name ≡ resolve_local c name)
unfolding resolve_local
end_block-begin_block c c₁ c₂ c₃ b body e =
    let (ls, block, blocks) = block_restores c c₁ c₂ c₃ b (Body-Extends body) e in
    (ls, block, blocks, λ name. ap (find_last (is_named name) 0) ls)

-- The states that the compiler can bring about: a function starts, and blocks and locals follow.
pub data Reach : ScopeCtx → Type 0 where
  starts : (is_module : Bool) → Reach (init is_module)
  begins : {c d : ScopeCtx} → Reach c → begin_block c ≡ some d → Reach d
  ends : {c d : ScopeCtx} → Reach c → end_block c ≡ some d → Reach d
  allocates : {c : ScopeCtx} (name : Option (List ℕ)) → Reach c → Reach (alloc_local name c).1

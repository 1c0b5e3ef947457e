-- ===== src/Examples/Protos.antt =====
-- Runs of the builder of protos.
use mslang_cc.Base.{some, List, [], ◌∷◌, ℕ, zero, suc, ◌≡◌, refl, arith}
use mslang_cc.Base.Int.{pos, negsuc}
use mslang_cc.Memory.{Mem, zero_stats}
use mslang_cc.Object.{
  nil_ref, bool_ref, cached_ref, type_ref, proto_ref, cell_ref, string, Store, deref,
}
use mslang_cc.Object.EqualsLaws.{IsLive, AllBelow, IsRanked}
use mslang_cc.Opcode.{op_jump, encode_sax}
use mslang_cc.Proto.{
  error_oom, LineEntry, Builder, empty_proto, builder_init, fail, emit, patch_sax, build, line_at,
}
use mslang_cc.Proto.Consts.{add_const}
use mslang_cc.Proto.Emit.{IsTable, Emits, emit-Emits}
use mslang_cc.Proto.Lines.{IsSorted, line_at-line_of}
use mslang_cc.Proto.Patch.{Patches, patch_sax-Patches}
use mslang_cc.Proto.Pool.{Adds, add_const-Adds}
use mslang_cc.Proto.Build.{Builds, build-Builds}
use mslang_cc.Examples.Doubles.{Toy, toy}

abbrev memory : Mem
memory = record { stats = zero_stats; fail_after = negsuc 0; host = [] }

abbrev entry : ℕ → ℕ → LineEntry
entry pc line = record { first_pc = pc; line = line }

abbrev table : List LineEntry
table = entry 0 1 ∷ entry 3 2 ∷ entry 8 5 ∷ []

table-IsSorted : IsSorted table
table-IsSorted = (omega arith, (omega arith, tt))

line_at-line_of_example : line_at table 7 ≡ some 2
line_at-line_of_example = line_at-line_of table 7 table-IsSorted

-- A builder with three instructions, the second a jump, and a new line pending.
abbrev builder : Builder
builder = record builder_init {
  proto = record empty_proto {
    code = 82 ∷ encode_sax op_jump (pos 0) ∷ 1 ∷ [];
    consts = cell_ref 0 ∷ [];
    lines = entry 0 1 ∷ [];
  };
  code_cap = 8;
  consts_cap = 8;
  lines_cap = 8;
  pending_line = some 2;
}

builder-IsTable : IsTable builder.proto
unfolding builder_init empty_proto
builder-IsTable = (tt, (omega arith, tt))

emit-Emits_example : Emits 1 builder (emit 1 builder memory)
emit-Emits_example = emit-Emits 1 builder memory builder-IsTable

patch_sax-Patches_example :
    Patches (pos 1) (negsuc 1) builder (patch_sax (pos 1) (negsuc 1) builder)
patch_sax-Patches_example = patch_sax-Patches (pos 1) (negsuc 1) builder

-- Two strings with the same bytes, at two addresses.
abbrev strings : Store Toy
strings = some (string 7 (97 ∷ [])) ∷ some (string 7 (97 ∷ [])) ∷ []

flat : IsRanked strings (λ n. 0)
unfolding deref
flat nil_ref xs c e = absurd cc
flat (bool_ref b) xs c e = absurd cc
flat (cached_ref i) xs c e = absurd cc
flat (type_ref t) xs c e = absurd cc
flat (proto_ref p) xs c e = absurd cc
flat (cell_ref zero) xs c e = absurd cc
flat (cell_ref (suc zero)) xs c e = absurd cc
flat (cell_ref (suc (suc a))) xs c e = absurd cc

live : IsLive strings (cell_ref 1)
unfolding deref
live = (string 7 (97 ∷ []), refl)

pool_below : AllBelow strings (λ n. 0) 2 builder.proto.consts
unfolding deref builder_init empty_proto
pool_below = ((string 7 (97 ∷ []), refl), omega arith, tt)

add_const-Adds_example :
    Adds toy 2 strings (cell_ref 1) builder (add_const toy 2 strings (cell_ref 1) builder memory)
add_const-Adds_example =
    add_const-Adds toy strings (λ n. 0) flat 2 (cell_ref 1) builder memory live pool_below

build-Builds_example : Builds builder (build builder memory)
build-Builds_example = build-Builds builder memory

abbrev broken : Builder
broken = fail error_oom builder

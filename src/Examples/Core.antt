-- ===== src/Examples/Core.antt =====
-- Runs of the arithmetic, the instruction words, the allocator and the scopes.
use mslang_cc.Base.{
  true, false, none, some, List, [], ◌∷◌, ℕ, ◌^◌, ◌≤◌, ◌<◌, ◌≡◌, refl, ◌⊎◌, arith, if◌then◌else◌,
  length,
}
use mslang_cc.Base.Int.{pos, negsuc, ◌+ℤ◌, ◌*ℤ◌}
use mslang_cc.Arith.{checked_mul, floor_div, floor_mod, int_pow, shift_right}
use mslang_cc.Arith.Product.{exact, checked_mul-exact}
use mslang_cc.Arith.Division.{IsRemainder, floor_div-mod}
use mslang_cc.Arith.Shift.{shift_right-floor_div}
use mslang_cc.Arith.Exponent.{power}
use mslang_cc.Arith.Power.{Computes, int_pow-Computes}
use mslang_cc.Memory.{
  reset_stats, Mem, zero_stats, consume_fail_after, ask_host, bad_size, obtain, alloc, realloc,
}
use mslang_cc.Memory.Accounting.{Run, start, allocs, resets, Tells, Run-Tells}
use mslang_cc.Opcode.{
  op_load_const, op_jump, encode_abc, encode_sax, decode_op, decode_a, decode_bx, decode_sax,
}
use mslang_cc.Opcode.Codec.{decode-encode_abc, decode-encode_sax}
use mslang_cc.Scope.{
  max_locals, ScopeCtx, init, open_block, close_block, begin_block, end_block, alloc_local,
  declare_local, resolve_local, mark_global,
}
use mslang_cc.Scope.Blocks.{Body, stop, declares, end_block-begin_block}
use mslang_cc.Object.Equals.{string_equals}
use mslang_cc.Scope.Lookup.{resolve_local-declare_local, Marks, mark_global-Marks}

decode-encode_abc_example :
    (decode_op (encode_abc op_load_const 3 4660) ≡ some op_load_const)
    × (decode_a (encode_abc op_load_const 3 4660) ≡ 3)
    × (decode_bx (encode_abc op_load_const 3 4660) ≡ 4660)
    × (encode_abc op_load_const 3 4660 < 2 ^ 32)
decode-encode_abc_example = decode-encode_abc op_load_const 3 4660 (omega arith) (omega arith)

decode-encode_sax_example :
    (decode_op (encode_sax op_jump (negsuc 41)) ≡ some op_jump)
    × (decode_sax (encode_sax op_jump (negsuc 41)) ≡ negsuc 41)
    × (encode_sax op_jump (negsuc 41) < 2 ^ 32)
decode-encode_sax_example = decode-encode_sax op_jump (negsuc 41) (omega arith) (omega arith)

checked_mul-exact_example : checked_mul (negsuc 6) (pos 9) ≡ exact (negsuc 6 *ℤ pos 9)
checked_mul-exact_example = checked_mul-exact (negsuc 6) (pos 9) (omega arith) (omega arith)

floor_div-mod_example :
    (pos 2 *ℤ floor_div (negsuc 6) (pos 2) +ℤ floor_mod (negsuc 6) (pos 2) ≡ negsuc 6)
    × IsRemainder (floor_mod (negsuc 6) (pos 2)) (pos 2)
floor_div-mod_example = floor_div-mod (negsuc 6) (pos 2) (λ e. cc)

shift_right-floor_div_example : shift_right (negsuc 8) 2 ≡ floor_div (negsuc 8) (pos 4)
shift_right-floor_div_example = shift_right-floor_div (negsuc 8) 2 (omega arith)

int_pow-Computes_example : Computes (power (negsuc 2) 5) (int_pow (negsuc 2) 5)
int_pow-Computes_example = int_pow-Computes (negsuc 2) 5 (omega arith) (omega arith)

-- A fresh allocator, whose host refuses the second call.
abbrev fresh : Mem
fresh = record { stats = zero_stats; fail_after = negsuc 0; host = true ∷ false ∷ [] }

abbrev one_block : Mem
one_block = (alloc 64 fresh).1

abbrev resized : Mem
resized = (realloc (some 64) 128 one_block).1

granted : Run (reset_stats one_block) (64 ∷ []) (64 ∷ [])
unfolding alloc obtain consume_fail_after ask_host bad_size
granted = resets (allocs 64 (start fresh refl))

Run-Tells_example : Tells (64 ∷ []) (64 ∷ []) (reset_stats one_block).stats
Run-Tells_example = Run-Tells granted

-- A block that declares `x` in a function that has `x` already.
abbrev x_bytes : List ℕ
x_bytes = 120 ∷ []

abbrev outer : ScopeCtx
outer = (declare_local x_bytes (init false)).1

abbrev entered : ScopeCtx
entered = open_block outer

abbrev shadowed : ScopeCtx
shadowed = (alloc_local (some x_bytes) entered).1

abbrev left : ScopeCtx
left = close_block outer.block outer.blocks shadowed

opens : begin_block outer ≡ some entered
unfolding begin_block declare_local alloc_local init open_block
opens = refl

closes : end_block shadowed ≡ some left
unfolding end_block declare_local alloc_local init open_block
closes = refl

body : Body entered shadowed
body = declares (some x_bytes) stop

end_block-begin_block_example :
    (left.locals ≡ outer.locals)
    × (left.block ≡ outer.block)
    × (left.blocks ≡ outer.blocks)
    × ((name : List ℕ) → resolve_local left name ≡ resolve_local outer name)
end_block-begin_block_example = end_block-begin_block outer entered shadowed left opens body closes

resolve_local-declare_local_example :
    ((declare_local x_bytes outer).0 ≡ none)
      × ((declare_local x_bytes outer).1 ≡ outer)
      × (max_locals ≤ length outer.locals)
    ⊎ ((declare_local x_bytes outer).0 ≡ some (length outer.locals))
      × (length outer.locals < max_locals)
      × (resolve_local (declare_local x_bytes outer).1 x_bytes ≡ (
          if string_equals x_bytes x_bytes
          then some (length outer.locals)
          else resolve_local outer x_bytes))
resolve_local-declare_local_example = resolve_local-declare_local x_bytes x_bytes outer

mark_global-Marks_example :
    Marks
      (121 ∷ [])
      x_bytes
      outer
      (mark_global (121 ∷ []) outer fresh).0
      (mark_global (121 ∷ []) outer fresh).1
mark_global-Marks_example = mark_global-Marks (121 ∷ []) x_bytes outer fresh

-- ===== src/Proto/Patch.antt =====
-- `msProtoPatchSAx` against the code it changes.
use mslang_cc.Base.{
  false, none, some, List, ℕ, ◌≡◌, refl, sym, ◌∙◌, ◌⊎◌, inl, inr, arith, Bool-cases, Option-cases,
  none≢some, get_elem?, set, get_elem?-set_self, get_elem?-some,
}
use mslang_cc.Base.Int.{ℤ, pos, negsuc, pos_part, ◌≤ℤ◌}
use mslang_cc.Opcode.{OpFormat, abc, sax, OpCode, op_format, encode_sax, decode_op, decode_sax}
use mslang_cc.Opcode.Codec.{decode-encode_sax}
use mathlib.Core.Option.{some_inj}
use mslang_cc.Proto.{
  MsResult, ok, error_runtime, error_syntax, error_oom, is_ok, Builder, is_wide, jump_op,
  patched_op, patch_sax,
}

-- One instruction is a jump with the new offset, and the same jump before; the others are the same.
abbrev pub IsRetargeted : ℕ → ℤ → List ℕ → List ℕ → Type 0
IsRetargeted n offset code code' =
    (old : ℕ) × (new : ℕ) × (op : OpCode) × (get_elem? code n ≡ some old)
    × (get_elem? code' n ≡ some new)
    × (decode_op old ≡ some op)
    × (op_format op ≡ sax)
    × (decode_op new ≡ some op)
    × (decode_sax new ≡ offset)
    × (code' ≡ set code n new)

abbrev pub Patches : ℤ → ℤ → Builder → MsResult × Builder → Type 0
Patches pc offset b (ok, b') =
    (n : ℕ) × (pc ≡ pos n) × IsRetargeted n offset b.proto.code b'.proto.code
Patches pc offset b (r, b') = (b'.proto ≡ b.proto) × (b'.error ≡ r)

format-cases : (f : OpFormat) → (f ≡ abc) ⊎ (f ≡ sax)
format-cases abc = inl refl
format-cases sax = inr refl

jump_op-format :
    (instr : ℕ) (op : OpCode)
    → jump_op instr ≡ some op
    → (decode_op instr ≡ some op) × (op_format op ≡ sax)
unfolding jump_op
jump_op-format instr op h = elim (Option-cases (decode_op instr)) [
  | inl bad ↦
      let e : jump_op instr ≡ none = rw (bad, jump_op) refl in absurd (none≢some (sym e ∙ h))
  | inr (found, decoded) ↦ elim (format-cases (op_format found)) [
    | inl plain ↦
        let e : jump_op instr ≡ none = rw (decoded, plain, jump_op) refl in
        absurd (none≢some (sym e ∙ h))
    | inr jumps ↦
        let e : jump_op instr ≡ some found = rw (decoded, jumps, jump_op) refl in
        let same : found ≡ op = some_inj.0 (sym e ∙ h) in rw (← same) (decoded, jumps)
  ]
]

narrow-range :
    (offset : ℤ) → is_wide offset ≡ false → (negsuc 8388607 ≤ℤ offset) × (offset ≤ℤ pos 8388607)
unfolding is_wide
narrow-range (pos n) h = ground arith
narrow-range (negsuc n) h = ground arith

retarget :
    (code : List ℕ) (n : ℕ) (offset : ℤ) (op : OpCode)
    → patched_op code (pos n) ≡ some op
    → is_wide offset ≡ false
    → IsRetargeted n offset code (set code n (encode_sax op offset))
unfolding patched_op
retarget code n offset op h narrow = elim (Option-cases (get_elem? code n)) [
  | inl out ↦
      let e : patched_op code (pos n) ≡ none = rw (out, patched_op) refl in
      absurd (none≢some (sym e ∙ h))
  | inr (old, at_n) ↦
      let e : patched_op code (pos n) ≡ jump_op old = rw (at_n, patched_op) refl in
      let (decoded, format) = jump_op-format old op (sym e ∙ h) in
      let (lo, hi) = narrow-range offset narrow in
      let (op', offset', word) = decode-encode_sax op offset lo hi in
      (
        old,
        encode_sax op offset,
        op,
        at_n,
        get_elem?-set_self code n (encode_sax op offset) (get_elem?-some code n at_n),
        decoded,
        format,
        op',
        offset',
        refl,
      )
]

retarget_at :
    (code : List ℕ) (pc offset : ℤ) (op : OpCode)
    → patched_op code pc ≡ some op
    → is_wide offset ≡ false
    → (n : ℕ) × (pc ≡ pos n)
      × IsRetargeted n offset code (set code (pos_part pc) (encode_sax op offset))
unfolding patched_op
retarget_at code (pos n) offset op h narrow = (n, refl, retarget code n offset op h narrow)
retarget_at code (negsuc n) offset op h narrow = absurd (none≢some h)

Patches-failed :
    (pc offset : ℤ) (b b' : Builder) (r : MsResult)
    → is_ok r ≡ false
    → b'.proto ≡ b.proto
    → b'.error ≡ r
    → Patches pc offset b (r, b')
Patches-failed pc offset b b' ok h e f = absurd cc
Patches-failed pc offset b b' error_runtime h e f = (e, f)
Patches-failed pc offset b b' error_syntax h e f = (e, f)
Patches-failed pc offset b b' error_oom h e f = (e, f)

-- Patching succeeds only on a pc that holds a jump: it then holds the same jump with the new offset,
-- and every other instruction is unchanged. Else it returns the error that the builder then holds,
-- and the proto is unchanged.
pub patch_sax-Patches : (pc offset : ℤ) (b : Builder) → Patches pc offset b (patch_sax pc offset b)
unfolding patch_sax
patch_sax-Patches pc offset b = elim (Bool-cases (is_ok b.error)) [
  | inr failed ↦ rw (failed, patch_sax) (Patches-failed pc offset b b b.error failed refl refl)
  | inl fine ↦ elim (Option-cases (patched_op b.proto.code pc)) [
    | inl bad ↦ rw (fine, bad, patch_sax) (refl, refl)
    | inr (op, found) ↦ elim (Bool-cases (is_wide offset)) [
      | inl wide ↦ rw (fine, found, wide, patch_sax) (refl, refl)
      | inr narrow ↦
          rw (fine, found, narrow, patch_sax) (retarget_at b.proto.code pc offset op found narrow)
    ]
  ]
]

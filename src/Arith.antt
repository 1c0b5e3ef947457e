-- ===== src/Arith.antt =====
-- The 64-bit integer arithmetic of src/vm/ms_vm.c: `msVmCheckedMul` and the arithmetic cases of
-- `msVmBinaryOp`. Where the C code computes on `int64_t`, the model computes on ℤ behind the same
-- guards; `none` is the `break` that leaves the case.
pub mod Product
pub mod Division
pub mod Shift
pub mod Exponent
pub mod Rounds
pub mod Range
pub mod Power
use mslang_cc.Base.{
  ℕ, zero, suc, ◌+◌, ◌-◌, ◌*◌, ◌/◌, ◌%◌, ◌^◌, Bool, true, false, not, ◌&&◌, ◌||◌, Option, none,
  some, ◌==◌, if◌then◌else◌, leb,
}
use mslang_cc.Base.Int.{ℤ, pos, negsuc, pos_part, neg_part, sub_ℕ, ◌+ℤ◌, ◌-ℤ◌, ◌*ℤ◌, ltb_ℤ}
use mslang_cc.Base.Words.{int64_max, int64_min, to_int64, to_uint64}
use mslang_cc.Object.{same_bool}
use mslang_cc.Object.Equals.{same_int}

-- -n
abbrev pub neg_ℕ : ℕ → ℤ
neg_ℕ zero = pos 0
neg_ℕ (suc n) = negsuc n

-- `l / r` and `l % r` of C, which round towards zero. Every use stands behind a test of `r`.
abbrev pub tdiv : ℤ → ℤ → ℤ
tdiv (pos a) (pos b) = pos (a / b)
tdiv (pos a) (negsuc b) = neg_ℕ (a / suc b)
tdiv (negsuc a) (pos b) = neg_ℕ (suc a / b)
tdiv (negsuc a) (negsuc b) = pos (suc a / suc b)

abbrev pub trem : ℤ → ℤ → ℤ
trem (pos a) (pos b) = pos (a % b)
trem (pos a) (negsuc b) = pos (a % suc b)
trem (negsuc a) (pos b) = neg_ℕ (suc a % b)
trem (negsuc a) (negsuc b) = neg_ℕ (suc a % suc b)

abbrev pub is_pos : ℤ → Bool
is_pos z = ltb_ℤ (pos 0) z

abbrev pub is_neg : ℤ → Bool
is_neg z = ltb_ℤ z (pos 0)

-- the four overflow tests of `msVmCheckedMul`
unfoldable pub mul_overflows : ℤ → ℤ → Bool
mul_overflows l r =
    (is_pos l && is_pos r && ltb_ℤ (tdiv int64_max r) l)
    || (is_pos l && is_neg r && ltb_ℤ r (tdiv int64_min l))
    || (is_neg l && is_pos r && ltb_ℤ l (tdiv int64_min r))
    || (is_neg l && is_neg r && ltb_ℤ l (tdiv int64_max r))

unfoldable pub checked_mul : ℤ → ℤ → Option ℤ
unfolding mul_overflows same_int ◌-ℤ◌ ◌*ℤ◌
checked_mul l r =
    if same_int l (pos 0) || same_int r (pos 0)
    then some (pos 0)
    else if same_int l (negsuc 0)
    then (if same_int r int64_min then none else some (pos 0 -ℤ r))
    else if same_int r (negsuc 0)
    then (if same_int l int64_min then none else some (pos 0 -ℤ l))
    else if mul_overflows l r
    then none
    else some (l *ℤ r)

-- `MS_OP_ADD` and `MS_OP_SUB`
unfoldable pub checked_add : ℤ → ℤ → Option ℤ
unfolding ◌+ℤ◌ ◌-ℤ◌
checked_add l r =
    if (is_pos r && ltb_ℤ (int64_max -ℤ r) l) || (is_neg r && ltb_ℤ l (int64_min -ℤ r))
    then none
    else some (l +ℤ r)

unfoldable pub checked_sub : ℤ → ℤ → Option ℤ
unfolding ◌+ℤ◌ ◌-ℤ◌
checked_sub l r =
    if (is_pos r && ltb_ℤ l (int64_min +ℤ r)) || (is_neg r && ltb_ℤ (int64_max +ℤ r) l)
    then none
    else some (l -ℤ r)

-- the guard of `MS_OP_FLOORDIV` and `MS_OP_MOD`
unfoldable pub divides_badly : ℤ → ℤ → Bool
unfolding same_int
divides_badly l r = same_int r (pos 0) || (same_int l int64_min && same_int r (negsuc 0))

-- the remainder is not zero, and the signs of the operands differ
unfoldable pub rounds_up : ℤ → ℤ → Bool
unfolding same_int
rounds_up l r = not (same_int (trem l r) (pos 0)) && not (same_bool (is_neg l) (is_neg r))

unfoldable pub floor_div : ℤ → ℤ → ℤ
unfolding rounds_up ◌+ℤ◌
floor_div l r = if rounds_up l r then tdiv l r +ℤ negsuc 0 else tdiv l r

unfoldable pub floor_mod : ℤ → ℤ → ℤ
unfolding rounds_up ◌+ℤ◌
floor_mod l r = if rounds_up l r then trem l r +ℤ r else trem l r

unfoldable pub checked_floor_div : ℤ → ℤ → Option ℤ
checked_floor_div l r = if divides_badly l r then none else some (floor_div l r)

unfoldable pub checked_floor_mod : ℤ → ℤ → Option ℤ
checked_floor_mod l r = if divides_badly l r then none else some (floor_mod l r)

-- The loop of `MS_OP_POW`, with fuel for its rounds.
pub data PowResult : Type 0 where
  done : ℤ → PowResult
  overflow out_of_fuel : PowResult

-- `result`, multiplied by the base if the exponent is odd
unfoldable pub pow_result : ℤ → ℤ → ℕ → Option ℤ
pow_result result base e = if e % 2 == 0 then some result else checked_mul result base

-- `base`, squared if digits of the exponent are left
unfoldable pub pow_base : ℤ → ℕ → Option ℤ
pow_base base e = if e / 2 == 0 then some base else checked_mul base base

-- one round, for an exponent that is not zero
unfoldable pub pow_round : ℤ → ℤ → ℕ → Option (ℤ × ℤ)
pow_round result base e = elim (pow_result result base e) [
  | none ↦ none
  | some result' ↦ elim (pow_base base e) [ none ↦ none | some base' ↦ some (result', base') ]
]

unfoldable pub pow_loop : ℕ → ℤ → ℤ → ℕ → PowResult
pow_loop zero result base e = out_of_fuel
pow_loop (suc fuel) result base e = elim (e == 0) [
  | true ↦ done result
  | false ↦ elim (pow_round result base e) [
    | none ↦ overflow
    | some (result', base') ↦ pow_loop fuel result' base' (e / 2)
  ]
]

-- an exponent that is not negative; 65 rounds cover every `uint64_t`
unfoldable pub int_pow : ℤ → ℕ → PowResult
int_pow base e = pow_loop 65 (pos 1) base e

-- `MS_OP_SHR` for a count below 64
unfoldable pub shift_right : ℤ → ℕ → ℤ
unfolding ◌-ℤ◌ to_int64 to_uint64
shift_right l k =
    if is_neg l
    then negsuc 0 -ℤ to_int64 ((2 ^ 64 - 1 - to_uint64 l) / 2 ^ k)
    else to_int64 (to_uint64 l / 2 ^ k)

-- `MS_OP_SHL` for a count below 64
unfoldable pub checked_shift_left : ℤ → ℕ → Option ℤ
unfolding checked_mul same_int
checked_shift_left l k =
    if k == 63
    then (if same_int l (pos 0)
        then some (pos 0)
        else if same_int l (negsuc 0)
        then some int64_min
        else none)
    else checked_mul l (to_int64 (2 ^ k))

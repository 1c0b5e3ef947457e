-- ===== src/Object/Hash.antt =====
-- `msObjectHash`, `msHashMix64`, `msStringFnv1a` and `msObjectIsTruthy`.
use Prim.Native.Nat.{bit_xor}
use mslang_cc.Base.{
  ℕ, ◌*◌, ◌/◌, ◌%◌, ◌^◌, Bool, true, false, not, List, [], ◌∷◌, length, ◌==◌, if◌then◌else◌,
}
use mslang_cc.Base.Int.{pos}
use mslang_cc.Base.Words.{to_uint64}
use mslang_cc.Floats.{Floats, in_int64, float_zero}
use mslang_cc.Object.{Object, nil, bool, int, float, string, list, dict}
use mslang_cc.Object.Equals.{same_int}

-- `x ^= x >> k` and `x *= c` on a `uint64_t`
abbrev xor_shift : ℕ → ℕ → ℕ
xor_shift x k = bit_xor x (x / 2 ^ k)

abbrev mul64 : ℕ → ℕ → ℕ
mul64 x c = x * c % 2 ^ 64

unfoldable pub hash_mix64 : ℕ → ℕ
hash_mix64 x =
    let a = mul64 (xor_shift x 30) 0xbf58476d1ce4e5b9 in
    let b = mul64 (xor_shift a 27) 0x94d049bb133111eb in xor_shift b 31 % 2 ^ 32

-- FNV-1a from the hash so far
unfoldable pub fnv1a_from : ℕ → List ℕ → ℕ
fnv1a_from hash [] = hash
fnv1a_from hash (b ∷ bs) = fnv1a_from (bit_xor hash b * 16777619 % 2 ^ 32) bs

unfoldable pub fnv1a : List ℕ → ℕ
unfolding fnv1a_from
fnv1a bs = fnv1a_from 2166136261 bs

module _ (F : Floats) where
  open F use {Double, of_int, trunc, bits, feq}

  unfoldable pub float_hash : Double → ℕ
  unfolding hash_mix64
  float_hash d =
      if in_int64 F d
      then (if feq (of_int (trunc d)) d
          then hash_mix64 (to_uint64 (trunc d))
          else hash_mix64 (bits d))
      else hash_mix64 (bits d)

  -- Other tags fail an assertion of the debug build; the release build returns 0.
  unfoldable pub object_hash : Object Double → ℕ
  unfolding float_hash
  object_hash nil = 0x27d4eb2f
  object_hash (bool true) = 0x9e3779b9
  object_hash (bool false) = 0x85ebca6b
  object_hash (int z) = hash_mix64 (to_uint64 z)
  object_hash (float d) = float_hash d
  object_hash (string h bs) = h
  object_hash _ = 0

  unfoldable pub is_truthy : Object Double → Bool
  unfolding same_int
  is_truthy nil = false
  is_truthy (bool b) = b
  is_truthy (int z) = not (same_int z (pos 0))
  is_truthy (float d) = not (feq d (float_zero F))
  is_truthy (string h bs) = not (length bs == 0)
  is_truthy (list xs c) = not (length xs == 0)
  is_truthy (dict es c) = not (length es == 0)
  is_truthy _ = true

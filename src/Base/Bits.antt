-- ===== src/Base/Bits.antt =====
-- Laws of `bit_or` and `bit_and` on a low field and a shifted one, at every width.
use Prim.Native.Nat.{
  ℕ, zero, suc, ◌+◌, ◌-◌, ◌*◌, ◌/◌, ◌%◌, ◌^◌, ◌≤◌, ◌<◌, min, max, bit_and, bit_or, digits,
  bit_and-bitwise, bit_or-bitwise,
}
use mathlib.Core.Path.{◌≡◌, refl, ap, ◌∙◌}
use mathlib.Core.Logic.{inl, inr}
use mslang_cc.Base.Tests.{Bool-cases, leb, leb→le}
use native.Mathlib.Omega.{arith}
use native.Mathlib.Nat.{
  two-pow-succ, mod-add-div', one-le-pow, mod-lt, div-div-eq-div-mul, pow-succ',
}

module _ (z : ℕ → ℕ) (f : ℕ → ℕ → ℕ) where
  -- The count of digits does not matter, once it covers the first number.
  digits_more : (n a b : ℕ) → a ≤ n → digits z f (suc n) a b ≡ digits z f n a b
  digits_more n zero b h = at_zero n b
    where
      at_zero : (k c : ℕ) → digits z f (suc k) zero c ≡ digits z f k zero c
      at_zero zero c = refl
      at_zero (suc k) c = refl
  digits_more zero (suc a) b h = absurd (omega arith)
  digits_more (suc n) (suc a) b h = rw (digits_more n (suc a / 2) (b / 2) (omega arith)) refl

  digits_settle : (n m a b : ℕ) → m ≤ n → a ≤ m → digits z f n a b ≡ digits z f m a b
  digits_settle zero m a b h k = let none_left : m ≡ 0 = omega arith in rw none_left refl
  digits_settle (suc n) m a b h k = elim (Bool-cases (leb m n)) [
    | inl below ↦
        let le : m ≤ n = leb→le m n below in
        digits_more n a b (omega arith) ∙ digits_settle n m a b le k
    | inr top ↦ let same : m ≡ suc n = ground arith in rw same refl
  ]

  digits_halve :
      (a b : ℕ)
      → digits z f (suc a) (suc a) b
        ≡ digits z f (suc a / 2) (suc a / 2) (b / 2) * 2 + f (suc a % 2) (b % 2)
  digits_halve a b =
      let half : suc a / 2 ≤ a = omega arith in
      rw (digits_settle a (suc a / 2) (suc a / 2) (b / 2) half (omega arith)) refl

pub zero-bit_or : (b : ℕ) → bit_or 0 b ≡ b
zero-bit_or b = bit_or-bitwise 0 b

pub zero-bit_and : (b : ℕ) → bit_and 0 b ≡ 0
zero-bit_and b = bit_and-bitwise 0 b

bit_or_step : (a b : ℕ) → bit_or a b ≡ bit_or (a / 2) (b / 2) * 2 + max (a % 2) (b % 2)
bit_or_step (suc a) b =
    rw (bit_or-bitwise (suc a) b, bit_or-bitwise (suc a / 2) (b / 2))
      (digits_halve (λ y. y) max a b)
bit_or_step zero b = omega (arith, zero-bit_or b, zero-bit_or (b / 2))

bit_and_step : (a b : ℕ) → bit_and a b ≡ bit_and (a / 2) (b / 2) * 2 + min (a % 2) (b % 2)
bit_and_step (suc a) b =
    rw (bit_and-bitwise (suc a) b, bit_and-bitwise (suc a / 2) (b / 2))
      (digits_halve (λ y. 0) min a b)
bit_and_step zero b = omega (arith, zero-bit_and b, zero-bit_and (b / 2))

bit_or_comm_upto : (n a b : ℕ) → a ≤ n → b ≤ n → bit_or a b ≡ bit_or b a
bit_or_comm_upto zero a b h k =
    let no_a : a ≡ 0 = omega arith in let no_b : b ≡ 0 = omega arith in rw (no_a, no_b) refl
bit_or_comm_upto (suc n) a b h k =
    let rest = bit_or_comm_upto n (a / 2) (b / 2) (omega arith) (omega arith) in
    omega (arith, bit_or_step a b, bit_or_step b a, rest)

pub bit_or_comm : (a b : ℕ) → bit_or a b ≡ bit_or b a
bit_or_comm a b = bit_or_comm_upto (a + b) a b (omega arith) (omega arith)

double_field : (h k : ℕ) → h * 2 ^ suc k ≡ 2 * (h * 2 ^ k)
double_field h k = omega (arith, ap (λ (t : ℕ). h * t) (two-pow-succ k))

-- `low | (high << k)` is a sum when `low` fits `k` bits.
pub bit_or_fields : (k low high : ℕ) → low < 2 ^ k → bit_or low (high * 2 ^ k) ≡ low + high * 2 ^ k
bit_or_fields zero zero high h = rw zero-bit_or (omega arith)
bit_or_fields zero (suc low) high h = absurd (omega arith)
bit_or_fields (suc k) low high h =
    let halves : high * 2 ^ suc k / 2 ≡ high * 2 ^ k = omega (arith, double_field high k) in
    let small : low / 2 < 2 ^ k = omega (arith, two-pow-succ k) in
    let rest : bit_or (low / 2) (high * 2 ^ suc k / 2) ≡ low / 2 + high * 2 ^ k =
      rw halves (bit_or_fields k (low / 2) high small) in
    omega (arith, bit_or_step low (high * 2 ^ suc k), double_field high k, rest)

bit_and-zero_upto : (n a : ℕ) → a ≤ n → bit_and a 0 ≡ 0
bit_and-zero_upto n zero h = refl
bit_and-zero_upto zero (suc a) h = absurd (omega arith)
bit_and-zero_upto (suc n) (suc a) h =
    omega (arith, bit_and_step (suc a) 0, bit_and-zero_upto n (suc a / 2) (omega arith))

pub bit_and-zero : (a : ℕ) → bit_and a 0 ≡ 0
bit_and-zero a = bit_and-zero_upto a a (omega arith)

bit_and_low : (k q r : ℕ) → r < 2 ^ k → bit_and (r + q * 2 ^ k) (2 ^ k - 1) ≡ r
bit_and_low zero q r h = rw bit_and-zero (omega arith)
bit_and_low (suc k) q r h =
    let half : (r + q * 2 ^ suc k) / 2 ≡ r / 2 + q * 2 ^ k = omega (arith, double_field q k) in
    let ones : (2 ^ suc k - 1) / 2 ≡ 2 ^ k - 1 = omega (arith, two-pow-succ k) in
    let rest : bit_and ((r + q * 2 ^ suc k) / 2) ((2 ^ suc k - 1) / 2) ≡ r / 2 =
      rw (half, ones) (bit_and_low k q (r / 2) (omega (arith, two-pow-succ k))) in
    omega (
      arith,
      bit_and_step (r + q * 2 ^ suc k) (2 ^ suc k - 1),
      double_field q k,
      two-pow-succ k,
      one-le-pow k 2,
      rest,
    )

-- A mask of `k` ones keeps the remainder by `2 ^ k`.
pub bit_and_mask : (k a : ℕ) → bit_and a (2 ^ k - 1) ≡ a % 2 ^ k
bit_and_mask k a =
    let split : a % 2 ^ k + a / 2 ^ k * 2 ^ k ≡ a = mod-add-div' a (2 ^ k) in
    rw split at (bit_and_low k (a / 2 ^ k) (a % 2 ^ k) (mod-lt a (one-le-pow k 2 (omega arith))))

-- A mask of the one bit `k` keeps that bit.
pub bit_and_bit : (k a : ℕ) → bit_and a (2 ^ k) ≡ a / 2 ^ k % 2 * 2 ^ k
bit_and_bit zero a = omega (arith, bit_and_step a 1, bit_and-zero (a / 2))
bit_and_bit (suc k) a =
    let half : 2 ^ suc k / 2 ≡ 2 ^ k = omega (arith, two-pow-succ k) in
    let down : a / 2 / 2 ^ k ≡ a / 2 ^ suc k = rw (div-div-eq-div-mul, ← pow-succ') refl in
    let rest : bit_and (a / 2) (2 ^ suc k / 2) ≡ a / 2 ^ suc k % 2 * 2 ^ k =
      rw (half, ← down) (bit_and_bit k (a / 2)) in
    omega
      (arith, bit_and_step a (2 ^ suc k), double_field (a / 2 ^ suc k % 2) k, two-pow-succ k, rest)

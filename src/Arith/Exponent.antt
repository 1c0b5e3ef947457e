-- ===== src/Arith/Exponent.antt =====
-- The power of an integer, and products that no `int64_t` can hold.
use native.Mathlib.Nat.{pow-zero, mul-le-mul_left, mul-le-mul, one-le-pow, pow-succ'}
use mslang_cc.Base.{
  false, ℕ, zero, suc, ◌+◌, ◌*◌, ◌^◌, ◌≤◌, ◌<◌, ◌≡◌, refl, sym, ap, ◌∙◌, ◌≢◌, inl, inr, arith, leb,
  leb→le, Bool-cases,
}
use mslang_cc.Base.Int.{ℤ, pos, negsuc, ◌*ℤ◌, *ℤ_assoc}
use mslang_cc.Arith.Product.{fits}

-- The power by repeated multiplication, as a specification.
unfoldable pub power : ℤ → ℕ → ℤ
power b zero = pos 1
power b (suc e) = b *ℤ power b e

pub power-zero : (b : ℤ) → power b 0 ≡ pos 1
unfolding power
power-zero b = refl

pub power-suc : (b : ℤ) (e : ℕ) → power b (suc e) ≡ b *ℤ power b e
unfolding power
power-suc b e = refl

pub power_double : (b : ℤ) (k : ℕ) → power b (k + k) ≡ power (b *ℤ b) k
unfolding power
power_double b zero = refl
power_double b (suc k) =
    let e : suc k + suc k ≡ suc (suc (k + k)) = omega arith in
    rw (e, power_double b k) (sym (*ℤ_assoc b b _))

abbrev pub abs : ℤ → ℕ
abs (pos n) = n
abs (negsuc n) = suc n

-- A square is that of the size, and a product of sizes is a product.
pub square : (b : ℤ) → b *ℤ b ≡ pos (abs b * abs b)
unfolding ◌*ℤ◌
square (pos n) = ground arith
square (negsuc n) = ground arith

pos-times : (a b : ℕ) → pos a *ℤ pos b ≡ pos (a * b)
unfolding ◌*ℤ◌
pos-times a b = ground arith

pub power-pos : (s k : ℕ) → power (pos s) k ≡ pos (s ^ k)
unfolding power
power-pos s zero = ap pos (sym (pow-zero s))
power-pos s (suc k) = rw (power-pos s k) (pos-times s (s ^ k) ∙ ap pos (sym (pow-succ' s k)))

pub times-big : (x : ℤ) (y : ℕ) → fits x ≡ false → 1 ≤ y → fits (x *ℤ pos y) ≡ false
unfolding fits ◌*ℤ◌
times-big (pos n) y h k = ground (arith, mul-le-mul_left n k)
times-big (negsuc n) y h k = ground (arith, mul-le-mul_left (suc n) k)

pub square-big : (b : ℤ) → fits (b *ℤ b) ≡ false → 2 ^ 63 < abs b * abs b
unfolding fits
square-big b h =
    let a = abs b in
    let least : 2 ^ 63 ≤ a * a = ground (arith, rw (square b) at h) in
    elim (Bool-cases (leb a 3037000499)) [
      | inl small ↦
          let le = leb→le a 3037000499 small in absurd (omega (arith, mul-le-mul le le, least))
      | inr large ↦ let ge : 3037000500 ≤ a = ground arith in omega (arith, mul-le-mul ge ge)
    ]

mul-suc_le : (n t : ℕ) → t ≤ suc n * t
mul-suc_le n t = let one : 1 ≤ suc n = omega arith in omega (arith, mul-le-mul_left t one)

pub tail-big : (r : ℤ) (t : ℕ) → r ≢ pos 0 → 2 ^ 63 < t → fits (r *ℤ pos t) ≡ false
unfolding fits ◌*ℤ◌
tail-big (pos zero) t h k = absurd (h refl)
tail-big (pos (suc n)) t h k = ground (arith, mul-suc_le n t)
tail-big (negsuc n) t h k = ground (arith, mul-suc_le n t)

pub mul-nonzero : (a b : ℤ) → a ≢ pos 0 → b ≢ pos 0 → a *ℤ b ≢ pos 0
unfolding ◌*ℤ◌
mul-nonzero (pos zero) b ha hb e = ha refl
mul-nonzero a (pos zero) ha hb e = hb refl
mul-nonzero (pos (suc a)) (pos (suc b)) ha hb e = ground (arith, mul-suc_le a (suc b))
mul-nonzero (pos (suc a)) (negsuc b) ha hb e = ground (arith, mul-suc_le a (suc b))
mul-nonzero (negsuc a) (pos (suc b)) ha hb e = ground (arith, mul-suc_le a (suc b))
mul-nonzero (negsuc a) (negsuc b) ha hb e = ground (arith, mul-suc_le a (suc b))

-- The powers of the square of a number other than zero are positive, and not below a square that
-- is large.
pub square-power : (b : ℤ) (k : ℕ) → power (b *ℤ b) k ≡ pos ((abs b * abs b) ^ k)
square-power b k = rw (square b) (power-pos (abs b * abs b) k)

pub abs-pos : (b : ℤ) → b ≢ pos 0 → 1 ≤ abs b
abs-pos (pos zero) h = absurd (h refl)
abs-pos (pos (suc n)) h = omega arith
abs-pos (negsuc n) h = omega arith

pub power_le : (s k : ℕ) → 1 ≤ s → 1 ≤ k → s ≤ s ^ k
power_le s zero hs hk = absurd (omega arith)
power_le s (suc k) hs hk =
    let one : 1 ≤ s ^ k = one-le-pow k s hs in omega (arith, pow-succ' s k, mul-le-mul_left s one)

-- ===== src/Common/Bits.antt =====
-- `|` of two numbers whose bits do not meet is their sum, at every width.
use Prim.Native.Nat.{ℕ, zero, suc, ◌+◌, ◌*◌, ◌/◌, ◌^◌, ◌≤◌, ◌<◌, max, bit_or}
use Prim.Native.Nat.{digits, bit_or-bitwise}
use mathlib.Core.Path.{◌≡◌, refl, ap}
use native.Mathlib.Omega.{arith}
use native.Mathlib.Nat.{two-pow-succ}

abbrev or_digits : ℕ → ℕ → ℕ → ℕ
or_digits n a b = digits (λ c. c) max n a b

-- A multiple of 2 ^ (k + 1) is twice a multiple of 2 ^ k.
pub twice_multiple : (r k : ℕ) → r * 2 ^ suc k ≡ r * 2 ^ k * 2
twice_multiple r k = omega (arith, ap (λ (t : ℕ). r * t) (two-pow-succ k))

or_digits_high : (n a k r b : ℕ) → a ≤ n → a < 2 ^ k → b ≡ r * 2 ^ k → or_digits n a b ≡ a + b
or_digits_high zero zero k r b h lt e = omega arith
or_digits_high zero (suc a) k r b h lt e = absurd (omega arith)
or_digits_high (suc n) zero k r b h lt e = omega arith
or_digits_high (suc n) (suc a) zero r b h lt e = absurd (omega arith)
or_digits_high (suc n) (suc a) (suc k) r b h lt e = omega (
  arith,
  twice_multiple r k,
  two-pow-succ k,
  or_digits_high n (suc a / 2) k r (b / 2) (omega arith) (omega (arith, two-pow-succ k))
      (omega (arith, twice_multiple r k)),
)

or_digits-zero : (n a : ℕ) → a ≤ n → or_digits n a 0 ≡ a
or_digits-zero zero a h = omega arith
or_digits-zero (suc n) zero h = refl
or_digits-zero (suc n) (suc a) h = omega (arith, or_digits-zero n (suc a / 2) (omega arith))

or_digits_low : (n a k r b : ℕ) → a ≤ n → b < 2 ^ k → a ≡ r * 2 ^ k → or_digits n a b ≡ a + b
or_digits_low zero a k r b h lt e = omega arith
or_digits_low (suc n) zero k r b h lt e = omega arith
or_digits_low (suc n) (suc a) zero zero b h lt e = omega arith
or_digits_low (suc n) (suc a) zero (suc r) zero h lt e =
    omega (arith, or_digits-zero n (suc a / 2) (omega arith))
or_digits_low (suc n) (suc a) zero (suc r) (suc b) h lt e = absurd (omega arith)
or_digits_low (suc n) (suc a) (suc k) r b h lt e = omega (
  arith,
  twice_multiple r k,
  or_digits_low n (suc a / 2) k r (b / 2) (omega arith) (omega (arith, two-pow-succ k))
      (omega (arith, twice_multiple r k)),
)

-- a | (r << k) with `a` below 2 ^ k.
pub bit_or-add_high : (a k r : ℕ) → a < 2 ^ k → bit_or a (r * 2 ^ k) ≡ a + r * 2 ^ k
bit_or-add_high a k r h =
    omega
      (arith, bit_or-bitwise a (r * 2 ^ k), or_digits_high a a k r (r * 2 ^ k) (omega arith) h refl)

-- (r << k) | b with `b` below 2 ^ k.
pub bit_or-add_low : (r k b : ℕ) → b < 2 ^ k → bit_or (r * 2 ^ k) b ≡ r * 2 ^ k + b
bit_or-add_low r k b h = omega (
  arith,
  bit_or-bitwise (r * 2 ^ k) b,
  or_digits_low (r * 2 ^ k) (r * 2 ^ k) k r b (omega arith) h refl,
)

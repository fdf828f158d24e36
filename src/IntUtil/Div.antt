-- ===== src/IntUtil/Div.antt =====
-- `div128_32` divides a 128-bit number.
use bytecoin.Common.{ℕ, ◌+◌, ◌*◌, ◌/◌, ◌%◌, ◌^◌, ◌<◌, ◌≡◌, arith, bit_or}
use bytecoin.Common.Word.{IsU64, IsU32, shl64}
use bytecoin.Common.Bits.{bit_or-add_high, bit_or-add_low}
use bytecoin.IntUtil.{hi_dword, lo_dword, div_with_reminder, div128_32}
use native.Mathlib.Nat.{div-lt_iff_lt-mul, mod-lt, div-add-mod'}

joined_dwords : (x r : ℕ) → x < 2 ^ 32 → r < 2 ^ 32 → bit_or x (shl64 r 32) ≡ x + r * 2 ^ 32
joined_dwords x r hx hr =
    let fits : shl64 r 32 ≡ r * 2 ^ 32 = omega arith in rw fits (bit_or-add_high x 32 r hx)

-- One digit of the long division, with the quotient digit below 2 ^ 32.
div_with_reminder_lem :
    (x d r : ℕ)
    → x < 2 ^ 32
    → r < d
    → d < 2 ^ 32
    → let (q, r') = div_with_reminder x d r in
      (q * d + r' ≡ x + r * 2 ^ 32) × (r' < d) × (q < 2 ^ 32)
unfolding div_with_reminder
div_with_reminder_lem x d r hx hr hd =
    rw (joined_dwords x r hx (omega arith)) (digit (x + r * 2 ^ 32) (omega arith))
  where
    digit :
        (n : ℕ)
        → n < d * 2 ^ 32
        → (n / d * d + n % d % 2 ^ 32 ≡ n) × (n % d % 2 ^ 32 < d) × (n / d < 2 ^ 32)
    digit n h =
        let q : n / d < 2 ^ 32 = (div-lt_iff_lt-mul {k = d} (omega arith)).1 (omega arith) in
        let m : n % d < d = mod-lt n (omega arith) in
        (omega (arith, div-add-mod' n d), omega arith, q)

-- Four digits, the highest first, are one division.
long_division :
    (d x3 x2 x1 x0 q3 q2 q1 q0 r3 r2 r1 r0 : ℕ)
    → q3 * d + r3 ≡ x3 + 0 * 2 ^ 32
    → q2 * d + r2 ≡ x2 + r3 * 2 ^ 32
    → q1 * d + r1 ≡ x1 + r2 * 2 ^ 32
    → q0 * d + r0 ≡ x0 + r1 * 2 ^ 32
    → ((q3 * 2 ^ 32 + q2) * 2 ^ 64 + (q1 * 2 ^ 32 + q0)) * d + r0
      ≡ (x3 * 2 ^ 32 + x2) * 2 ^ 64 + (x1 * 2 ^ 32 + x0)
long_division d x3 x2 x1 x0 q3 q2 q1 q0 r3 r2 r1 r0 e3 e2 e1 e0 = omega arith

shifted_or : (q p : ℕ) → q < 2 ^ 32 → p < 2 ^ 32 → bit_or (shl64 q 32) p ≡ q * 2 ^ 32 + p
shifted_or q p hq hp =
    let fits : shl64 q 32 ≡ q * 2 ^ 32 = omega arith in rw fits (bit_or-add_low q 32 p hp)

-- For a 128-bit number in two words and a divisor of 32 bits that is not 0, the division equation
-- holds, the remainder is below the divisor, and both words of the quotient are 64-bit numbers.
pub div128_32_lem :
    (hi lo d : ℕ)
    → IsU64 hi
    → IsU64 lo
    → 0 < d
    → IsU32 d
    → let r = div128_32 hi lo d in
      ((r.quotient_hi * 2 ^ 64 + r.quotient_lo) * d + r.remainder ≡ hi * 2 ^ 64 + lo)
      × (r.remainder < d)
      × IsU64 r.quotient_hi
      × IsU64 r.quotient_lo
unfolding div128_32 hi_dword lo_dword
div128_32_lem hi lo d hhi hlo hd hd' =
    let (e3, l3, b3) = div_with_reminder_lem (hi / 2 ^ 32) d 0 (omega arith) hd hd' in
    let r3 = (div_with_reminder (hi / 2 ^ 32) d 0).1 in
    let (e2, l2, b2) = div_with_reminder_lem (hi % 2 ^ 32) d r3 (omega arith) l3 hd' in
    let r2 = (div_with_reminder (hi % 2 ^ 32) d r3).1 in
    let (e1, l1, b1) = div_with_reminder_lem (lo / 2 ^ 32) d r2 (omega arith) l2 hd' in
    let r1 = (div_with_reminder (lo / 2 ^ 32) d r2).1 in
    let (e0, l0, b0) = div_with_reminder_lem (lo % 2 ^ 32) d r1 (omega arith) l1 hd' in
    rw (shifted_or _ _ b3 b2, shifted_or _ _ b1 b0)
      (
        omega (arith, long_division d _ _ _ _ _ _ _ _ r3 r2 r1 _ e3 e2 e1 e0),
        l0,
        omega arith,
        omega arith,
      )

-- ===== src/IntUtil.antt =====
-- src/Common/int-util.h: 64 x 64 -> 128 bit products and long division in base 2 ^ 32.
pub mod Mul
pub mod Div
use bytecoin.Common.{ℕ, ◌/◌, ◌%◌, ◌^◌, bit_or, ltb, if◌then◌else◌}
use bytecoin.Common.Word.{add64, mul64, shl64, shr64}

unfoldable pub hi_dword : ℕ → ℕ
hi_dword val = val / 2 ^ 32

-- `val & 0xFFFFFFFF`
unfoldable pub lo_dword : ℕ → ℕ
lo_dword val = val % 2 ^ 32

-- The low word of the product and, through `product_hi`, its high word: `(product_lo, product_hi)`.
unfoldable pub mul128 : ℕ → ℕ → ℕ × ℕ
unfolding hi_dword lo_dword
mul128 multiplier multiplicand =
    let a = hi_dword multiplier in
    let b = lo_dword multiplier in
    let c = hi_dword multiplicand in
    let d = lo_dword multiplicand in
    let ac = mul64 a c in
    let ad = mul64 a d in
    let bc = mul64 b c in
    let bd = mul64 b d in
    let adbc = add64 ad bc in
    let adbc_carry : ℕ = if ltb adbc ad then 1 else 0 in
    let product_lo = add64 bd (shl64 adbc 32) in
    let product_lo_carry : ℕ = if ltb product_lo bd then 1 else 0 in
    let product_hi =
      add64 (add64 (add64 ac (shr64 adbc 32)) (shl64 adbc_carry 32)) product_lo_carry in
    (product_lo, product_hi)

-- `(dividend / divisor, remainder)` after `dividend |= remainder << 32`. The second component is a
-- uint32_t.
unfoldable pub div_with_reminder : ℕ → ℕ → ℕ → ℕ × ℕ
div_with_reminder dividend divisor remainder =
    let joined = bit_or dividend (shl64 remainder 32) in
    (joined / divisor, joined % divisor % 2 ^ 32)

pub record Quotient128 : Type 0 where
  pub quotient_hi : ℕ
  pub quotient_lo : ℕ
  pub remainder : ℕ

unfoldable pub div128_32 : ℕ → ℕ → ℕ → Quotient128
unfolding hi_dword lo_dword div_with_reminder
div128_32 dividend_hi dividend_lo divisor =
    let (q3, r3) = div_with_reminder (hi_dword dividend_hi) divisor 0 in
    let (q2, r2) = div_with_reminder (lo_dword dividend_hi) divisor r3 in
    let (q1, r1) = div_with_reminder (hi_dword dividend_lo) divisor r2 in
    let (q0, r0) = div_with_reminder (lo_dword dividend_lo) divisor r1 in
    record {
      quotient_hi = bit_or (shl64 q3 32) q2;
      quotient_lo = bit_or (shl64 q1 32) q0;
      remainder = r0;
    }

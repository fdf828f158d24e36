-- ===== src/IntUtil/Mul.antt =====
-- `mul128` is the exact product of two uint64_t.
use bytecoin.Common.{ℕ, ◌+◌, ◌*◌, ◌/◌, ◌%◌, ◌^◌, ◌≤◌, ◌<◌, ◌≡◌, arith, ltb, if◌then◌else◌}
use bytecoin.Common.Word.{IsU64, add64, shl64, shr64}
use bytecoin.IntUtil.{mul128}

pub mul-le : (a b m n : ℕ) → a ≤ m → b ≤ n → a * b ≤ m * n
mul-le a b m n p q = grind arith

dword_product : (a b : ℕ) → a < 2 ^ 32 → b < 2 ^ 32 → a * b ≤ 0xffff_fffe_0000_0001
dword_product a b p q =
    omega (arith, mul-le a b 0xffff_ffff 0xffff_ffff (omega arith) (omega arith))

-- The sum of the four partial products, in which no carry is lost.
partial_products :
    (ac ad bc bd : ℕ)
    → ac ≤ 0xffff_fffe_0000_0001
    → ad ≤ 0xffff_fffe_0000_0001
    → bc ≤ 0xffff_fffe_0000_0001
    → bd ≤ 0xffff_fffe_0000_0001
    → let adbc = add64 ad bc in
      let adbc_carry : ℕ = if ltb adbc ad then 1 else 0 in
      let lo = add64 bd (shl64 adbc 32) in
      let lo_carry : ℕ = if ltb lo bd then 1 else 0 in
      let hi = add64 (add64 (add64 ac (shr64 adbc 32)) (shl64 adbc_carry 32)) lo_carry in
      (hi * 2 ^ 64 + lo ≡ ac * 2 ^ 64 + (ad + bc) * 2 ^ 32 + bd) × (lo < 2 ^ 64) × (hi < 2 ^ 64)
partial_products ac ad bc bd h1 h2 h3 h4 = ground arith

product_of_dwords :
    (x y a b c d : ℕ)
    → x ≡ a * 2 ^ 32 + b
    → y ≡ c * 2 ^ 32 + d
    → x * y ≡ a * c * 2 ^ 64 + (a * d + b * c) * 2 ^ 32 + b * d
product_of_dwords x y a b c d p q = rw (p, q) (omega arith)

-- The 128-bit result is the product, for every two 64-bit numbers, and both words are 64-bit
-- numbers.
pub mul128_lem :
    (x y : ℕ)
    → IsU64 x
    → IsU64 y
    → let (lo, hi) = mul128 x y in (hi * 2 ^ 64 + lo ≡ x * y) × IsU64 lo × IsU64 hi
unfolding mul128
mul128_lem x y hx hy =
    let a = x / 2 ^ 32 in
    let b = x % 2 ^ 32 in
    let c = y / 2 ^ 32 in
    let d = y % 2 ^ 32 in
    let ac = dword_product a c (omega arith) (omega arith) in
    let ad = dword_product a d (omega arith) (omega arith) in
    let bc = dword_product b c (omega arith) (omega arith) in
    let bd = dword_product b d (omega arith) (omega arith) in
    let (sum, lo, hi) =
      partial_products (a * c % 2 ^ 64) (a * d % 2 ^ 64) (b * c % 2 ^ 64) (b * d % 2 ^ 64)
        (omega arith) (omega arith) (omega arith) (omega arith) in
    (omega (arith, product_of_dwords x y a b c d (omega arith) (omega arith)), lo, hi)

-- ===== src/Difficulty/CheckHash.antt =====
-- `check_hash` accepts exactly the hashes whose product with the difficulty fits 256 bits.
use bytecoin.Common.{
  ℕ, ◌+◌, ◌*◌, ◌/◌, ◌%◌, ◌^◌, ◌≤◌, ◌<◌, ◌≡◌, ◌↔◌, Bool, true, false, not, arith, ◌==◌,
  if◌then◌else◌,
}
use bytecoin.Common.Word.{IsU64}
use bytecoin.IntUtil.Mul.{mul-le}
use bytecoin.Difficulty.{cadd, cadc, HashWords, hash_value, check_hash}

-- The carry out of a + b.
cadd_lem : (a b : ℕ) → IsU64 a → IsU64 b → (cadd a b ≡ true) ↔ (2 ^ 64 ≤ a + b)
unfolding cadd
cadd_lem a b ha hb = ground arith

abbrev bit : Bool → ℕ
bit true = 1
bit false = 0

-- The carry out of a + b and a carry in.
cadc_lem : (a b : ℕ) (c : Bool) → IsU64 a → IsU64 b → (cadc a b c ≡ true) ↔ (2 ^ 64 ≤ a + b + bit c)
unfolding cadc
cadc_lem a b true ha hb = ground arith
cadc_lem a b false ha hb = ground arith

-- The four partial products, added with their carries.
words_sum :
    (l0 c0 l1 h1 l2 h2 top h3 : ℕ) (k0 k1 k2 : Bool)
    → l0 < 2 ^ 64
    → l1 < 2 ^ 64
    → l2 < 2 ^ 64
    → top < 2 ^ 64
    → c0 < 2 ^ 64
    → h1 < 2 ^ 64
    → h2 < 2 ^ 64
    → (k0 ≡ true) ↔ (2 ^ 64 ≤ c0 + l1)
    → (k1 ≡ true) ↔ (2 ^ 64 ≤ h1 + l2 + bit k0)
    → (k2 ≡ true) ↔ (2 ^ 64 ≤ h2 + top + bit k1)
    → ((if not (h3 == 0) then false else not k2) ≡ true) ↔ (
        l0 + (c0 + l1) * 2 ^ 64 + (h1 + l2) * 2 ^ 128 + (h2 + top) * 2 ^ 192 + h3 * 2 ^ 256
        < 2 ^ 256)
words_sum l0 c0 l1 h1 l2 h2 top h3 true true true a b c d e f g p q r = ground arith
words_sum l0 c0 l1 h1 l2 h2 top h3 k0 k1 k2 a b c d e f g p q r = ground arith

high_word : (w d : ℕ) → IsU64 w → IsU64 d → w * d / 2 ^ 64 < 2 ^ 64
high_word w d hw hd =
    omega
      (arith, mul-le w d 0xffff_ffff_ffff_ffff 0xffff_ffff_ffff_ffff (omega arith) (omega arith))

-- For a hash of four 64-bit words and a 64-bit difficulty, the test passes exactly when hash *
-- difficulty is below 2 ^ 256.
pub check_hash_lem :
    (h : HashWords) (d : ℕ)
    → IsU64 h.word0
    → IsU64 h.word1
    → IsU64 h.word2
    → IsU64 h.word3
    → IsU64 d
    → (check_hash h d ≡ true) ↔ (hash_value h * d < 2 ^ 256)
unfolding check_hash
check_hash_lem h d u0 u1 u2 u3 ud =
    let p0 = h.word0 * d in
    let p1 = h.word1 * d in
    let p2 = h.word2 * d in
    let p3 = h.word3 * d in
    let b0 = high_word h.word0 d u0 ud in
    let b1 = high_word h.word1 d u1 ud in
    let b2 = high_word h.word2 d u2 ud in
    let k0 = cadd (p0 / 2 ^ 64) (p1 % 2 ^ 64) in
    let k1 = cadc (p1 / 2 ^ 64) (p2 % 2 ^ 64) k0 in
    let k2 = cadc (p2 / 2 ^ 64) (p3 % 2 ^ 64) k1 in
    let (there, back) =
      words_sum (p0 % 2 ^ 64) (p0 / 2 ^ 64) (p1 % 2 ^ 64) (p1 / 2 ^ 64) (p2 % 2 ^ 64) (p2 / 2 ^ 64)
        (p3 % 2 ^ 64) (p3 / 2 ^ 64) k0 k1 k2 (omega arith) (omega arith) (omega arith) (omega arith)
        b0 b1 b2 (cadd_lem (p0 / 2 ^ 64) (p1 % 2 ^ 64) b0 (omega arith))
        (cadc_lem (p1 / 2 ^ 64) (p2 % 2 ^ 64) k0 b1 (omega arith))
        (cadc_lem (p2 / 2 ^ 64) (p3 % 2 ^ 64) k1 b2 (omega arith)) in
    (λ e. omega (arith, there e), λ l. back (omega (arith, l)))

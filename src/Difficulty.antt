-- ===== src/Difficulty.antt =====
-- src/cryptonote_core/difficulty.cpp: the test of a proof of work.
pub mod CheckHash
use bytecoin.Common.{
  ℕ, ◌+◌, ◌-◌, ◌*◌, ◌/◌, ◌%◌, ◌^◌, Bool, true, false, ◌&&◌, ◌||◌, not, ltb, ◌==◌, if◌then◌else◌,
}
use bytecoin.Common.Word.{add64}

-- `(low, high)` of the exact product of two uint64_t.
unfoldable pub mul : ℕ → ℕ → ℕ × ℕ
mul a b = (a * b % 2 ^ 64, a * b / 2 ^ 64)

unfoldable pub cadd : ℕ → ℕ → Bool
cadd a b = ltb (add64 a b) a

unfoldable pub cadc : ℕ → ℕ → Bool → Bool
cadc a b c = ltb (add64 a b) a || c && add64 a b == 2 ^ 64 - 1

-- A 256-bit hash as its four little-endian words, the lowest first.
pub record HashWords : Type 0 where
  pub word0 : ℕ
  pub word1 : ℕ
  pub word2 : ℕ
  pub word3 : ℕ

-- The number that the hash stands for.
abbrev pub hash_value : HashWords → ℕ
hash_value h = h.word0 + h.word1 * 2 ^ 64 + h.word2 * 2 ^ 128 + h.word3 * 2 ^ 192

unfoldable pub check_hash : HashWords → ℕ → Bool
unfolding mul cadd cadc
check_hash hash difficulty =
    let (top, high3) = mul hash.word3 difficulty in
    let (_, cur0) = mul hash.word0 difficulty in
    let (low1, high1) = mul hash.word1 difficulty in
    let carry0 = cadd cur0 low1 in
    let (low2, high2) = mul hash.word2 difficulty in
    let carry1 = cadc high1 low2 carry0 in
    let carry2 = cadc high2 top carry1 in if not (high3 == 0) then false else not carry2

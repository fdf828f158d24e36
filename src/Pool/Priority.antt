-- ===== src/Pool/Priority.antt =====
-- What TransactionPriorityComparator decides.
use bytecoin.Common.{ℕ, ◌+◌, ◌*◌, ◌^◌, ◌<◌, ◌≡◌, ◌↔◌, ◌⊎◌, true, ◌&&◌, ◌||◌, ltb, ◌==◌, arith}
use bytecoin.Common.Word.{IsU64}
use bytecoin.IntUtil.Mul.{mul128_lem}
use bytecoin.Pool.{TransactionDetails}
use bytecoin.Pool.Order.{comes_before}

-- A higher fee for the size comes first; for the same price the smaller size, and then the earlier
-- time.
abbrev pub HasPriority : TransactionDetails → TransactionDetails → Type 0
HasPriority a b =
    (b.fee * a.blob_size < a.fee * b.blob_size)
    ⊎ ((a.fee * b.blob_size ≡ b.fee * a.blob_size)
        × ((a.blob_size < b.blob_size)
            ⊎ ((a.blob_size ≡ b.blob_size) × (a.receive_time < b.receive_time))))

-- The comparison of two words with two words.
by_words :
    (lh ll rh rl x y a b s t : ℕ)
    → lh * 2 ^ 64 + ll ≡ x
    → rh * 2 ^ 64 + rl ≡ y
    → ll < 2 ^ 64
    → rl < 2 ^ 64
    → ((ltb rh lh
          || lh == rh && ltb rl ll
          || lh == rh && ll == rl && ltb a b
          || lh == rh && ll == rl && a == b && ltb s t)
        ≡ true)
      ↔ ((y < x) ⊎ ((x ≡ y) × ((a < b) ⊎ ((a ≡ b) × (s < t)))))
by_words lh ll rh rl x y a b s t p q hl hr = ground arith

-- For fees and sizes of 64 bits, the comparator prefers exactly the higher fee for the size, as
-- fractions, then the smaller size, then the earlier time.
pub comes_before_lem :
    (a b : TransactionDetails)
    → IsU64 a.fee
    → IsU64 b.fee
    → IsU64 a.blob_size
    → IsU64 b.blob_size
    → (comes_before a b ≡ true) ↔ HasPriority a b
unfolding comes_before
comes_before_lem a b fa fb sa sb =
    let (left, ll, lh) = mul128_lem a.fee b.blob_size fa sb in
    let (right, rl, rh) = mul128_lem b.fee a.blob_size fb sa in
    by_words _ _ _ _ (a.fee * b.blob_size) (b.fee * a.blob_size) a.blob_size b.blob_size
      a.receive_time b.receive_time left right ll rl

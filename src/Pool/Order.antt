-- ===== src/Pool/Order.antt =====
-- TransactionPriorityComparator of src/cryptonote_core/tx_pool.h, and the places of the transactions
-- in the container.
use bytecoin.Common.{Bool, ◌&&◌, ◌||◌, Option, none, some, List, [], ◌∷◌, ltb, ◌==◌, if◌then◌else◌}
use bytecoin.IntUtil.{mul128}
use bytecoin.Transaction.{Hash}
use bytecoin.Pool.{TransactionDetails}

-- The comparison of two prices as products of 128 bits, then of sizes, then of times.
unfoldable pub comes_before : TransactionDetails → TransactionDetails → Bool
comes_before lhs rhs =
    let (lhs_lo, lhs_hi) = mul128 lhs.fee rhs.blob_size in
    let (rhs_lo, rhs_hi) = mul128 rhs.fee lhs.blob_size in
    ltb rhs_hi lhs_hi
    || lhs_hi == rhs_hi && ltb rhs_lo lhs_lo
    || lhs_hi == rhs_hi && lhs_lo == rhs_lo && ltb lhs.blob_size rhs.blob_size
    || lhs_hi == rhs_hi
      && lhs_lo == rhs_lo
      && lhs.blob_size == rhs.blob_size
      && ltb lhs.receive_time rhs.receive_time

-- The place of an element in the index by fee: behind those that do not come after it.
unfoldable pub insert_by_fee :
    TransactionDetails → List TransactionDetails → List TransactionDetails
insert_by_fee d [] = d ∷ []
insert_by_fee d (e ∷ es) = if comes_before d e then d ∷ e ∷ es else e ∷ insert_by_fee d es

-- `m_transactions.find(id)`.
unfoldable pub find_transaction : Hash → List TransactionDetails → Option TransactionDetails
find_transaction id [] = none
find_transaction id (d ∷ ds) = if d.id == id then some d else find_transaction id ds

-- `m_transactions.erase` at the element with the hash.
unfoldable pub erase_transaction : Hash → List TransactionDetails → List TransactionDetails
erase_transaction id [] = []
erase_transaction id (d ∷ ds) = if d.id == id then ds else d ∷ erase_transaction id ds

-- ===== src/Pool/Calls.antt =====
-- The calls of tx_memory_pool (src/cryptonote_core/tx_pool.cpp) that change its state, and
-- OnceInTimeInterval of tx_pool.h.
use bytecoin.Common.{
  ℕ, ◌+◌, ◌-◌, Bool, true, false, not, ◌&&◌, Option, none, some, List, [], ◌∷◌, ltb, leb,
  if◌then◌else◌, length,
}
use bytecoin.Common.Word.{sub64}
use bytecoin.Currency.{Currency}
use bytecoin.Transaction.{Hash, Transaction}
use bytecoin.Transaction.Amounts.{
  check_inputs_types_supported, get_inputs_money_amount, get_outs_money_amount,
}
use bytecoin.Blocks.{TakenTransaction}
use bytecoin.Pool.{
  BlockInfo, no_block, TransactionDetails, Pool, VerificationContext, TransactionValidator,
}
use bytecoin.Pool.Inputs.{add_transaction_inputs, remove_transaction_inputs, have_spent_inputs}
use bytecoin.Pool.Order.{insert_by_fee, find_transaction, erase_transaction}

unfoldable pub have_tx : Pool → Hash → Bool
unfolding find_transaction
have_tx p id = elim (find_transaction id p.transactions) [ none ↦ false | some _ ↦ true ]

unfoldable pub get_transactions_count : Pool → ℕ
get_transactions_count p = length p.transactions

abbrev pub failed : VerificationContext → VerificationContext
failed tvc = record tvc { verifivation_failed = true }

-- The insertion into the container and the two sets, from "add to pool" on.
unfoldable pub insert_details :
    Pool → TransactionDetails → Bool → VerificationContext → Pool × VerificationContext × Bool
unfolding have_tx insert_by_fee add_transaction_inputs
insert_details p d inputs_valid tvc =
    let (spent, complete) =
      add_transaction_inputs d.id d.kept_by_block (p.spent_key_images, p.spent_outputs) d.tx.vin in
    let p' : Pool = record p {
      transactions = insert_by_fee d p.transactions;
      spent_key_images = spent.0;
      spent_outputs = spent.1;
    } in
    let tvc' : VerificationContext = record tvc {
      added_to_pool = true;
      should_be_relayed = if inputs_valid && ltb 0 d.fee then true else tvc.should_be_relayed;
      verifivation_failed = not complete;
    } in
    if have_tx p d.id then (p, tvc, false) else (p', tvc', complete)

-- The details that `add_tx` makes; `max_used_block` is cleared where the inputs are not valid.
abbrev pub new_details : Transaction → Hash → ℕ → ℕ → Bool → ℕ → BlockInfo → TransactionDetails
new_details tx id blob_size fee kept_by_block now max_used_block = record {
  max_used_block = max_used_block;
  last_failed_block = no_block;
  id = id;
  tx = tx;
  blob_size = blob_size;
  fee = fee;
  kept_by_block = kept_by_block;
  receive_time = now;
}

module _ (v : TransactionValidator) where
  -- From the test of the inputs on.
  unfoldable pub validate_and_insert :
      Pool
      → Transaction
      → Hash
      → ℕ
      → ℕ
      → VerificationContext
      → Bool
      → ℕ
      → Pool × VerificationContext × Bool
  unfolding insert_details
  validate_and_insert p tx id blob_size fee tvc kept_by_block now =
      let (inputs_valid, max_used_block) = v.check_transaction_inputs tx in
      if inputs_valid
      then insert_details p (new_details tx id blob_size fee kept_by_block now max_used_block) true
          tvc
      else if not kept_by_block
      then (p, failed tvc, false)
      else insert_details p (new_details tx id blob_size fee kept_by_block now no_block) false
          (record tvc { verifivation_impossible = true })

module _ (c : Currency) (v : TransactionValidator) where
  -- `add_tx` with the hash and the size; `now` is the time that the clock shows.
  unfoldable pub add_tx :
      Pool
      → Transaction
      → Hash
      → ℕ
      → VerificationContext
      → Bool
      → ℕ
      → Pool × VerificationContext × Bool
  unfolding check_inputs_types_supported get_inputs_money_amount get_outs_money_amount
      have_spent_inputs validate_and_insert
  add_tx p tx id blob_size tvc kept_by_block now =
      let inputs_amount = get_inputs_money_amount tx in
      let outputs_amount = get_outs_money_amount tx in
      let fee = inputs_amount - outputs_amount in
      if not (check_inputs_types_supported tx)
      then (p, failed tvc, false)
      else if leb inputs_amount outputs_amount
      then (p, failed tvc, false)
      else if not kept_by_block && ltb fee c.minimum_fee
      then (p, record tvc { verifivation_failed = true; tx_fee_too_small = true }, false)
      else if not kept_by_block && have_spent_inputs (p.spent_key_images, p.spent_outputs) tx.vin
      then (p, failed tvc, false)
      else validate_and_insert v p tx id blob_size fee tvc kept_by_block now

-- `removeTransaction`: whatever `removeTransactionInputs` returns, the element is erased.
unfoldable pub remove_transaction : Pool → TransactionDetails → Pool
unfolding remove_transaction_inputs erase_transaction
remove_transaction p d =
    let (spent, _) =
      remove_transaction_inputs d.id d.kept_by_block (p.spent_key_images, p.spent_outputs)
        d.tx.vin in
    record p {
      transactions = erase_transaction d.id p.transactions;
      spent_key_images = spent.0;
      spent_outputs = spent.1;
    }

unfoldable pub take_tx : Pool → Hash → Option (TakenTransaction × Pool)
unfolding find_transaction remove_transaction
take_tx p id = elim (find_transaction id p.transactions) [
  | none ↦ none
  | some d ↦
      some (record { tx = d.tx; blob_size = d.blob_size; fee = d.fee }, remove_transaction p d)
]

-- Whether an element has outlived its time; the age is a uint64_t.
unfoldable pub is_outdated : Currency → ℕ → TransactionDetails → Bool
is_outdated c now d =
    ltb (if d.kept_by_block then c.mempool_tx_from_alt_block_live_time else c.mempool_tx_live_time)
      (sub64 now d.receive_time)

-- The loop of `removeExpiredTransactions` over the elements, and whether something was removed.
unfoldable pub remove_outdated : Currency → ℕ → Pool → List TransactionDetails → Pool × Bool
unfolding is_outdated remove_transaction
remove_outdated c now p [] = (p, false)
remove_outdated c now p (d ∷ ds) =
    let rest =
      remove_outdated c now (if is_outdated c now d then remove_transaction p d else p) ds in
    (rest.0, if is_outdated c now d then true else rest.1)

unfoldable pub remove_expired_transactions : Currency → ℕ → Pool → Pool × Bool
unfolding remove_outdated
remove_expired_transactions c now p = remove_outdated c now p p.transactions

-- `on_idle`: once in 60 seconds. `now` and `later` are the two times that the clock shows.
unfoldable pub on_idle : Currency → ℕ → ℕ → Pool → Pool
unfolding remove_expired_transactions
on_idle c now later p =
    if ltb (p.last_worked_time + 60) now
    then record (remove_expired_transactions c now p).0 { last_worked_time = later }
    else p

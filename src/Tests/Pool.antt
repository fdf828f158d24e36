-- ===== src/Tests/Pool.antt =====
-- The transaction pool with one payment in it.
use bytecoin.Common.{
  ℕ, ◌+◌, ◌%◌, ◌^◌, ◌≤◌, ◌<◌, ◌≡◌, ◌↔◌, refl, true, false, some, List, [], ◌∷◌, arith, ltb, length,
}
use bytecoin.Common.Map.{put}
use bytecoin.Currency.{default_currency}
use bytecoin.Transaction.{Transaction, TransactionInput, TransactionOutputTarget}
use bytecoin.Blocks.{Block}
use bytecoin.Pool.{TransactionDetails, Pool, TransactionValidator, no_block}
use bytecoin.Pool.Order.{comes_before, find_transaction}
use bytecoin.Pool.Calls.{add_tx, remove_expired_transactions}
use bytecoin.Pool.Template.{fill_block_template, max_template_size}
use bytecoin.Pool.Totals.{total, images_of, outputs_of}
use bytecoin.Pool.Consistency.{HasDistinctInputs, IsConsistent}
use bytecoin.Pool.Entering.{Enters}
use bytecoin.Pool.Entry.{TakesBack, add_tx_lem, take_tx-add_tx}
use bytecoin.Pool.Expiry.{Leaves, remove_expired_transactions_lem}
use bytecoin.Pool.Filling.{fill_block_template_lem}
use bytecoin.Pool.Invariant.{empty_pool, reached-IsConsistent}
use bytecoin.Pool.ChainPool.{fresh_context}
use bytecoin.Pool.Priority.{HasPriority, comes_before_lem}
use bytecoin.Pool.Steps.{adds, here, after}
use bytecoin.Pool.TemplateLaws.{
  image_weight, output_weight, total_blob_size, total_fee, ids_of, Picks,
}
use bytecoin.Tests.World.{second, full_reward}

-- A transaction that spends one key image and pays a fee of two million.
abbrev pub payment : ℕ → Transaction
payment image = record {
  version = 1;
  unlock_time = 0;
  vin =
      TransactionInput.to_key
        (record { amount = 5_000_000; key_offsets = 0 ∷ []; key_image = image })
      ∷ [];
  vout = record { amount = 3_000_000; target = TransactionOutputTarget.to_key 21 } ∷ [];
  extra = [];
  signatures = [];
}

abbrev pub all_valid : TransactionValidator
all_valid = record {
  check_transaction_inputs = λ tx. (true, no_block);
  check_transaction_inputs_again = λ tx a b. (true, a, b);
  have_spent_key_images = λ tx. false;
}

abbrev pub paid : TransactionDetails
paid = record {
  max_used_block = no_block;
  last_failed_block = no_block;
  id = 100;
  tx = payment 5;
  blob_size = 300;
  fee = 2_000_000;
  kept_by_block = false;
  receive_time = 1_000;
}

abbrev pub one_payment : Pool
one_payment =
    (add_tx default_currency all_valid empty_pool (payment 5) 100 300 fresh_context false 1_000).0

payment-HasDistinctInputs : (image : ℕ) → HasDistinctInputs (payment image)
unfolding images_of outputs_of
payment-HasDistinctInputs image = record {
  images = λ k. ground arith;
  outputs = λ a i. omega arith;
}

reached_example : IsConsistent one_payment
reached_example = reached-IsConsistent default_currency one_payment (
    after here
      (adds all_valid (payment 5) 100 300 fresh_context false 1_000 (payment-HasDistinctInputs 5)))

empty-IsConsistent : IsConsistent empty_pool
empty-IsConsistent = reached-IsConsistent default_currency empty_pool here

pub one-IsConsistent : IsConsistent one_payment
one-IsConsistent = reached-IsConsistent default_currency one_payment (
    after here
      (adds all_valid (payment 5) 100 300 fresh_context false 1_000 (payment-HasDistinctInputs 5)))

add_example :
    let (q, _, added) =
      add_tx default_currency all_valid one_payment (payment 6) 101 300 fresh_context false 1_010 in
    ((added ≡ true) ↔ Enters default_currency all_valid one_payment (payment 6) 101 false)
    × (added ≡ false → q ≡ one_payment)
add_example =
    add_tx_lem default_currency all_valid one_payment (payment 6) 101 300 fresh_context false 1_010
      one-IsConsistent (payment-HasDistinctInputs 6)

paid_found : find_transaction 100 one_payment.transactions ≡ some paid
unfolding add_tx find_transaction
paid_found = refl

spends_five : 0 < images_of 5 (payment 5).vin
unfolding images_of
spends_five = omega arith

payment_added :
    (add_tx default_currency all_valid one_payment (payment 6) 101 300 fresh_context false 1_010).2
    ≡ true
unfolding add_tx put
payment_added = refl

take_example :
    TakesBack one_payment
      (payment 6)
      101
      300
      (add_tx default_currency all_valid one_payment
        (payment 6)
        101
        300
        fresh_context
        false
        1_010).0
take_example =
    take_tx-add_tx default_currency all_valid one_payment (payment 6) 101 300 fresh_context false
      1_010 one-IsConsistent (payment-HasDistinctInputs 6) payment_added

expired_example :
    let (q, removed) = remove_expired_transactions default_currency 100_000 one_payment in
    IsConsistent q
    × Leaves default_currency 100_000 one_payment.transactions q.transactions
    × (removed ≡ ltb (length q.transactions) (length one_payment.transactions))
unfolding add_tx
expired_example =
    remove_expired_transactions_lem default_currency 100_000 one_payment one-IsConsistent
      (omega arith) (omega arith, tt)

abbrev pub block_limit : ℕ
block_limit = max_template_size default_currency 20_000 20_000

pub template_fits : (block_limit + 300 < 2 ^ 64) × Unit {0}
unfolding max_template_size
template_fits = (omega arith, tt)

fill_example :
    let t = (fill_block_template all_valid default_currency one_payment 20_000 20_000).1 in
    (cs : List TransactionDetails) × Picks all_valid block_limit [] one_payment.transactions cs
    × (t.tx_hashes ≡ ids_of cs)
    × (t.total_size ≡ total_blob_size cs)
    × (total_blob_size cs ≤ block_limit)
    × (t.fee ≡ total_fee cs % 2 ^ 64)
    × ((k : ℕ) → total (image_weight k) cs ≤ 1)
    × ((a i : ℕ) → total (output_weight a i) cs ≤ 1)
unfolding add_tx
fill_example =
    fill_block_template_lem all_valid default_currency one_payment 20_000 20_000 one-IsConsistent
      template_fits

priority_example :
    (comes_before (record paid { fee = 3_000_000 }) paid ≡ true)
    ↔ HasPriority (record paid { fee = 3_000_000 }) paid
priority_example =
    comes_before_lem (record paid { fee = 3_000_000 }) paid (omega arith) (omega arith)
      (omega arith) (omega arith)

-- A block that asks for the payment.
abbrev spending_block : Block
spending_block = record (second full_reward) { tx_hashes = 100 ∷ [] }

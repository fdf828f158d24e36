-- ===== src/Pool/Template.antt =====
-- `fill_block_template`, `is_transaction_ready_to_go`, `get_difference` and class BlockTemplate of
-- src/cryptonote_core/tx_pool.cpp.
use bytecoin.Common.{
  ℕ, ◌*◌, ◌/◌, ◌%◌, ◌^◌, min, Bool, true, false, not, ◌&&◌, List, [], ◌∷◌, ◌++◌, ltb, if◌then◌else◌,
}
use bytecoin.Common.Map.{NumberSet, add}
use bytecoin.Common.Word.{add64, sub64}
use bytecoin.Currency.{Currency}
use bytecoin.Transaction.{Hash, TransactionInput}
use bytecoin.Pool.{OutputSet, BlockInfo, TransactionDetails, Pool, TransactionValidator}
use bytecoin.Pool.Inputs.{insert_output, has_hash}

-- The members of BlockTemplate, with the running `total_size` and `fee`.
pub record BlockTemplate : Type 0 where
  pub key_images : NumberSet
  pub used_outputs : OutputSet
  pub tx_hashes : List Hash
  pub total_size : ℕ
  pub fee : ℕ

abbrev pub empty_template : BlockTemplate
empty_template = record {
  key_images = λ k. false;
  used_outputs = λ a i. false;
  tx_hashes = [];
  total_size = 0;
  fee = 0;
}

unfoldable pub can_add : NumberSet → OutputSet → List TransactionInput → Bool
can_add images outs [] = true
can_add images outs (TransactionInput.to_key t ∷ vin) =
    not (images t.key_image) && can_add images outs vin
can_add images outs (TransactionInput.multisignature t ∷ vin) =
    not (outs t.amount t.output_index) && can_add images outs vin
can_add images outs (TransactionInput.generate _ ∷ vin) = can_add images outs vin
can_add images outs (TransactionInput.to_script ∷ vin) = can_add images outs vin
can_add images outs (TransactionInput.to_script_hash ∷ vin) = can_add images outs vin

-- The two sets after the loop of `addTransaction`.
unfoldable pub use_inputs : NumberSet × OutputSet → List TransactionInput → NumberSet × OutputSet
unfolding add insert_output
use_inputs sets [] = sets
use_inputs (images, outs) (TransactionInput.to_key t ∷ vin) =
    use_inputs (add images t.key_image, outs) vin
use_inputs (images, outs) (TransactionInput.multisignature t ∷ vin) =
    use_inputs (images, insert_output outs t.amount t.output_index) vin
use_inputs sets (TransactionInput.generate _ ∷ vin) = use_inputs sets vin
use_inputs sets (TransactionInput.to_script ∷ vin) = use_inputs sets vin
use_inputs sets (TransactionInput.to_script_hash ∷ vin) = use_inputs sets vin

-- `addTransaction`, with the sums that the caller makes where it returns `true`.
unfoldable pub add_transaction : BlockTemplate → TransactionDetails → BlockTemplate
unfolding can_add use_inputs
add_transaction t d =
    let (images, outs) = use_inputs (t.key_images, t.used_outputs) d.tx.vin in
    if can_add t.key_images t.used_outputs d.tx.vin
    then record {
      key_images = images;
      used_outputs = outs;
      tx_hashes = t.tx_hashes ++ d.id ∷ [];
      total_size = add64 t.total_size d.blob_size;
      fee = add64 t.fee d.fee;
    }
    else t

unfoldable pub max_template_size : Currency → ℕ → ℕ → ℕ
max_template_size c median_size max_cumulative_size =
    min (sub64 (125 * median_size % 2 ^ 64 / 100) c.miner_tx_blob_reserved_size) max_cumulative_size

module _ (v : TransactionValidator) where
  -- Whether a transaction may go into a block, and the two blocks of its details.
  unfoldable pub is_transaction_ready_to_go : TransactionDetails → Bool × BlockInfo × BlockInfo
  is_transaction_ready_to_go d =
      let (valid, max_used, last_failed) =
        v.check_transaction_inputs_again d.tx d.max_used_block d.last_failed_block in
      (valid && not (v.have_spent_key_images d.tx), max_used, last_failed)

  -- One round of the loop: the element with its new blocks, and the template.
  unfoldable pub fill_step :
      ℕ → BlockTemplate → TransactionDetails → TransactionDetails × BlockTemplate
  unfolding is_transaction_ready_to_go add_transaction
  fill_step max_total_size t d =
      let (ready, max_used, last_failed) = is_transaction_ready_to_go d in
      if ltb max_total_size (add64 t.total_size d.blob_size) then (d, t) else (
        record d { max_used_block = max_used; last_failed_block = last_failed },
        if ready then add_transaction t d else t,
      )

  unfoldable pub fill_loop :
      ℕ → BlockTemplate → List TransactionDetails → List TransactionDetails × BlockTemplate
  unfolding fill_step
  fill_loop max_total_size t [] = ([], t)
  fill_loop max_total_size t (d ∷ ds) =
      let step = fill_step max_total_size t d in
      let rest = fill_loop max_total_size step.1 ds in (step.0 ∷ rest.0, rest.1)

  -- The pool with its details brought up to date, and the template, whose hashes, size and fee are
  -- the results.
  unfoldable pub fill_block_template : Currency → Pool → ℕ → ℕ → Pool × BlockTemplate
  unfolding fill_loop max_template_size
  fill_block_template c p median_size max_cumulative_size =
      let (transactions, t) =
        fill_loop (max_template_size c median_size max_cumulative_size) empty_template
          p.transactions in
      (record p { transactions = transactions }, t)

  -- The hashes of the transactions that are ready.
  unfoldable pub ready_ids : List TransactionDetails → List Hash
  unfolding is_transaction_ready_to_go
  ready_ids [] = []
  ready_ids (d ∷ ds) =
      let rest = ready_ids ds in if (is_transaction_ready_to_go d).0 then d.id ∷ rest else rest

-- Those of the first list that are not in the second.
unfoldable pub without : List Hash → List Hash → List Hash
unfolding has_hash
without [] other = []
without (h ∷ l) other = let rest = without l other in if has_hash h other then rest else h ∷ rest

-- A list as an unordered_set: each hash once.
unfoldable pub as_set : List Hash → List Hash
unfolding has_hash
as_set [] = []
as_set (h ∷ l) = let rest = as_set l in if has_hash h rest then rest else h ∷ rest

-- `get_difference`: the new and the deleted hashes.
unfoldable pub get_difference : TransactionValidator → Pool → List Hash → List Hash × List Hash
unfolding ready_ids without as_set
get_difference v p known_tx_ids =
    let ready = as_set (ready_ids v p.transactions) in
    (without ready known_tx_ids, without (as_set known_tx_ids) ready)

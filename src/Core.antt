-- ===== src/Core.antt =====
-- src/cryptonote_core/cryptonote_core.cpp: class core, which hands transactions and blocks from the
-- network to the pool and the main chain. The miner, the relay of blocks and the log are left out.
pub mod Semantics
pub mod Events
use bytecoin.Common.{
  ℕ, Bool, true, false, not, ◌&&◌, Option, none, some, List, [], ◌∷◌, ltb, leb, ◌==◌, if◌then◌else◌,
  length,
}
use bytecoin.Common.Map.{NumberSet, add}
use bytecoin.Common.Word.{sub64}
use bytecoin.Currency.{Currency}
use bytecoin.Transaction.{Hash, PublicKey, Transaction, TransactionInput}
use bytecoin.Transaction.Amounts.{
  check_inputs_types_supported, check_outs_valid, check_money_overflow, get_inputs_money_amount,
  get_outs_money_amount, check_multisignature_inputs_diff,
}
use bytecoin.Blocks.{Block, Blockchain, Environment}
use bytecoin.Pool.{Pool, VerificationContext, TransactionValidator}
use bytecoin.Pool.Calls.{have_tx, add_tx, failed}
use bytecoin.Pool.ChainPool.{fresh_context, chain_pool}
use bytecoin.Reorganisation.{Chains, BlockContext, Outcome, returned, thrown, unfinished}
use bytecoin.Reorganisation.Soundness.{find_tx}
use bytecoin.Reorganisation.Switch.{add_new_block}
use bytecoin.Validation.{chain_validator}

-- The loop of `check_tx_inputs_keyimages_diff`, with the images that it has met.
unfoldable pub images_differ : NumberSet → List TransactionInput → Bool
unfolding add
images_differ ki [] = true
images_differ ki (TransactionInput.to_key t ∷ vin) =
    let rest = images_differ (add ki t.key_image) vin in if ki t.key_image then false else rest
images_differ ki (TransactionInput.multisignature _ ∷ vin) = images_differ ki vin
images_differ ki (TransactionInput.generate _ ∷ vin) = images_differ ki vin
images_differ ki (TransactionInput.to_script ∷ vin) = images_differ ki vin
images_differ ki (TransactionInput.to_script_hash ∷ vin) = images_differ ki vin

unfoldable pub check_tx_inputs_keyimages_diff : Transaction → Bool
unfolding images_differ
check_tx_inputs_keyimages_diff tx = images_differ (λ k. false) tx.vin

-- `check_key` is the curve check of src/crypto.
module _ (env : Environment) (c : Currency) (check_key : PublicKey → Bool) where
  unfoldable pub check_tx_semantic : Blockchain → Transaction → Bool → Bool
  unfolding check_inputs_types_supported check_outs_valid check_money_overflow
      get_inputs_money_amount get_outs_money_amount check_tx_inputs_keyimages_diff
      check_multisignature_inputs_diff
  check_tx_semantic s tx kept_by_block =
      if length tx.vin == 0
      then false
      else if not (check_inputs_types_supported tx)
      then false
      else if not (check_outs_valid check_key tx)
      then false
      else if not (check_money_overflow tx)
      then false
      else if leb (get_inputs_money_amount tx) (get_outs_money_amount tx)
      then false
      else if not kept_by_block
          && leb (sub64 s.current_block_cumul_sz_limit c.miner_tx_blob_reserved_size)
              (env.blob_size tx)
      then false
      else if not (check_tx_inputs_keyimages_diff tx)
      then false
      else check_multisignature_inputs_diff tx

  -- `add_new_tx`; the chain is the validator of the pool.
  unfoldable pub add_new_tx :
      Chains Pool
      → Transaction
      → Hash
      → ℕ
      → VerificationContext
      → Bool
      → Chains Pool × VerificationContext × Bool
  unfolding have_tx add_tx
  add_new_tx s tx tx_hash blob_size tvc kept_by_block =
      let (q, tvc', added) =
        add_tx c (chain_validator env c s.main) s.pool tx tx_hash blob_size tvc kept_by_block
          env.now in
      elim (s.main.indices.transaction_map tx_hash) [
        | some _ ↦ (s, tvc, true)
        | none ↦
            if have_tx s.pool tx_hash then (s, tvc, true) else (record s { pool = q }, tvc', added)
      ]

  -- `handle_incoming_tx` of a blob of the given size; `parsed` is what parse_tx_from_blob makes of it,
  -- `none` where that fails.
  unfoldable pub handle_incoming_tx :
      Chains Pool
      → ℕ
      → Option (Transaction × Hash)
      → Bool
      → Chains Pool × VerificationContext × Bool
  unfolding check_tx_semantic add_new_tx
  handle_incoming_tx s blob_size parsed kept_by_block =
      if ltb c.max_tx_size blob_size then (s, failed fresh_context, false) else elim parsed [
        | none ↦ (s, failed fresh_context, false)
        | some (tx, tx_hash) ↦
            if not (check_tx_semantic s.main tx kept_by_block)
            then (s, failed fresh_context, false)
            else add_new_tx s tx tx_hash blob_size fresh_context kept_by_block
      ]

-- `handle_incoming_block` without control of the miner and without relay: the result of
-- `add_new_block` is not looked at. The chain asks the pool to keep transactions that are returned to
-- it, and the pool asks the chain about their inputs; `v` stands for the answers, which the pool only
-- notes in such a case.
unfoldable pub handle_incoming_block :
    Environment
    → Currency
    → TransactionValidator
    → ℕ
    → Chains Pool
    → Block
    → BlockContext
    → Chains Pool × BlockContext × Outcome
unfolding add_new_block
handle_incoming_block env c v depth s b bvc =
    let (t, bvc', q) = add_new_block (chain_pool c v env) env c find_tx depth s b bvc in
    elim q [
      | returned _ ↦ (t, bvc', returned true)
      | thrown ↦ (t, bvc', thrown)
      | unfinished ↦ (t, bvc', unfinished)
    ]

-- ===== src/Validation.antt =====
-- How the main chain checks the transactions of the pool: the members of interface
-- ITransactionValidator in src/cryptonote_core/blockchain_storage.cpp.
pub mod Freshness
pub mod Readiness
pub mod Proposals
use bytecoin.Common.{
  ℕ, Bool, true, false, not, ◌&&◌, Option, none, some, List, [], ◌∷◌, max, ltb, leb, ◌==◌,
  if◌then◌else◌, length, get_elem?,
}
use bytecoin.Common.Word.{sub64}
use bytecoin.Currency.{Currency}
use bytecoin.Transaction.{Hash, Signature, Transaction, TransactionInput, TransactionInputToKey}
use bytecoin.Transaction.Offsets.{relative_output_offsets_to_absolute}
use bytecoin.BlockIndex.{null_hash, get_block_id, get_tail_id}
use bytecoin.Blocks.{Blockchain, Environment}
use bytecoin.Blocks.Inputs.{
  Verdict, holds, denied, failure, scan_outputkeys_for_indexes, check_input, check_tx_inputs,
}
use bytecoin.Pool.{BlockInfo, no_block, TransactionValidator}

unfoldable pub have_tx_keyimges_as_spent : Blockchain → List TransactionInput → Bool
have_tx_keyimges_as_spent s [] = false
have_tx_keyimges_as_spent s (TransactionInput.to_key t ∷ vin) =
    let rest = have_tx_keyimges_as_spent s vin in
    if s.indices.spent_keys t.key_image then true else rest
have_tx_keyimges_as_spent s (TransactionInput.multisignature _ ∷ vin) =
    have_tx_keyimges_as_spent s vin
have_tx_keyimges_as_spent s (TransactionInput.generate _ ∷ vin) = have_tx_keyimges_as_spent s vin
have_tx_keyimges_as_spent s (TransactionInput.to_script ∷ vin) = have_tx_keyimges_as_spent s vin
have_tx_keyimges_as_spent s (TransactionInput.to_script_hash ∷ vin) =
    have_tx_keyimges_as_spent s vin

abbrev pub last_offset : List ℕ → Option ℕ
last_offset [] = none
last_offset (x ∷ []) = some x
last_offset (x ∷ y ∷ xs) = last_offset (y ∷ xs)

-- `*pmax_related_block_height` after the scan of an input that went through: the block of the output
-- at the last offset counts.
unfoldable pub raise_height : Blockchain → TransactionInputToKey → ℕ → ℕ
raise_height s t h = elim (s.indices.outputs t.amount) [
  | none ↦ h
  | some entries ↦ elim (last_offset (relative_output_offsets_to_absolute t.key_offsets)) [
    | none ↦ h
    | some i ↦ elim (get_elem? entries i) [ none ↦ h | some e ↦ max h e.index.block ]
  ]
]

-- A read outside a vector or a failed assertion, after which the program has no result, stands as a
-- refusal here.
abbrev pub accepts : Verdict → Bool
accepts (holds _) = true
accepts denied = false
accepts failure = false

module _ (env : Environment) (c : Currency) (s : Blockchain) where
  unfoldable pub height_after : TransactionInput → ℕ → ℕ
  unfolding scan_outputkeys_for_indexes raise_height
  height_after (TransactionInput.to_key t) h =
      if length t.key_offsets == 0
      then h
      else if s.indices.spent_keys t.key_image
      then h
      else elim (scan_outputkeys_for_indexes env c s t) [
        | holds _ ↦ raise_height s t h
        | denied ↦ h
        | failure ↦ h
      ]
  height_after (TransactionInput.multisignature _) h = h
  height_after (TransactionInput.generate _) h = h
  height_after TransactionInput.to_script h = h
  height_after TransactionInput.to_script_hash h = h

  -- `*pmax_used_block_height` after the loop of `check_tx_inputs`, which may have ended early.
  unfoldable pub used_height : Hash → List TransactionInput → List (List Signature) → ℕ → ℕ
  unfolding height_after check_input
  used_height prefix [] sigs h = h
  used_height prefix (i ∷ vin) [] h = h
  used_height prefix (i ∷ vin) (sig ∷ sigs) h =
      let h' = height_after i h in
      let rest = used_height prefix vin sigs h' in
      elim (check_input env c s prefix i sig) [ holds _ ↦ rest | denied ↦ h' | failure ↦ h' ]

  -- `check_tx_inputs` with the block of the greatest height, whose id is written on success.
  unfoldable pub check_tx_inputs_used : Transaction → BlockInfo → Verdict × BlockInfo
  unfolding used_height check_tx_inputs
  check_tx_inputs_used tx used =
      let h = used_height (env.prefix_hash tx) tx.vin tx.signatures 0 in
      elim (check_tx_inputs env c s tx) [
        | holds _ ↦ elim (get_elem? s.blocks h) [
          | none ↦ (denied, record { height = h; id = used.id })
          | some b ↦ (holds tt, record { height = h; id = env.block_hash b.bl })
        ]
        | denied ↦ (denied, record { height = h; id = used.id })
        | failure ↦ (failure, record { height = h; id = used.id })
      ]

  -- `get_tail_id` with the height.
  abbrev pub tail_info : BlockInfo
  tail_info = record { height = sub64 (length s.blocks) 1; id = get_tail_id s.block_index }

  -- The check that writes `lastFailed` where it fails.
  unfoldable pub check_again : Transaction → BlockInfo → BlockInfo → Verdict × BlockInfo × BlockInfo
  unfolding check_tx_inputs_used
  check_again tx used last_failed =
      let (r, used') = check_tx_inputs_used tx used in
      elim r [
        | holds _ ↦ (holds tt, used', last_failed)
        | denied ↦ (denied, used', tail_info)
        | failure ↦ (failure, used', last_failed)
      ]

  -- Whether the chain has the block at its height.
  abbrev pub is_at_height : BlockInfo → Bool
  is_at_height b = get_block_id s.block_index b.height == b.id

  -- `checkTransactionInputs` with the two blocks.
  unfoldable pub check_transaction_inputs :
      Transaction → BlockInfo → BlockInfo → Verdict × BlockInfo × BlockInfo
  unfolding check_again get_block_id
  check_transaction_inputs tx used last_failed =
      if used.id == null_hash
      then (if not (last_failed.id == null_hash)
            && ltb last_failed.height (length s.blocks)
            && is_at_height last_failed
          then (denied, used, last_failed)
          else check_again tx used last_failed)
      else if leb (length s.blocks) used.height
      then (denied, used, last_failed)
      else if is_at_height used
      then (holds tt, used, last_failed)
      else if is_at_height last_failed
      then (denied, used, last_failed)
      else check_again tx used last_failed

  -- The chain as the validator of the pool. A new transaction comes with an empty block.
  abbrev pub chain_validator : TransactionValidator
  chain_validator = record {
    check_transaction_inputs =
        λ tx. let (r, used) = check_tx_inputs_used tx no_block in (accepts r, used);
    check_transaction_inputs_again = λ tx used last_failed.
        let (r, used', failed') = check_transaction_inputs tx used last_failed in
        (accepts r, used', failed');
    have_spent_key_images = λ tx. have_tx_keyimges_as_spent s tx.vin;
  }

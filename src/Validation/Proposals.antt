-- ===== src/Validation/Proposals.antt =====
-- The pool with the chain as its validator: what it lets in, and what it proposes for a block.
use bytecoin.Common.{ℕ, ◌+◌, ◌^◌, ◌≤◌, ◌<◌, ◌≡◌, refl, true, false, ◌⊎◌, List, [], All}
use bytecoin.Currency.{Currency}
use bytecoin.Transaction.{Hash, Transaction}
use bytecoin.Storage.Usage.{AreUnused, multisignature_inputs}
use bytecoin.Storage.Spending.{key_images, AreUnspent}
use bytecoin.Blocks.{Blockchain, Environment}
use bytecoin.Pool.{Pool, TransactionDetails, VerificationContext, no_block}
use bytecoin.Pool.Calls.{add_tx}
use bytecoin.Pool.Consistency.{HasDistinctInputs, IsConsistent}
use bytecoin.Pool.Entry.{add_tx_lem}
use bytecoin.Pool.Filling.{fill_block_template_lem}
use bytecoin.Pool.Template.{fill_block_template, max_template_size}
use bytecoin.Pool.TemplateLaws.{image_weight, ids_of, Picks, finished, left, picked}
use bytecoin.Pool.Totals.{total}
use bytecoin.Validation.{chain_validator}
use bytecoin.Validation.Freshness.{IsSpendable, check_tx_inputs_used-IsSpendable}
use bytecoin.Validation.Readiness.{IsSettled, is_transaction_ready_to_go_lem}

-- No key image of the element is spent on the chain; its outputs of multisignatures are not used, or
-- its inputs were checked with a block that the chain still has.
abbrev pub IsProposable : Blockchain → TransactionDetails → Type 0
IsProposable s d =
    AreUnspent s.indices.spent_keys (key_images d.tx.vin)
    × (IsSettled s d.max_used_block
        ⊎ AreUnused s.indices.multisignature_outputs (multisignature_inputs d.tx.vin))

module _ (env : Environment) (c : Currency) (s : Blockchain) where
  Picks-IsProposable :
      {limit : ℕ} {before ds cs : List TransactionDetails}
      → Picks (chain_validator env c s) limit before ds cs
      → All (IsProposable s) cs
  Picks-IsProposable (finished _) = tt
  Picks-IsProposable (left _ d reason picks) = Picks-IsProposable picks
  Picks-IsProposable (picked _ d fit ready apart picks) =
      (is_transaction_ready_to_go_lem env c s d ready, Picks-IsProposable picks)

  -- With the main chain as the validator, and from a consistent pool whose sizes do not overflow
  -- on top of the limit, the template holds the hashes of the transactions that are picked out of
  -- the pool one after the other, in the order of the container, where they are ready, fit and
  -- spend nothing that one before spends; they spend no key image that is spent on the chain, and
  -- none twice all together; for each of them the multisignature outputs that it names are there
  -- and not used, or its details name a block that the chain has at its height.
  pub fill_block_template-IsProposable :
      (p : Pool) (median_size max_cumulative_size : ℕ)
      → IsConsistent p
      → let limit = max_template_size c median_size max_cumulative_size in
        let (_, t) =
          fill_block_template (chain_validator env c s) c p median_size max_cumulative_size in
        All (λ d. limit + d.blob_size < 2 ^ 64) p.transactions
        → (cs : List TransactionDetails) × Picks
            (chain_validator env c s)
            limit
            []
            p.transactions
            cs
          × (t.tx_hashes ≡ ids_of cs)
          × All (IsProposable s) cs
          × ((k : ℕ) → total (image_weight k) cs ≤ 1)
  fill_block_template-IsProposable p median_size max_cumulative_size ok small =
      let (cs, picks, hashes, _, _, _, images, _) =
        fill_block_template_lem (chain_validator env c s) c p median_size max_cumulative_size ok
          small in
      (cs, picks, hashes, Picks-IsProposable picks, images)

  -- A transaction that no block keeps and that enters a consistent pool spends nothing that is spent on
  -- the chain.
  pub add_tx-IsSpendable :
      (p : Pool) (tx : Transaction) (id : Hash) (blob_size : ℕ) (tvc : VerificationContext)
      (now : ℕ)
      → IsConsistent p
      → HasDistinctInputs tx
      → (add_tx c (chain_validator env c s) p tx id blob_size tvc false now).2 ≡ true
      → IsSpendable s tx
  add_tx-IsSpendable p tx id blob_size tvc now ok distinct added =
      let (enters, _) =
        add_tx_lem c (chain_validator env c s) p tx id blob_size tvc false now ok distinct in
      check_tx_inputs_used-IsSpendable env c s tx no_block ((enters.0 added).valid refl)

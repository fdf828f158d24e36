-- ===== src/Blocks/Restore.antt =====
-- What a refused block leaves in the indices, for a block that has its coinbase transaction only.
use bytecoin.Common.{
  subst, ℕ, ◌%◌, ◌^◌, ◌≡◌, sym, ap, ◌∙◌, true, false, none, some, List, [], ◌∷◌, length,
}
use bytecoin.Common.Map.{put_self}
use bytecoin.Currency.{Currency}
use bytecoin.Transaction.{Transaction, TransactionInput, Hash}
use bytecoin.Storage.{Indices, TransactionIndex}
use bytecoin.Storage.Push.{pushed, push_transaction}
use bytecoin.Storage.Outs.{AreFilled}
use bytecoin.Storage.Usage.{AreUnused, multisignature_inputs}
use bytecoin.Storage.Undo.{push_transaction-pushed, pop_transaction-push_transaction}
use bytecoin.Blocks.{Block, Blockchain, Environment, PoolOperations}
use bytecoin.Blocks.Header.{rejected, check_header}
use bytecoin.Blocks.Rules.{check_cumulative_block_size}
use bytecoin.Blocks.PushBlock.{
  push_entry, pop_transactions, give_up, load_transactions, finish_block, push_block,
}
use bytecoin.Blocks.Ending.{judge}

abbrev pub miner_index : Blockchain → TransactionIndex
miner_index s = record { block = length s.blocks % 2 ^ 32; transaction = 0 }

pub no_multisignature :
    (i : Indices) (tx : Transaction) (h : ℕ)
    → tx.vin ≡ TransactionInput.generate h ∷ []
    → AreUnused i.multisignature_outputs (multisignature_inputs tx.vin)
no_multisignature i tx h e =
    subst (λ vin. AreUnused i.multisignature_outputs (multisignature_inputs vin)) (sym e) tt

entered :
    (i i' : Indices) (tx : Transaction) (hash : Hash) (at : TransactionIndex) (gs : List ℕ)
    → push_transaction i tx hash at ≡ (i', pushed gs)
    → push_entry i tx hash at ≡ (i', some (record { tx = tx; global_output_indexes = gs }))
unfolding push_entry
entered i i' tx hash at gs m = rw (m, push_entry)

module _ {P : Type 0} (pool : PoolOperations P) (env : Environment) (c : Currency) where
  reaches_finish :
      (s : Blockchain) (p : P) (b : Block) (i : Indices) (gs : List ℕ)
      → check_header env c s b ≡ none
      → b.tx_hashes ≡ []
      → push_transaction s.indices b.miner_tx (env.transaction_hash b.miner_tx) (miner_index s)
        ≡ (i, pushed gs)
      → push_block pool env c s p b
        ≡ finish_block pool env c
            (record s { indices = i })
            p
            b
            (record { tx = b.miner_tx; global_output_indexes = gs })
            []
            (env.blob_size b.miner_tx)
            0
  unfolding push_block load_transactions
  reaches_finish s p b i gs h t m =
      let entry =
        entered s.indices i b.miner_tx (env.transaction_hash b.miner_tx) (miner_index s) gs m in
      rw (h, push_block)
        (rw (m, push_entry)
          (rw (t, load_transactions)
            (λ k.
              finish_block pool env c (record s { indices = (entry k).0 }) p b
                (record { tx = b.miner_tx; global_output_indexes = gs }) []
                (env.blob_size b.miner_tx) 0)))

  -- For indices with no empty vector and a block with no transactions but its coinbase, which has
  -- the one input that generates, that passes the tests of its header and the push of its
  -- coinbase: where the coinbase is then found wrong, everything is again as it was before. Where
  -- the block is found too big, it is refused too, but its coinbase transaction stays in the
  -- indices.
  pub push_block-refused :
      (s : Blockchain) (p : P) (b : Block) (i : Indices) (gs : List ℕ) (h : ℕ)
      → AreFilled (s.indices.outputs, s.indices.multisignature_outputs)
      → b.miner_tx.vin ≡ TransactionInput.generate h ∷ []
      → check_header env c s b ≡ none
      → b.tx_hashes ≡ []
      → push_transaction s.indices b.miner_tx (env.transaction_hash b.miner_tx) (miner_index s)
        ≡ (i, pushed gs)
      → (check_cumulative_block_size c (env.blob_size b.miner_tx) (length s.blocks) ≡ true
          → judge pool env c s b (env.blob_size b.miner_tx) 0 ≡ none
          → push_block pool env c s p b ≡ (s, p, rejected))
        × (check_cumulative_block_size c (env.blob_size b.miner_tx) (length s.blocks) ≡ false
            → (push_block pool env c s p b ≡ (record s { indices = i }, p, rejected))
              × (i.transaction_map (env.transaction_hash b.miner_tx) ≡ some (miner_index s)))
  unfolding finish_block give_up pop_transactions
  push_block-refused s p b i gs h f v head t m =
      let hash = env.transaction_hash b.miner_tx in
      let u = no_multisignature s.indices b.miner_tx h v in
      let r = reaches_finish s p b i gs head t m in
      (
        λ fits wrong.
            let undone =
              pop_transaction-push_transaction s.indices i b.miner_tx hash (miner_index s) gs f u
                m in
            r ∙ (rw (fits, finish_block) (rw wrong (rw (undone, give_up, pop_transactions)))),
        λ big.
            let (_, _, (keys, _, e)) =
              push_transaction-pushed s.indices i b.miner_tx hash (miner_index s) gs u m in
            (
              r ∙ (rw (big, finish_block)),
              ap (λ (x : Indices). x.transaction_map hash) e
                  ∙ put_self s.indices.transaction_map hash (miner_index s),
            ),
      )

-- ===== src/Blocks/PushLaws.antt =====
-- What the chain has after a block was added.
use bytecoin.Common.{
  subst, ℕ, ◌+◌, ◌%◌, ◌^◌, ◌≤◌, ◌≡◌, refl, sym, ap, ◌∙◌, inl, inr, some, List, [], ◌∷◌, ◌++◌,
  length, leb→le, arith,
}
use bytecoin.Common.Word.{add64}
use bytecoin.Currency.{Currency, max_block_cumulative_size}
use bytecoin.Currency.Reward.{BlockReward}
use bytecoin.Transaction.Amounts.{add_outs}
use bytecoin.BlockIndex.{push}
use bytecoin.Blocks.{
  Block, Blockchain, BlockEntry, TransactionEntry, Environment, PoolOperations, TakenTransaction,
}
use bytecoin.Blocks.Header.{BlockResult, added}
use bytecoin.Blocks.Rules.{check_cumulative_block_size, update_next_comulative_size_limit}
use bytecoin.Blocks.RuleLaws.{
  granted, IsAcceptable, check_header-IsAcceptable, check_header-ne_added,
  validate_miner_transaction_lem,
}
use bytecoin.Blocks.PushBlock.{
  Moved, entries, loaded, finish_block, push_block, append_block, last_coins,
}
use bytecoin.Blocks.Ending.{finish_block-cases, push_block-cases, new_entry}
use bytecoin.Blocks.PoolKeeping.{push_entry-tx}
use bytecoin.Blocks.Taking.{
  Taken, total_size, total_fee, taken_txs, entry_txs, AreTaken, load_transactions-AreTaken,
}
use bytecoin.Blocks.Unchanged.{Keeps, give_up-unchanged, loads}

-- The entry that a chain `x` has on top of those of `s`, made of the transactions that were moved.
abbrev IsFinished :
    Environment
    → Currency
    → Blockchain
    → Block
    → TransactionEntry
    → List Moved
    → ℕ
    → ℕ
    → Blockchain
    → BlockEntry
    → Type 0
IsFinished env c s b m moved size fee x e =
    (x.blocks ≡ s.blocks ++ e ∷ [])
    × (x.block_index ≡ (push s.block_index (env.block_hash b)).0)
    × (e.bl ≡ b)
    × (size ≤ max_block_cumulative_size c (length s.blocks))
    × (e.block_cumulative_size ≡ size)
    × (e.transactions ≡ m ∷ entries moved)
    × ((r : BlockReward) × (granted c s (length s.blocks) size (last_coins s.blocks) fee ≡ some r)
        × (add_outs 0 b.miner_tx.vout ≡ r.reward)
        × (e.already_generated_coins ≡ add64 (last_coins s.blocks) r.emission_change))

-- The entry that a chain `x` has on top of those of `s`, within the limit of its size, with the
-- transactions that are taken from the pool `p`, which leaves `q`, and a coinbase that spends the
-- reward for their size and fees.
abbrev pub HasEntry :
    {P : Type 0}
    → PoolOperations P
    → Environment
    → Currency
    → Blockchain
    → P
    → Block
    → Blockchain
    → P
    → BlockEntry
    → Type 0
HasEntry pool env c s p b x q e =
    (x.blocks ≡ s.blocks ++ e ∷ [])
    × (x.block_index ≡ (push s.block_index (env.block_hash b)).0)
    × (e.bl ≡ b)
    × (e.block_cumulative_size ≤ max_block_cumulative_size c (length s.blocks))
    × ((ts : List TakenTransaction) × Taken pool p b.tx_hashes ts q
        × (entry_txs e.transactions ≡ b.miner_tx ∷ taken_txs ts)
        × (e.block_cumulative_size % 2 ^ 64 ≡ (env.blob_size b.miner_tx + total_size ts) % 2 ^ 64)
        × ((r : BlockReward) × (granted c s (length s.blocks) e.block_cumulative_size
                (last_coins s.blocks) (total_fee ts % 2 ^ 64)
              ≡ some r)
            × (add_outs 0 b.miner_tx.vout ≡ r.reward)
            × (e.already_generated_coins ≡ add64 (last_coins s.blocks) r.emission_change)))

module _ {P : Type 0} (pool : PoolOperations P) (env : Environment) (c : Currency) where
  abbrev IsEntered :
      Block
      → TransactionEntry
      → List Moved
      → ℕ
      → ℕ
      → P
      → Blockchain × P × BlockResult
      → Blockchain
      → Type 0
  IsEntered b m moved size fee p r s =
      r.2 ≡ added → (r.1 ≡ p) × ((e : BlockEntry) × IsFinished env c s b m moved size fee r.0 e)

  finish_block-IsEntered :
      (s : Blockchain) (p : P) (b : Block) (m : TransactionEntry) (moved : List Moved)
      (size fee : ℕ)
      → IsEntered b m moved size fee p (finish_block pool env c s p b m moved size fee) s
  unfolding append_block update_next_comulative_size_limit check_cumulative_block_size
  finish_block-IsEntered s p b m moved size fee =
      elim (finish_block-cases pool env c s p b m moved size fee) [
        | inl (_, e) ↦ subst (λ r. IsEntered b m moved size fee p r s) (sym e) (λ n. cc n)
        | inr (_, inl e) ↦
            subst (λ r. IsEntered b m moved size fee p r s) (sym e)
              (λ n. absurd (
                (give_up-unchanged pool s p moved b.miner_tx (env.transaction_hash b.miner_tx)).0
                  n))
        | inr (fits, inr (r, (j, e))) ↦
            let (g, spent) =
              (validate_miner_transaction_lem c s b (length s.blocks) size (last_coins s.blocks) fee
                  r).0
                j in
            subst (λ r. IsEntered b m moved size fee p r s) (sym e)
              (λ n. (
                refl,
                (
                  new_entry pool env c s b m moved size r,
                  (
                    refl,
                    refl,
                    refl,
                    leb→le size (max_block_cumulative_size c (length s.blocks)) fits,
                    refl,
                    refl,
                    (r, g, spent, refl),
                  ),
                ),
              ))
      ]

  finished-HasEntry :
      (s : Blockchain) (p q : P) (b : Block) (m : TransactionEntry) (moved : List Moved)
      (size fee : ℕ) (x : Blockchain) (e : BlockEntry)
      → m.tx ≡ b.miner_tx
      → AreTaken pool p b.tx_hashes [] (env.blob_size b.miner_tx) 0 (loaded s q moved size fee)
      → IsFinished env c s b m moved size fee x e
      → HasEntry pool env c s p b x q e
  finished-HasEntry s p q b m moved size fee x e miner (ts, calls, txs, sizes, fees)
        (blocks, index, same, fits, sized, made, (r, g, spent, coins)) =
      let fee_sum : fee ≡ total_fee ts % 2 ^ 64 = omega (arith, fees) in
      (
        blocks,
        index,
        same,
        subst (λ k. k ≤ max_block_cumulative_size c (length s.blocks)) (sym sized) fits,
        (
          ts,
          calls,
          ap entry_txs made ∙ (λ i. miner i ∷ txs i),
          ap (λ (k : ℕ). k % 2 ^ 64) sized ∙ sizes,
          (
            r,
            (λ i. granted c s (length s.blocks) (sized i) (last_coins s.blocks) (sym fee_sum i))
                ∙ g,
            spent,
            coins,
          ),
        ),
      )

  -- A block is added only if its header passes every test. The chain has then one entry more, of
  -- that block; its transactions are the coinbase and those that the pool gives for its hashes,
  -- one call of take_tx for each; the size that it keeps is in 64 bits the sum of their sizes and
  -- not above the limit at its height; the coinbase spends exactly the reward that the rules grant
  -- for that size and the sum of their fees in 64 bits, and the coins in circulation grow by the
  -- emission of that reward.
  pub push_block-added :
      (s : Blockchain) (p : P) (b : Block)
      → (push_block pool env c s p b).2 ≡ added
      → IsAcceptable env c s b
        × ((e : BlockEntry) × HasEntry pool env c s p b
              (push_block pool env c s p b).0
              (push_block pool env c s p b).1
              e)
  push_block-added s p b n = elim (push_block-cases pool env c s p b) [
    | inl (r, (h, e)) ↦
        absurd (check_header-ne_added env c s b (h ∙ ap some (sym (ap (λ x. x.2) e) ∙ n)))
    | inr (_, inl (i, e)) ↦ let n' = rw e at n in cc n'
    | inr (h, inr (i, (m, (_, inl (s', (p', (r, (l, e)))))))) ↦
        let k = subst (Keeps pool (record s { indices = i })) l (loads pool env c s p b i) in
        absurd (k.0 (sym (ap (λ x. x.2) e) ∙ n))
    | inr (h, inr (i, (m, (pushed, inr (s', (p', (moved, (size, (fee, (l, e)))))))))) ↦
        let hash = env.transaction_hash b.miner_tx in
        let k = subst (Keeps pool (record s { indices = i })) l (loads pool env c s p b i) in
        let taken = subst (AreTaken pool p b.tx_hashes [] (env.blob_size b.miner_tx) 0) l (
          load_transactions-AreTaken pool env c b.miner_tx hash b.tx_hashes
            (record s { indices = i }) p 0 [] (env.blob_size b.miner_tx) 0 (omega arith)) in
        let miner = push_entry-tx s.indices b.miner_tx hash _ m (ap (λ x. x.1) pushed) in
        let (pools, (x, finished)) =
          subst (IsEntered b m moved size fee p' (push_block pool env c s p b)) k
            (subst (λ r. IsEntered b m moved size fee p' r s') (sym e)
              (finish_block-IsEntered s' p' b m moved size fee))
            n in
        (
          check_header-IsAcceptable env c s b h,
          (
            x,
            subst (λ q. HasEntry pool env c s p b (push_block pool env c s p b).0 q x) (sym pools)
                (finished-HasEntry s p p' b m moved size fee (push_block pool env c s p b).0 x miner
                  taken finished),
          ),
        )
  ]

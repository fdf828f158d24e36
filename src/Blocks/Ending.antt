-- ===== src/Blocks/Ending.antt =====
-- How a call of `pushBlock` goes, in cases.
use bytecoin.Common.{
  ℕ, ◌%◌, ◌^◌, ◌≡◌, refl, ◌⊎◌, inl, inr, true, false, Option, none, some, List, [], ◌∷◌,
  Option-cases, Bool-cases, length,
}
use bytecoin.Common.Word.{add64}
use bytecoin.Currency.{Currency}
use bytecoin.Currency.Reward.{BlockReward}
use bytecoin.Storage.{Indices}
use bytecoin.Blocks.{Block, Blockchain, BlockEntry, TransactionEntry, Environment, PoolOperations}
use bytecoin.Blocks.Header.{BlockResult, added, rejected, exception, check_header}
use bytecoin.Blocks.Rules.{
  check_cumulative_block_size, validate_miner_transaction, get_difficulty_for_next_block,
}
use bytecoin.Blocks.PushBlock.{
  Moved, push_entry, give_up, LoadResult, loaded, ended, load_transactions, finish_block,
  push_block, append_block, entries, last_coins, last_difficulty,
}

module _ {P : Type 0} (pool : PoolOperations P) (env : Environment) (c : Currency) where
  abbrev pub new_entry :
      Blockchain → Block → TransactionEntry → List Moved → ℕ → BlockReward → BlockEntry
  new_entry s b m moved size r = record {
    bl = b;
    height = length s.blocks % 2 ^ 32;
    block_cumulative_size = size;
    cumulative_difficulty =
        add64 (get_difficulty_for_next_block c s.blocks) (last_difficulty s.blocks);
    already_generated_coins = add64 (last_coins s.blocks) r.emission_change;
    transactions = m ∷ entries moved;
  }

  abbrev pub judge : Blockchain → Block → ℕ → ℕ → Option BlockReward
  judge s b size fee =
      validate_miner_transaction c s b (length s.blocks) size (last_coins s.blocks) fee

  abbrev pub FinishCases : Blockchain → P → Block → TransactionEntry → List Moved → ℕ → ℕ → Type 0
  FinishCases s p b m moved size fee =
      ((check_cumulative_block_size c size (length s.blocks) ≡ false)
        × (finish_block pool env c s p b m moved size fee ≡ (s, p, rejected)))
      ⊎ ((check_cumulative_block_size c size (length s.blocks) ≡ true)
          × ((finish_block pool env c s p b m moved size fee
                ≡ give_up pool s p moved b.miner_tx (env.transaction_hash b.miner_tx))
              ⊎ ((r : BlockReward) × ((judge s b size fee ≡ some r)
                    × (finish_block pool env c s p b m moved size fee
                        ≡ (append_block pool env c s (new_entry s b m moved size r), p, added))))))

  pub finish_block-cases :
      (s : Blockchain) (p : P) (b : Block) (m : TransactionEntry) (moved : List Moved)
      (size fee : ℕ)
      → FinishCases s p b m moved size fee
  unfolding finish_block
  finish_block-cases s p b m moved size fee =
      elim (Bool-cases (check_cumulative_block_size c size (length s.blocks))) [
        | inr e ↦ inl (e, rw (e, finish_block))
        | inl e ↦ inr (
          e,
          elim (Option-cases (judge s b size fee)) [
            | inl j ↦ inl (rw (e, finish_block) (rw j))
            | inr (r, j) ↦ inr (r, (j, rw (e, finish_block) (rw j)))
          ],
        )
      ]

  abbrev pub load : Blockchain → P → Block → Indices → LoadResult pool
  load s p b i =
      load_transactions pool env c (record s { indices = i }) p b.miner_tx
        (env.transaction_hash b.miner_tx) 0 [] (env.blob_size b.miner_tx) 0 b.tx_hashes

  LoadResult-cases :
      (r : LoadResult pool)
      → ((s : Blockchain) × ((p : P) × ((e : BlockResult) × (r ≡ ended s p e))))
        ⊎ ((s : Blockchain) × ((p : P) × ((moved : List Moved) × ((size : ℕ) × ((fee : ℕ) × (r
                      ≡ loaded s p moved size fee))))))
  LoadResult-cases (ended s p e) = inl (s, (p, (e, refl)))
  LoadResult-cases (loaded s p moved size fee) = inr (s, (p, (moved, (size, (fee, refl)))))

  -- Once the coinbase transaction is pushed.
  abbrev pub LoadCases : Blockchain → P → Block → Indices → TransactionEntry → Type 0
  LoadCases s p b i m =
      ((s' : Blockchain) × ((p' : P) × ((e : BlockResult) × ((load s p b i ≡ ended s' p' e)
              × (push_block pool env c s p b ≡ (s', p', e))))))
      ⊎ ((s' : Blockchain) × ((p' : P) × ((moved : List Moved) × ((size : ℕ) × ((fee : ℕ) × ((load s
                        p b i
                      ≡ loaded s' p' moved size fee)
                    × (push_block pool env c s p b
                        ≡ finish_block pool env c s' p' b m moved size fee)))))))

  abbrev pub push_miner : Blockchain → Block → Indices × Option TransactionEntry
  push_miner s b =
      push_entry s.indices b.miner_tx (env.transaction_hash b.miner_tx)
        (record { block = length s.blocks % 2 ^ 32; transaction = 0 })

  abbrev pub PushCases : Blockchain → P → Block → Type 0
  PushCases s p b =
      ((r : BlockResult) × ((check_header env c s b ≡ some r)
          × (push_block pool env c s p b ≡ (s, p, r))))
      ⊎ ((check_header env c s b ≡ none)
          × (((i : Indices) × (push_block pool env c s p b
                  ≡ (record s { indices = i }, p, exception)))
              ⊎ ((i : Indices) × ((m : TransactionEntry) × ((push_miner s b ≡ (i, some m))
                      × LoadCases s p b i m)))))

  pub push_block-cases : (s : Blockchain) (p : P) (b : Block) → PushCases s p b
  unfolding push_block
  push_block-cases s p b = elim (Option-cases (check_header env c s b)) [
    | inr (r, h) ↦ inl (r, (h, rw (h, push_block)))
    | inl h ↦
        let i = (push_miner s b).0 in
        inr (
          h,
          elim (Option-cases (push_miner s b).1) [
            | inl n ↦ inl (i, rw (h, push_block) (rw n))
            | inr (m, n) ↦ inr (
              i,
              (
                m,
                (
                  (λ k. (i, n k)),
                  elim (LoadResult-cases (load s p b i)) [
                    | inl (s', (p', (e, l))) ↦
                        inl (s', (p', (e, (l, rw (h, push_block) (rw n (rw l))))))
                    | inr (s', (p', (moved, (size, (fee, l))))) ↦
                        inr
                          (s', (p', (moved, (size, (fee, (l, rw (h, push_block) (rw n (rw l))))))))
                  ],
                ),
              ),
            )
          ],
        )
  ]

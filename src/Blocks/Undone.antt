-- ===== src/Blocks/Undone.antt =====
-- A refused block leaves the whole chain as it was, unless it is refused for its size.
use bytecoin.Common.{
  subst, ℕ, ◌≡◌, ◌≢◌, ◌⊎◌, refl, sym, ap, ◌∙◌, inl, inr, false, some, List, [], ◌∷◌, length,
}
use bytecoin.Currency.{Currency}
use bytecoin.Transaction.{Transaction, TransactionInput, Hash}
use bytecoin.Storage.{Indices}
use bytecoin.Storage.Push.{refused, push_transaction}
use bytecoin.Storage.Pop.{pop_transaction}
use bytecoin.Storage.Undo.{pop_transaction-push_transaction}
use bytecoin.Blocks.{Block, Blockchain, TransactionEntry, Environment, PoolOperations}
use bytecoin.Blocks.Header.{BlockResult, added, rejected}
use bytecoin.Blocks.Rules.{check_cumulative_block_size}
use bytecoin.Blocks.PushBlock.{
  Moved, loaded, finish_block, push_block, give_up, pop_transactions, ended_by,
}
use bytecoin.Blocks.Ending.{finish_block-cases, push_block-cases, push_miner, load}
use bytecoin.Blocks.Unchanged.{push_block-unchanged}
use bytecoin.Blocks.Restore.{miner_index, no_multisignature}
use bytecoin.Blocks.Moving.{
  IsFilled, IsUndoable, Restores, NoneRefused, push_transaction-IsFilled, push_entry-pushed,
  give_up-Restores, load_transactions-Restores,
}

module _ {P : Type 0} (pool : PoolOperations P) (env : Environment) (c : Currency) where
  -- Every transaction of the block is moved, and the block is then found too big.
  abbrev pub IsTooBig : Blockchain → P → Block → Type 0
  IsTooBig s p b =
      (s' : Blockchain) × ((p' : P) × ((moved : List Moved) × ((size : ℕ) × ((fee : ℕ) × ((load pool
                    env c s p b (push_miner pool env c s b).0
                  ≡ loaded s' p' moved size fee)
                × (check_cumulative_block_size c size (length s'.blocks) ≡ false))))))

  abbrev Returns : Blockchain → Blockchain × P × BlockResult → Type 0
  Returns s r = r.2 ≡ rejected → r.0.indices ≡ s.indices

  miner-IsUndoable :
      (s : Blockchain) (b : Block) (i : Indices)
      → pop_transaction i b.miner_tx (env.transaction_hash b.miner_tx) ≡ some s.indices
      → IsUndoable pool b.miner_tx (env.transaction_hash b.miner_tx) s.indices i []
  unfolding pop_transactions
  miner-IsUndoable s b i e p = (p, rw (e, pop_transactions))

  given_up-Returns :
      (s : Blockchain) (tx : Transaction) (hash : Hash) (r : Blockchain × P × BlockResult)
      → Restores pool tx hash s.indices (ended_by pool r)
      → Returns s r
  given_up-Returns s tx hash (s', p, e) h = h

  restored_load :
      (s : Blockchain) (p : P) (b : Block) (i : Indices) (m : TransactionEntry) (h : ℕ)
      → IsFilled s.indices
      → b.miner_tx.vin ≡ TransactionInput.generate h ∷ []
      → push_miner pool env c s b ≡ (i, some m)
      → (push_transaction s.indices b.miner_tx (env.transaction_hash b.miner_tx) (miner_index s)).1
        ≢ refused
      → NoneRefused pool b.miner_tx
          (env.transaction_hash b.miner_tx)
          env
          c
          (record s { indices = i })
          p
          0
          b.tx_hashes
      → Restores pool b.miner_tx
          (env.transaction_hash b.miner_tx)
          s.indices
          (load pool env c s p b i)
  restored_load s p b i m h f v e n none =
      let hash = env.transaction_hash b.miner_tx in
      let at = miner_index s in
      let ((gs, g), _) = push_entry-pushed s.indices i b.miner_tx hash at m e n in
      let u = no_multisignature s.indices b.miner_tx h v in
      load_transactions-Restores pool b.miner_tx hash env c b.tx_hashes s.indices
        (record s { indices = i }) p 0 [] (env.blob_size b.miner_tx) 0 none
        (miner-IsUndoable s b i
          (pop_transaction-push_transaction s.indices i b.miner_tx hash at gs f u g))
        (push_transaction-IsFilled s.indices i b.miner_tx hash at gs f u g)

  finished :
      (s s' : Blockchain) (p' : P) (b : Block) (m : TransactionEntry) (moved : List Moved)
      (size fee : ℕ)
      → Restores pool b.miner_tx
          (env.transaction_hash b.miner_tx)
          s.indices
          (loaded s' p' moved size fee)
      → Returns s (finish_block pool env c s' p' b m moved size fee)
        ⊎ (check_cumulative_block_size c size (length s'.blocks) ≡ false)
  finished s s' p' b m moved size fee (u, _) =
      let hash = env.transaction_hash b.miner_tx in
      elim (finish_block-cases pool env c s' p' b m moved size fee) [
        | inl (big, _) ↦ inr big
        | inr (_, inl e) ↦ inl (
            subst (Returns s) (sym e) (
              given_up-Returns s b.miner_tx hash (give_up pool s' p' moved b.miner_tx hash)
                (give_up-Restores pool b.miner_tx hash s.indices s' p' moved u)))
        | inr (_, inr (r, (_, e))) ↦ inl (subst (Returns s) (sym e) (λ n. cc n))
      ]

  returned :
      (s : Blockchain) (p : P) (b : Block) (h : ℕ)
      → IsFilled s.indices
      → b.miner_tx.vin ≡ TransactionInput.generate h ∷ []
      → (push_transaction s.indices b.miner_tx (env.transaction_hash b.miner_tx) (miner_index s)).1
        ≢ refused
      → NoneRefused pool b.miner_tx
          (env.transaction_hash b.miner_tx)
          env
          c
          (record s { indices = (push_miner pool env c s b).0 })
          p
          0
          b.tx_hashes
      → Returns s (push_block pool env c s p b) ⊎ IsTooBig s p b
  returned s p b h f v n none = elim (push_block-cases pool env c s p b) [
    | inl (r, (_, e)) ↦ inl (subst (Returns s) (sym e) (λ k. refl))
    | inr (_, inl (i, e)) ↦ inl (subst (Returns s) (sym e) (λ k. cc k))
    | inr (_, inr (i, (m, (q, rest)))) ↦
        let same = ap (λ x. x.0) q in
        let none' =
          subst
            (λ j.
              NoneRefused pool b.miner_tx (env.transaction_hash b.miner_tx) env c
                (record s { indices = j }) p 0 b.tx_hashes)
            same none in
        let back = restored_load s p b i m h f v q n none' in
        let restores = Restores pool b.miner_tx (env.transaction_hash b.miner_tx) s.indices in
        elim rest [
          | inl (s', (p', (r, (l, e)))) ↦ inl (subst (Returns s) (sym e) (subst restores l back))
          | inr (s', (p', (moved, (size, (fee, (l, e)))))) ↦
              elim (finished s s' p' b m moved size fee (subst restores l back)) [
                | inl k ↦ inl (subst (Returns s) (sym e) k)
                | inr big ↦
                    let l' =
                      subst (λ j. load pool env c s p b j ≡ loaded s' p' moved size fee) (sym same)
                        l in
                    inr (s', (p', (moved, (size, (fee, (l', big))))))
              ]
        ]
  ]

  -- For indices with no empty vector and a block whose coinbase has the one input that generates,
  -- where `pushTransaction` refuses neither the coinbase nor a transaction that the block takes
  -- from the pool and whose inputs pass: a block that is rejected leaves the whole chain as it
  -- was, the indices included, or every one of its transactions was moved and it was then found
  -- too big.
  pub push_block-undone :
      (s : Blockchain) (p : P) (b : Block) (h : ℕ)
      → IsFilled s.indices
      → b.miner_tx.vin ≡ TransactionInput.generate h ∷ []
      → (push_transaction s.indices b.miner_tx (env.transaction_hash b.miner_tx) (miner_index s)).1
        ≢ refused
      → NoneRefused pool b.miner_tx
          (env.transaction_hash b.miner_tx)
          env
          c
          (record s { indices = (push_miner pool env c s b).0 })
          p
          0
          b.tx_hashes
      → (push_block pool env c s p b).2 ≡ rejected
      → ((push_block pool env c s p b).0 ≡ s) ⊎ IsTooBig s p b
  push_block-undone s p b h f v n none r = elim (returned s p b h f v n none) [
    | inl back ↦
        let not_added : (push_block pool env c s p b).2 ≢ added = λ a. cc (a, r) in
        inl (
          push_block-unchanged pool env c s p b not_added
          ∙ ap (λ j. record s { indices = j }) (back r))
    | inr big ↦ inr big
  ]

-- ===== src/Blocks/Unchanged.antt =====
-- A block that is not added leaves the chain as it was, the indices apart.
use bytecoin.Common.{
  subst, ℕ, ◌+◌, ◌%◌, ◌^◌, ◌≡◌, ◌≢◌, refl, sym, ap, ◌∙◌, inl, inr, List, [], ◌∷◌, Option-cases,
}
use bytecoin.Common.Word.{add64}
use bytecoin.Currency.{Currency}
use bytecoin.Transaction.{Hash, Transaction}
use bytecoin.Storage.{Indices}
use bytecoin.Blocks.{Block, Blockchain, TransactionEntry, Environment, PoolOperations}
use bytecoin.Blocks.Header.{BlockResult, added}
use bytecoin.Blocks.Loading.{load_transactions-cases}
use bytecoin.Blocks.Ending.{finish_block-cases, push_block-cases, load}
use bytecoin.Blocks.PushBlock.{
  Moved, pop_transactions, give_up, LoadResult, loaded, ended, ended_by, load_transactions,
  finish_block, push_block,
}

abbrev pub SameChain : Blockchain → Blockchain → Type 0
SameChain s s' = s' ≡ record s { indices = s'.indices }

abbrev pub IsUnchanged : {P : Type 0} → Blockchain → Blockchain × P × BlockResult → Type 0
IsUnchanged s r = r.2 ≢ added → SameChain s r.0

module _ {P : Type 0} (pool : PoolOperations P) where
  abbrev pub Keeps : Blockchain → LoadResult pool → Type 0
  Keeps s (loaded s' p moved size fee) = SameChain s s'
  Keeps s (ended s' p r) = (r ≢ added) × SameChain s s'

  pub give_up-unchanged :
      (s : Blockchain) (p : P) (moved : List Moved) (tx : Transaction) (hash : Hash)
      → Keeps s (ended_by pool (give_up pool s p moved tx hash))
  unfolding give_up
  give_up-unchanged s p moved tx hash =
      elim (Option-cases (pop_transactions pool s.indices p moved tx hash)) [
        | inl e ↦ rw (e, give_up) (λ q. cc q, refl)
        | inr (r, e) ↦ rw (e, give_up) (λ q. cc q, refl)
      ]

  module _ (env : Environment) (c : Currency) where
    load_transactions-Keeps :
        (tx : Transaction) (hash : Hash) (ids : List Hash) (s : Blockchain) (p : P) (n : ℕ)
        (moved : List Moved) (size fee : ℕ)
        → Keeps s (load_transactions pool env c s p tx hash n moved size fee ids)
    unfolding load_transactions
    load_transactions-Keeps tx hash [] s p n moved size fee = refl
    load_transactions-Keeps tx hash (id ∷ ids) s p n moved size fee =
        elim (load_transactions-cases pool env c s p tx hash n moved size fee id ids) [
          | inl (q, e) ↦ subst (Keeps s) (sym e) (give_up-unchanged s q moved tx hash)
          | inr (inl (i, (q, e))) ↦ subst (Keeps s) (sym e) (λ z. cc z, refl)
          | inr (inr (t, (q, (entry, (i, (_, _, _, e)))))) ↦ subst (Keeps s) (sym e) (
              load_transactions-Keeps tx hash ids (record s { indices = i }) q ((n + 1) % 2 ^ 16)
                ((id, entry) ∷ moved) (add64 size t.blob_size) (add64 fee t.fee))
        ]

    given_up :
        (s : Blockchain) (r : Blockchain × P × BlockResult)
        → Keeps s (ended_by pool r)
        → IsUnchanged s r
    given_up s (s', p, r) (_, k) n = k

    pub loads :
        (s : Blockchain) (p : P) (b : Block) (i : Indices)
        → Keeps (record s { indices = i }) (load pool env c s p b i)
    loads s p b i =
        load_transactions-Keeps b.miner_tx (env.transaction_hash b.miner_tx) b.tx_hashes
          (record s { indices = i }) p 0 [] (env.blob_size b.miner_tx) 0

    finish_block-IsUnchanged :
        (s : Blockchain) (p : P) (b : Block) (m : TransactionEntry) (moved : List Moved)
        (size fee : ℕ)
        → IsUnchanged s (finish_block pool env c s p b m moved size fee)
    finish_block-IsUnchanged s p b m moved size fee =
        elim (finish_block-cases pool env c s p b m moved size fee) [
          | inl (_, e) ↦ subst (IsUnchanged s) (sym e) (λ n. refl)
          | inr (_, inl e) ↦ subst (IsUnchanged s) (sym e) (
              given_up s (give_up pool s p moved b.miner_tx (env.transaction_hash b.miner_tx))
                (give_up-unchanged s p moved b.miner_tx (env.transaction_hash b.miner_tx)))
          | inr (_, inr (r, (_, e))) ↦ subst (IsUnchanged s) (sym e) (λ n. absurd (n refl))
        ]

    loaded-IsUnchanged :
        (s s' : Blockchain) (r : Blockchain × P × BlockResult)
        → SameChain s s'
        → IsUnchanged s' r
        → IsUnchanged s r
    loaded-IsUnchanged s s' r e u n =
        u n ∙ ap (λ (x : Blockchain). record x { indices = r.0.indices }) e

    -- A block that is not added, whatever the reason, leaves every part of the chain as it was but
    -- for the indices: the blocks, the block index, the detector and the limit of the size.
    pub push_block-unchanged :
        (s : Blockchain) (p : P) (b : Block)
        → (push_block pool env c s p b).2 ≢ added
        → (push_block pool env c s p b).0
          ≡ record s { indices = (push_block pool env c s p b).0.indices }
    push_block-unchanged s p b = elim (push_block-cases pool env c s p b) [
      | inl (r, (_, e)) ↦ subst (IsUnchanged s) (sym e) (λ n. refl)
      | inr (_, inl (i, e)) ↦ subst (IsUnchanged s) (sym e) (λ n. refl)
      | inr (_, inr (i, (m, (_, inl (s', (p', (r, (l, e)))))))) ↦
          let k = subst (Keeps (record s { indices = i })) l (loads s p b i) in
          subst (IsUnchanged s) (sym e) (λ n. k.1)
      | inr (_, inr (i, (m, (_, inr (s', (p', (moved, (size, (fee, (l, e)))))))))) ↦
          let k = subst (Keeps (record s { indices = i })) l (loads s p b i) in
          subst (IsUnchanged s) (sym e) (
            loaded-IsUnchanged s s' (finish_block pool env c s' p' b m moved size fee) k
              (finish_block-IsUnchanged s' p' b m moved size fee))
    ]

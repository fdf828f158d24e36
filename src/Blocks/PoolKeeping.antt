-- ===== src/Blocks/PoolKeeping.antt =====
-- What pushing and popping blocks does to the transaction pool: a property of the pool that its two
-- operations keep, for transactions of some kind, is kept by `pushBlock`, and by `popBlock` where the
-- transactions of the block are of that kind.
use bytecoin.Common.{
  ℕ, ◌+◌, ◌%◌, ◌^◌, ◌≡◌, sym, subst, inl, inr, none, some, List, [], ◌∷◌, All, Option-cases,
}
use bytecoin.Common.Word.{add64}
use bytecoin.Currency.{Currency}
use bytecoin.Transaction.{Hash, Transaction}
use bytecoin.Storage.{TransactionIndex, Indices}
use bytecoin.Storage.Push.{PushResult, pushed, refused, bad_get, out_of_range, push_transaction}
use bytecoin.Storage.Pop.{pop_transaction}
use bytecoin.Blocks.{
  Block, Blockchain, TransactionEntry, Environment, PoolOperations, TakenTransaction,
}
use bytecoin.Blocks.Inputs.{check_tx_inputs}
use bytecoin.Blocks.Loading.{Verdict-cases, next_index}
use bytecoin.Blocks.Ending.{finish_block-cases, push_block-cases, load}
use bytecoin.Blocks.PushBlock.{
  Moved, push_entry, pop_transactions, pop_progress, give_up, LoadResult, loaded, ended,
  load_transactions, finish_block, push_block,
}

pub push_entry-tx :
    (i : Indices) (tx : Transaction) (hash : Hash) (at : TransactionIndex) (e : TransactionEntry)
    → (push_entry i tx hash at).1 ≡ some e
    → e.tx ≡ tx
unfolding push_entry
push_entry-tx i tx hash at e h = by_result (push_transaction i tx hash at).1 h
  where
    by_result :
        (r : PushResult)
        → (elim r [
          | pushed indexes ↦ some (record { tx = tx; global_output_indexes = indexes })
          | refused ↦ some (record { tx = tx; global_output_indexes = [] })
          | bad_get ↦ none
          | out_of_range ↦ none
        ])
          ≡ some e
        → e.tx ≡ tx
    by_result (pushed indexes) q = cc q
    by_result refused q = cc q
    by_result bad_get q = cc q
    by_result out_of_range q = cc q

module _ {P : Type 0} (pool : PoolOperations P) (I : P → Type 0) (D : Transaction → Type 0)
    (takes : (p : P) (h : Hash) (t : TakenTransaction) (q : P)
      → I p
      → pool.take_tx p h ≡ some (t, q)
      → I q × D t.tx)
    (adds : (p : P) (tx : Transaction) → I p → D tx → I (pool.add_tx p tx).0) where
  abbrev pub AreOfKind : List Moved → Type 0
  AreOfKind = All (λ (m : Moved). D m.1.tx)

  pub pop_transactions-keeps :
      (moved : List Moved) (i : Indices) (p : P) (tx : Transaction) (hash : Hash) (j : Indices)
      (q : P)
      → I p
      → AreOfKind moved
      → pop_transactions pool i p moved tx hash ≡ some (j, q)
      → I q
  unfolding pop_transactions
  pop_transactions-keeps [] i p tx hash j q ip d e =
      elim (Option-cases (pop_transaction i tx hash)) [
        | inl n ↦ cc (rw (n, pop_transactions) at e)
        | inr (k, n) ↦ let same : p ≡ q = cc (rw (n, pop_transactions) at e) in subst I same ip
      ]
  pop_transactions-keeps ((h, t) ∷ moved) i p tx hash j q ip (dt, d) e =
      elim (Option-cases (pop_transaction i t.tx h)) [
        | inl n ↦ cc (rw (n, pop_transactions) at e)
        | inr (k, n) ↦
            pop_transactions-keeps moved k (pool.add_tx p t.tx).0 tx hash j q (adds p t.tx ip dt) d
              (rw (n, pop_transactions) at e)
      ]

  pub pop_progress-keeps :
      (moved : List Moved) (i : Indices) (p : P)
      → I p
      → AreOfKind moved
      → I (pop_progress pool i p moved).1
  unfolding pop_progress
  pop_progress-keeps [] i p ip d = ip
  pop_progress-keeps ((h, t) ∷ moved) i p ip (dt, d) =
      elim (Option-cases (pop_transaction i t.tx h)) [
        | inl n ↦ rw (n, pop_progress) ip
        | inr (k, n) ↦
            rw (n, pop_progress)
              (pop_progress-keeps moved k (pool.add_tx p t.tx).0 (adds p t.tx ip dt) d)
      ]

  give_up-keeps :
      (s : Blockchain) (p : P) (moved : List Moved) (tx : Transaction) (hash : Hash)
      → I p
      → AreOfKind moved
      → I (give_up pool s p moved tx hash).1
  unfolding give_up
  give_up-keeps s p moved tx hash ip d =
      elim (Option-cases (pop_transactions pool s.indices p moved tx hash)) [
        | inl e ↦ rw (e, give_up) (pop_progress-keeps moved s.indices p ip d)
        | inr ((i, q), e) ↦
            rw (e, give_up) (pop_transactions-keeps moved s.indices p tx hash i q ip d e)
      ]

  abbrev pub Kept : LoadResult pool → Type 0
  Kept (loaded s p moved size fee) = I p × AreOfKind moved
  Kept (ended s p r) = I p

  module _ (env : Environment) (c : Currency) where
    load_transactions-keeps :
        (tx : Transaction) (hash : Hash) (ids : List Hash) (s : Blockchain) (p : P) (n : ℕ)
        (moved : List Moved) (size fee : ℕ)
        → I p
        → AreOfKind moved
        → Kept (load_transactions pool env c s p tx hash n moved size fee ids)
    unfolding load_transactions
    load_transactions-keeps tx hash [] s p n moved size fee ip d = (ip, d)
    load_transactions-keeps tx hash (id ∷ ids) s p n moved size fee ip d =
        elim (Option-cases (pool.take_tx p id)) [
          | inl e ↦ rw (e, load_transactions) (give_up-keeps s p moved tx hash ip d)
          | inr ((t, q), e) ↦
              let (iq, dt) = takes p id t q ip e in
              let r = push_entry s.indices t.tx id (next_index s n) in
              elim (Verdict-cases (check_tx_inputs env c s t.tx)) [
                | inr (inl v) ↦
                    rw (e, load_transactions)
                      (rw v (
                        give_up-keeps s (pool.add_tx q t.tx).0 moved tx hash (adds q t.tx iq dt) d))
                | inr (inr v) ↦ rw (e, load_transactions) (rw v iq)
                | inl v ↦ elim (Option-cases r.1) [
                  | inl w ↦ rw (e, load_transactions) (rw v (rw w iq))
                  | inr (entry, w) ↦
                      let same = push_entry-tx s.indices t.tx id (next_index s n) entry w in
                      rw (e, load_transactions)
                        (rw v (
                          rw w (
                            load_transactions-keeps tx hash ids (record s { indices = r.0 }) q
                              ((n + 1) % 2 ^ 16) ((id, entry) ∷ moved) (add64 size t.blob_size)
                              (add64 fee t.fee) iq (subst D (sym same) dt, d))))
                ]
              ]
        ]

    finish_block-keeps :
        (s : Blockchain) (p : P) (b : Block) (m : TransactionEntry) (moved : List Moved)
        (size fee : ℕ)
        → I p
        → AreOfKind moved
        → I (finish_block pool env c s p b m moved size fee).1
    finish_block-keeps s p b m moved size fee ip d =
        elim (finish_block-cases pool env c s p b m moved size fee) [
          | inl (_, e) ↦ rw e ip
          | inr (_, inl e) ↦
              rw e (give_up-keeps s p moved b.miner_tx (env.transaction_hash b.miner_tx) ip d)
          | inr (_, inr (r, (_, e))) ↦ rw e ip
        ]

    pub load-Kept :
        (s : Blockchain) (p : P) (b : Block) (i : Indices) → I p → Kept (load pool env c s p b i)
    load-Kept s p b i ip =
        load_transactions-keeps b.miner_tx (env.transaction_hash b.miner_tx) b.tx_hashes
          (record s { indices = i }) p 0 [] (env.blob_size b.miner_tx) 0 ip tt

    pub push_block-keeps :
        (s : Blockchain) (p : P) (b : Block) → I p → I (push_block pool env c s p b).1
    push_block-keeps s p b ip = elim (push_block-cases pool env c s p b) [
      | inl (r, (_, e)) ↦ rw e ip
      | inr (_, inl (i, e)) ↦ rw e ip
      | inr (_, inr (i, (m, (_, inl (s', (p', (r, (l, e)))))))) ↦
          rw e (subst Kept l (load-Kept s p b i ip))
      | inr (_, inr (i, (m, (_, inr (s', (p', (moved, (size, (fee, (l, e)))))))))) ↦
          let k = subst Kept l (load-Kept s p b i ip) in
          rw e (finish_block-keeps s' p' b m moved size fee k.0 k.1)
    ]

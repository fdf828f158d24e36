-- ===== src/Blocks/KindKeeping.antt =====
-- The transactions in the blocks of the main chain: a kind that all those have which the pool gives
-- out is the kind of all of them, the coinbase transactions apart, whatever blocks are pushed and
-- popped. So what `popBlock` returns to the pool is of that kind.
use bytecoin.Common.{
  ℕ, ◌≡◌, refl, sym, ap, subst, inl, inr, some, List, [], ◌∷◌, ◌++◌, All, Option-cases,
}
use bytecoin.Currency.{Currency}
use bytecoin.Transaction.{Hash, Transaction}
use bytecoin.Storage.Pop.{back?, pop_back}
use bytecoin.BlockIndex.{pop}
use bytecoin.Blocks.{
  Block, Blockchain, TransactionEntry, BlockEntry, Environment, PoolOperations, TakenTransaction,
}
use bytecoin.Blocks.Ending.{finish_block-cases, push_block-cases, new_entry}
use bytecoin.Blocks.PoolKeeping.{Kept, load-Kept, pop_transactions-keeps, pop_progress-keeps}
use bytecoin.Blocks.PushBlock.{
  Moved, entries, pop_transactions, finish_block, append_block, push_block, pop_block, moved_of,
  pop_block_progress, after_miner,
}
use bytecoin.Blocks.Rules.{update_next_comulative_size_limit}
use bytecoin.Blocks.Unchanged.{Keeps, give_up-unchanged, loads}

All-snoc {ℓ κ} :
    {A : Type ℓ} (Q : A → Type κ) (xs : List A) (x : A) → All Q xs → Q x → All Q (xs ++ x ∷ [])
All-snoc Q [] x h q = (q, tt)
All-snoc Q (y ∷ xs) x (g, h) q = (g, All-snoc Q xs x h q)

All-back {ℓ κ} :
    {A : Type ℓ} (Q : A → Type κ) (xs : List A) {x : A} → All Q xs → back? xs ≡ some x → Q x
unfolding back?
All-back Q [] h e = cc
All-back Q (y ∷ []) {x} (g, h) e = let same : y ≡ x = cc e in subst Q same g
All-back Q (y ∷ z ∷ xs) (g, h) e = All-back Q (z ∷ xs) h e

pub All-pop_back {ℓ κ} :
    {A : Type ℓ} (Q : A → Type κ) (xs : List A) → All Q xs → All Q (pop_back xs)
unfolding pop_back
All-pop_back Q [] h = tt
All-pop_back Q (y ∷ []) h = tt
All-pop_back Q (y ∷ z ∷ xs) (g, h) = (g, All-pop_back Q (z ∷ xs) h)

module _ (D : Transaction → Type 0) where
  abbrev pub IsOfKind : TransactionEntry → Type 0
  IsOfKind t = D t.tx

  -- The transactions of every block but the coinbase transactions are of the kind.
  abbrev pub HoldsKind : List BlockEntry → Type 0
  HoldsKind = All (λ (e : BlockEntry). All IsOfKind (after_miner e.transactions))

  entries-kind :
      (moved : List Moved) → All (λ (m : Moved). D m.1.tx) moved → All IsOfKind (entries moved)
  entries-kind [] d = tt
  entries-kind ((h, t) ∷ moved) (d, ds) =
      All-snoc IsOfKind (entries moved) t (entries-kind moved ds) d

  moved_of-kind :
      (hashes : List Hash) (ts : List TransactionEntry) (moved : List Moved)
      → All IsOfKind ts
      → All (λ (m : Moved). D m.1.tx) moved
      → All (λ (m : Moved). D m.1.tx) (moved_of hashes ts moved)
  moved_of-kind [] ts moved k d = d
  moved_of-kind (h ∷ hashes) [] moved k d = d
  moved_of-kind (h ∷ hashes) (t ∷ ts) moved (k, ks) d =
      moved_of-kind hashes ts ((h, t) ∷ moved) ks (k, d)

module _ {P : Type 0} (pool : PoolOperations P) (I : P → Type 0) (D : Transaction → Type 0)
    (takes : (p : P) (h : Hash) (t : TakenTransaction) (q : P)
      → I p
      → pool.take_tx p h ≡ some (t, q)
      → I q × D t.tx)
    (adds : (p : P) (tx : Transaction) → I p → D tx → I (pool.add_tx p tx).0) (env : Environment)
    (c : Currency) where
  finish_block-kind :
      (s : Blockchain) (p : P) (b : Block) (m : TransactionEntry) (moved : List Moved)
      (size fee : ℕ)
      → HoldsKind D s.blocks
      → All (λ (x : Moved). D x.1.tx) moved
      → HoldsKind D (finish_block pool env c s p b m moved size fee).0.blocks
  unfolding append_block update_next_comulative_size_limit
  finish_block-kind s p b m moved size fee h d =
      elim (finish_block-cases pool env c s p b m moved size fee) [
        | inl (_, e) ↦ rw e h
        | inr (_, inl e) ↦
            let (_, same) =
              give_up-unchanged pool s p moved b.miner_tx (env.transaction_hash b.miner_tx) in
            rw e (subst (HoldsKind D) (sym (ap (λ (x : Blockchain). x.blocks) same)) h)
        | inr (_, inr (r, (_, e))) ↦ rw e (
            All-snoc (λ (x : BlockEntry). All (IsOfKind D) (after_miner x.transactions)) s.blocks
              (new_entry pool env c s b m moved size r) h (entries-kind D moved d))
      ]

  pub push_block-kind :
      (s : Blockchain) (p : P) (b : Block)
      → I p
      → HoldsKind D s.blocks
      → HoldsKind D (push_block pool env c s p b).0.blocks
  push_block-kind s p b ip h = elim (push_block-cases pool env c s p b) [
    | inl (r, (_, e)) ↦ rw e h
    | inr (_, inl (i, e)) ↦ rw e h
    | inr (_, inr (i, (m, (_, inl (s', (p', (r, (l, e)))))))) ↦
        let k = subst (Keeps pool (record s { indices = i })) l (loads pool env c s p b i) in
        rw e (subst (HoldsKind D) (sym (ap (λ (x : Blockchain). x.blocks) k.1)) h)
    | inr (_, inr (i, (m, (_, inr (s', (p', (moved, (size, (fee, (l, e)))))))))) ↦
        let k = subst (Keeps pool (record s { indices = i })) l (loads pool env c s p b i) in
        let d =
          subst (Kept pool I D takes adds) l (load-Kept pool I D takes adds env c s p b i ip) in
        rw e (
          finish_block-kind s' p' b m moved size fee
            (subst (HoldsKind D) (sym (ap (λ (x : Blockchain). x.blocks) k)) h) d.1)
  ]

  -- What `popBlock` does to the blocks and their hashes, and what it keeps.
  pub pop_block_lem :
      (s s' : Blockchain) (p q : P) (x : BlockEntry)
      → I p
      → HoldsKind D s.blocks
      → back? s.blocks ≡ some x
      → pop_block pool env s p ≡ some (s', q)
      → I q × (s'.blocks ≡ pop_back s.blocks) × (s'.block_index ≡ pop s.block_index)
  unfolding pop_block
  pop_block_lem s s' p q x ip h f e =
      let moved = moved_of x.bl.tx_hashes (after_miner x.transactions) [] in
      let hash = env.transaction_hash x.bl.miner_tx in
      let d =
        moved_of-kind D x.bl.tx_hashes (after_miner x.transactions) []
          (All-back (λ (y : BlockEntry). All (IsOfKind D) (after_miner y.transactions)) s.blocks h
            f)
          tt in
      elim (Option-cases (pop_transactions pool s.indices p moved x.bl.miner_tx hash)) [
        | inl n ↦ cc (rw n at (rw (f, pop_block) at e))
        | inr ((i, p'), n) ↦
            let results = rw n at (rw (f, pop_block) at e) in
            let same : p' ≡ q = cc results in
            (
              subst I same (
                  pop_transactions-keeps pool I D takes adds moved s.indices p x.bl.miner_tx hash i
                    p' ip d n),
              cc results,
              cc results,
            )
      ]

  pub pop_block_progress_lem :
      (s : Blockchain) (p : P) (x : BlockEntry)
      → I p
      → HoldsKind D s.blocks
      → back? s.blocks ≡ some x
      → I (pop_block_progress pool s p).1
        × ((pop_block_progress pool s p).0
            ≡ record s { indices = (pop_block_progress pool s p).0.indices })
  unfolding pop_block_progress
  pop_block_progress_lem s p x ip h f =
      let d =
        moved_of-kind D x.bl.tx_hashes (after_miner x.transactions) []
          (All-back (λ (y : BlockEntry). All (IsOfKind D) (after_miner y.transactions)) s.blocks h
            f)
          tt in
      let moved = moved_of x.bl.tx_hashes (after_miner x.transactions) [] in
      rw (f, pop_block_progress)
        (pop_progress-keeps pool I D takes adds moved s.indices p ip d, refl)

-- ===== src/Blocks/Moving.antt =====
-- The transactions that `pushBlock` has moved when it gives up: `popTransactions` takes them all back.
use bytecoin.Common.{
  subst, ℕ, ◌+◌, ◌%◌, ◌^◌, ◌≡◌, ◌≢◌, refl, sym, ap, ◌∙◌, inl, inr, true, some, List, [], ◌∷◌,
}
use bytecoin.Common.Word.{add64}
use bytecoin.Currency.{Currency}
use bytecoin.Transaction.{Hash, Transaction}
use bytecoin.Storage.{Indices, TransactionIndex}
use bytecoin.Storage.Push.{PushResult, pushed, refused, bad_get, out_of_range, push_transaction}
use bytecoin.Storage.Outs.{AreFilled, push_outputs-AreFilled}
use bytecoin.Storage.Usage.{AreUnused, multisignature_inputs, write_all}
use bytecoin.Storage.Marks.{AreUnused-AreInRange, write_all-ne_empty}
use bytecoin.Storage.Pop.{pop_transaction}
use bytecoin.Storage.Undo.{push_transaction-pushed, pop_transaction-push_transaction}
use bytecoin.Blocks.{Blockchain, TransactionEntry, Environment, TakenTransaction, PoolOperations}
use bytecoin.Blocks.Header.{rejected}
use bytecoin.Blocks.Inputs.{holds, check_tx_inputs}
use bytecoin.Blocks.InputLaws.{check_tx_inputs-unspent}
use bytecoin.Blocks.Loading.{next_index, load_transactions-cases}
use bytecoin.Blocks.PushBlock.{
  Moved, push_entry, pop_transactions, give_up, LoadResult, loaded, ended, ended_by,
  load_transactions,
}

abbrev pub IsFilled : Indices → Type 0
IsFilled i = AreFilled (i.outputs, i.multisignature_outputs)

pub push_transaction-IsFilled :
    (i i' : Indices) (tx : Transaction) (hash : Hash) (at : TransactionIndex) (gs : List ℕ)
    → IsFilled i
    → AreUnused i.multisignature_outputs (multisignature_inputs tx.vin)
    → push_transaction i tx hash at ≡ (i', pushed gs)
    → IsFilled i'
push_transaction-IsFilled i i' tx hash at gs (fo, fm) u h =
    let (_, _, (keys, _, e)) = push_transaction-pushed i i' tx hash at gs u h in
    let l = multisignature_inputs tx.vin in
    let m = i.multisignature_outputs in
    subst IsFilled (sym e) (
      push_outputs-AreFilled tx.vout at 0 (i.outputs, write_all true m l)
        (fo, write_all-ne_empty l m true (AreUnused-AreInRange l m u) fm))

-- An entry whose push was not refused was pushed, and holds the transaction.
pub push_entry-pushed :
    (i i' : Indices) (tx : Transaction) (hash : Hash) (at : TransactionIndex) (e : TransactionEntry)
    → push_entry i tx hash at ≡ (i', some e)
    → (push_transaction i tx hash at).1 ≢ refused
    → ((gs : List ℕ) × (push_transaction i tx hash at ≡ (i', pushed gs))) × (e.tx ≡ tx)
unfolding push_entry
push_entry-pushed i i' tx hash at e h n =
    split (push_transaction i tx hash at).0 (push_transaction i tx hash at).1 refl
  where
    split :
        (j : Indices) (r : PushResult)
        → push_transaction i tx hash at ≡ (j, r)
        → ((gs : List ℕ) × (push_transaction i tx hash at ≡ (i', pushed gs))) × (e.tx ≡ tx)
    split j (pushed gs) q =
        let h' = rw (q, push_entry) at h in
        let same : j ≡ i' = ap (λ x. x.0) h' in
        let entry : record { tx = tx; global_output_indexes = gs } ≡ e = cc (ap (λ x. x.1) h') in
        ((gs, q ∙ (λ k. (same k, pushed gs))), sym (ap (λ (x : TransactionEntry). x.tx) entry))
    split j refused q = absurd (n (ap (λ x. x.1) q))
    split j bad_get q = let h' = rw (q, push_entry) at h in cc (ap (λ x. x.1) h')
    split j out_of_range q = let h' = rw (q, push_entry) at h in cc (ap (λ x. x.1) h')

module _ {P : Type 0} (pool : PoolOperations P) (tx : Transaction) (hash : Hash) where
  -- `popTransactions` gives the indices `i0`, whatever the pool.
  abbrev pub IsUndoable : Indices → Indices → List Moved → Type 0
  IsUndoable i0 i moved =
      (p : P) → (p' : P) × (pop_transactions pool i p moved tx hash ≡ some (i0, p'))

  abbrev pub Restores : Indices → LoadResult pool → Type 0
  Restores i0 (loaded s p moved size fee) = IsUndoable i0 s.indices moved × IsFilled s.indices
  Restores i0 (ended s p r) = r ≡ rejected → s.indices ≡ i0

  pub give_up-Restores :
      (i0 : Indices) (s : Blockchain) (p : P) (moved : List Moved)
      → IsUndoable i0 s.indices moved
      → Restores i0 (ended_by pool (give_up pool s p moved tx hash))
  unfolding give_up
  give_up-Restores i0 s p moved u = let (p', e) = u p in rw (e, give_up) (λ n. refl)

  IsUndoable-moved :
      (i0 i i' : Indices) (moved : List Moved) (id : Hash) (e : TransactionEntry)
      → IsUndoable i0 i moved
      → pop_transaction i' e.tx id ≡ some i
      → IsUndoable i0 i' ((id, e) ∷ moved)
  unfolding pop_transactions
  IsUndoable-moved i0 i i' moved id e u h p =
      let (p', k) = u (pool.add_tx p e.tx).0 in (p', rw (h, pop_transactions) k)

  module _ (env : Environment) (c : Currency) where
    -- Of the transactions that the loop takes and whose inputs pass, none is refused by
    -- `pushTransaction`.
    abbrev pub NoneRefused : Blockchain → P → ℕ → List Hash → Type 0
    NoneRefused s p n [] = Unit
    NoneRefused s p n (id ∷ ids) =
        (t : TakenTransaction) (q : P)
        → pool.take_tx p id ≡ some (t, q)
        → check_tx_inputs env c s t.tx ≡ holds tt
        → ((push_transaction s.indices t.tx id (next_index s n)).1 ≢ refused)
          × NoneRefused (record s { indices = (push_entry s.indices t.tx id (next_index s n)).0 }) q
              ((n + 1) % 2 ^ 16) ids

    pub load_transactions-Restores :
        (ids : List Hash) (i0 : Indices) (s : Blockchain) (p : P) (n : ℕ) (moved : List Moved)
        (size fee : ℕ)
        → NoneRefused s p n ids
        → IsUndoable i0 s.indices moved
        → IsFilled s.indices
        → Restores i0 (load_transactions pool env c s p tx hash n moved size fee ids)
    unfolding load_transactions
    load_transactions-Restores [] i0 s p n moved size fee h u f = (u, f)
    load_transactions-Restores (id ∷ ids) i0 s p n moved size fee h u f =
        elim (load_transactions-cases pool env c s p tx hash n moved size fee id ids) [
          | inl (q, e) ↦ subst (Restores i0) (sym e) (give_up-Restores i0 s q moved u)
          | inr (inl (i, (q, e))) ↦ subst (Restores i0) (sym e) (λ z. cc z)
          | inr (inr (t, (q, (entry, (i, (k, v, m, e)))))) ↦
              let at = next_index s n in
              let (kept, later) = h t q k v in
              let ((gs, g), same) = push_entry-pushed s.indices i t.tx id at entry m kept in
              let unused = (check_tx_inputs-unspent env c s t.tx v).0 in
              let filled = push_transaction-IsFilled s.indices i t.tx id at gs f unused g in
              let undone = pop_transaction-push_transaction s.indices i t.tx id at gs f unused g in
              let popped : pop_transaction i entry.tx id ≡ some s.indices =
                subst (λ x. pop_transaction i x id ≡ some s.indices) (sym same) undone in
              let next =
                subst (λ j. NoneRefused (record s { indices = j }) q ((n + 1) % 2 ^ 16) ids)
                  (ap (λ x. x.0) m) later in
              subst (Restores i0) (sym e) (
                load_transactions-Restores ids i0 (record s { indices = i }) q ((n + 1) % 2 ^ 16)
                  ((id, entry) ∷ moved) (add64 size t.blob_size) (add64 fee t.fee) next
                  (IsUndoable-moved i0 s.indices i moved id entry u popped) filled)
        ]

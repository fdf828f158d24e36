-- ===== src/Pool/Steps.antt =====
-- The calls of the pool as steps, and that the pool is consistent after any of them.
use bytecoin.Common.{
  ℕ, ◌≡◌, refl, sym, subst, Bool, inl, inr, some, List, [], ◌∷◌, arith, Option-cases,
}
use bytecoin.Currency.{Currency}
use bytecoin.Transaction.{Hash, Transaction}
use bytecoin.Blocks.{TakenTransaction}
use bytecoin.Pool.{BlockInfo, TransactionDetails, Pool, VerificationContext, TransactionValidator}
use bytecoin.Pool.Order.{find_transaction}
use bytecoin.Pool.Calls.{add_tx, remove_transaction, take_tx, on_idle}
use bytecoin.Pool.Template.{
  BlockTemplate, fill_step, fill_loop, fill_block_template, is_transaction_ready_to_go,
}
use bytecoin.Pool.Totals.{Weight, total, find_transaction-id}
use bytecoin.Pool.Consistency.{HasDistinctInputs, IsConsistent}
use bytecoin.Pool.Entering.{AddResult, add_tx_cases}
use bytecoin.Pool.Removal.{remove_transaction-IsConsistent, found-HasDistinctInputs}

pub add_tx-IsConsistent :
    (c : Currency) (v : TransactionValidator) (p : Pool) (tx : Transaction) (id blob_size : ℕ)
    (tvc : VerificationContext) (kept : Bool) (now : ℕ)
    → IsConsistent p
    → HasDistinctInputs tx
    → IsConsistent (add_tx c v p tx id blob_size tvc kept now).0
add_tx-IsConsistent c v p tx id blob_size tvc kept now ok distinct =
    add_tx_cases (λ (r : AddResult). IsConsistent r.0) c v p tx id blob_size kept now ok distinct
      (λ t _. ok) (λ b t _ good. good) tvc

-- A transaction that is taken had distinct inputs, and the pool stays consistent without it.
pub take_tx-IsConsistent :
    (p q : Pool) (id : Hash) (t : TakenTransaction)
    → IsConsistent p
    → take_tx p id ≡ some (t, q)
    → IsConsistent q × HasDistinctInputs t.tx
unfolding take_tx
take_tx-IsConsistent p q id t ok e = elim (Option-cases (find_transaction id p.transactions)) [
  | inl n ↦ cc (rw (n, take_tx) at e)
  | inr (d, f) ↦
      let taken : TakenTransaction = record { tx = d.tx; blob_size = d.blob_size; fee = d.fee } in
      let results : some (taken, remove_transaction p d) ≡ some (t, q) = rw (f, take_tx) at e in
      let same : remove_transaction p d ≡ q = cc results in
      let same_tx : d.tx ≡ t.tx = cc results in
      let same_id = find_transaction-id id p.transactions f in
      (
        rw (← same) (
            remove_transaction-IsConsistent p d ok
              (subst (λ h. find_transaction h p.transactions ≡ some d) (sym same_id) f)),
        rw (← same_tx) (found-HasDistinctInputs id p.transactions ok.distinct f),
      )
]

module _ (v : TransactionValidator) (limit : ℕ) where
  -- A weight that does not look at the two blocks of the details is the same after `modify`.
  abbrev pub IsStable : Weight → Type 0
  IsStable f =
      (d : TransactionDetails) (a b : BlockInfo)
      → f (record d { max_used_block = a; last_failed_block = b }) ≡ f d

  fill_step-stable :
      (f : Weight)
      → IsStable f
      → (t : BlockTemplate) (d : TransactionDetails) → f (fill_step v limit t d).0 ≡ f d
  unfolding fill_step
  fill_step-stable f st t d =
      ground (arith, st d (is_transaction_ready_to_go v d).1 (is_transaction_ready_to_go v d).2)

  pub fill_step_tx :
      (t : BlockTemplate) (d : TransactionDetails) → (fill_step v limit t d).0.tx ≡ d.tx
  unfolding fill_step
  fill_step_tx t d = ground arith

  pub total-fill_loop :
      (f : Weight)
      → IsStable f
      → (t : BlockTemplate) (ds : List TransactionDetails)
      → total f (fill_loop v limit t ds).0 ≡ total f ds
  unfolding fill_loop total
  total-fill_loop f st t [] = refl
  total-fill_loop f st t (d ∷ ds) =
      omega (arith, fill_step-stable f st t d, total-fill_loop f st (fill_step v limit t d).1 ds)

-- A call of the pool, with any validator and at any time. Whoever adds a transaction has checked that
-- its inputs are distinct, as core::check_tx_semantic does.
pub data Step (c : Currency) (p : Pool) : Pool → Type 0 where
  adds :
      (v : TransactionValidator) (tx : Transaction) (id blob_size : ℕ) (tvc : VerificationContext)
      (kept : Bool) (now : ℕ)
      → HasDistinctInputs tx
      → Step c p (add_tx c v p tx id blob_size tvc kept now).0
  takes : (id : Hash) (t : TakenTransaction) {q : Pool} → take_tx p id ≡ some (t, q) → Step c p q
  idles : (now later : ℕ) → Step c p (on_idle c now later p)
  fills :
      (v : TransactionValidator) (median_size max_cumulative_size : ℕ)
      → Step c p (fill_block_template v c p median_size max_cumulative_size).0

pub data Reaches (c : Currency) (p : Pool) : Pool → Type 0 where
  here : Reaches c p p
  after : {q r : Pool} → Reaches c p q → Step c q r → Reaches c p r

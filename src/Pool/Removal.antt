-- ===== src/Pool/Removal.antt =====
-- `removeTransaction` keeps the pool consistent.
use bytecoin.Common.{
  ℕ, ◌+◌, ◌≡◌, inl, inr, some, List, [], ◌∷◌, ltb, ◌==◌, arith, Bool-cases, ==_self,
}
use bytecoin.Transaction.{Hash}
use bytecoin.Pool.{TransactionDetails, Pool}
use bytecoin.Pool.Inputs.{set_at}
use bytecoin.Pool.Order.{find_transaction, erase_transaction}
use bytecoin.Pool.Calls.{remove_transaction}
use bytecoin.Pool.Totals.{
  Weight, total, with_id, holding, free_image, free_output, total-erase_transaction,
}
use bytecoin.Pool.Marking.{occurrences, unmark_images}
use bytecoin.Pool.Removing.{
  IsHeldBy, unmark_outputs, unmark_outputs_lem, unmark_images_lem, unmark_images-AreHeld,
  remove_transaction_inputs_lem,
}
use bytecoin.Pool.Consistency.{HasDistinctInputs, AreDistinctWithin, IsConsistent}

AreDistinctWithin-erase :
    (id : Hash) (ds : List TransactionDetails)
    → AreDistinctWithin ds
    → AreDistinctWithin (erase_transaction id ds)
unfolding erase_transaction
AreDistinctWithin-erase id [] a = tt
AreDistinctWithin-erase id (x ∷ ds) (h, a) = elim (Bool-cases (x.id == id)) [
  | inl s ↦ rw s a
  | inr s ↦ rw s (h, AreDistinctWithin-erase id ds a)
]

pub found-HasDistinctInputs :
    (id : Hash) (ds : List TransactionDetails) {d : TransactionDetails}
    → AreDistinctWithin ds
    → find_transaction id ds ≡ some d
    → HasDistinctInputs d.tx
unfolding find_transaction
found-HasDistinctInputs id [] a e = cc
found-HasDistinctInputs id (x ∷ ds) {d} (h, a) e = elim (Bool-cases (x.id == id)) [
  | inl s ↦ let same : x ≡ d = cc (rw s at e) in rw (← same) h
  | inr s ↦ found-HasDistinctInputs id ds a (rw s at e)
]

-- The split of a total at an element that is found by its hash.
module _ (p : Pool) (d : TransactionDetails) (ok : IsConsistent p)
    (found : find_transaction d.id p.transactions ≡ some d) where
  split :
      (f : Weight) → f d + total f (erase_transaction d.id p.transactions) ≡ total f p.transactions
  split f = total-erase_transaction f d.id p.transactions found

  is_held : IsHeldBy d.id p.spent_key_images d.tx.vin
  is_held k = ground (arith, ok.held k d.id, split (holding k d.id), ==_self d.id)

  after_removal : Pool
  after_removal = record p {
    transactions = erase_transaction d.id p.transactions;
    spent_key_images = unmark_images d.id p.spent_key_images d.tx.vin;
    spent_outputs = unmark_outputs d.kept_by_block p.spent_outputs d.tx.vin;
  }

  remove_transaction-eq : remove_transaction p d ≡ after_removal
  unfolding remove_transaction after_removal
  remove_transaction-eq = rw (
      remove_transaction_inputs_lem d.id d.kept_by_block p.spent_key_images p.spent_outputs d.tx.vin
        is_held)

  held_after :
      (k : ℕ) (h : Hash)
      → occurrences h (set_at (unmark_images d.id p.spent_key_images d.tx.vin) k)
        ≡ total (holding k h) (erase_transaction d.id p.transactions)
  held_after k h = ground (
    arith,
    unmark_images_lem d.id p.spent_key_images d.tx.vin h k is_held,
    ok.held k h,
    split (holding k h),
  )

  outputs_after :
      (a i : ℕ)
      → unmark_outputs d.kept_by_block p.spent_outputs d.tx.vin a i
        ≡ ltb 0 (total (free_output a i) (erase_transaction d.id p.transactions))
  outputs_after a i =
      rw (unmark_outputs_lem d.kept_by_block p.spent_outputs d.tx.vin a i, ok.outputs a i)
        (ground (arith, ok.single_outputs a i, split (free_output a i)))

  pub remove_transaction-IsConsistent : IsConsistent (remove_transaction p d)
  unfolding after_removal
  remove_transaction-IsConsistent = rw remove_transaction-eq record {
    ids = λ h. omega (arith, ok.ids h, split (with_id h));
    held = held_after;
    filled = unmark_images-AreHeld d.id p.spent_key_images d.tx.vin ok.filled;
    outputs = outputs_after;
    single_images = λ k. omega (arith, ok.single_images k, split (free_image k));
    single_outputs = λ a i. omega (arith, ok.single_outputs a i, split (free_output a i));
    distinct = AreDistinctWithin-erase d.id p.transactions ok.distinct;
  }

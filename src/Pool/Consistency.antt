-- ===== src/Pool/Consistency.antt =====
-- What the pool keeps true of its container and its two sets.
use bytecoin.Common.{ℕ, ◌≤◌, ◌≡◌, List, [], ◌∷◌, ltb}
use bytecoin.Transaction.{Hash, Transaction}
use bytecoin.Pool.{TransactionDetails, Pool}
use bytecoin.Pool.Inputs.{set_at}
use bytecoin.Pool.Totals.{total, images_of, outputs_of, with_id, holding, free_image, free_output}
use bytecoin.Pool.Marking.{AreHeld, occurrences}

-- No input is spent twice within the transaction.
pub record HasDistinctInputs (tx : Transaction) : Type 0 where
  pub images : (k : ℕ) → images_of k tx.vin ≤ 1
  pub outputs : (a i : ℕ) → outputs_of a i tx.vin ≤ 1

-- Every transaction of a list has distinct inputs.
abbrev pub AreDistinctWithin : List TransactionDetails → Type 0
AreDistinctWithin [] = Unit
AreDistinctWithin (d ∷ ds) = HasDistinctInputs d.tx × AreDistinctWithin ds

pub record IsConsistent (p : Pool) : Type 0 where
  -- No hash stands twice.
  pub ids : (h : Hash) → total (with_id h) p.transactions ≤ 1
  -- The set of an image has a hash exactly as often as the transaction with that hash spends it.
  pub held :
      (k : ℕ) (h : Hash)
      → occurrences h (set_at p.spent_key_images k) ≡ total (holding k h) p.transactions
  pub filled : AreHeld p.spent_key_images
  -- The set of outputs is that of the transactions that no block keeps.
  pub outputs : (a i : ℕ) → p.spent_outputs a i ≡ ltb 0 (total (free_output a i) p.transactions)
  -- Those transactions spend every image and every output at most once, all together.
  pub single_images : (k : ℕ) → total (free_image k) p.transactions ≤ 1
  pub single_outputs : (a i : ℕ) → total (free_output a i) p.transactions ≤ 1
  pub distinct : AreDistinctWithin p.transactions

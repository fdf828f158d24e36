-- ===== src/Pool/Entry.antt =====
-- What `add_tx` promises of a consistent pool: when it lets a transaction in, that a refusal changes
-- nothing, that double spends are refused, and that `take_tx` takes the transaction back.
use bytecoin.Common.{
  ℕ, ◌<◌, ◌≡◌, ◌↔◌, ◌⊎◌, refl, sym, ap, ◌∙◌, ltb, Bool, true, false, inl, inr, none, some, List, [],
  ◌∷◌, ◌==◌, arith, Bool-cases, ==_self,
}
use bytecoin.Currency.{Currency}
use bytecoin.Transaction.{Hash, Transaction}
use bytecoin.Pool.{TransactionDetails, Pool, VerificationContext, TransactionValidator}
use bytecoin.Pool.Inputs.{set_at}
use bytecoin.Pool.Order.{comes_before, insert_by_fee, find_transaction, erase_transaction}
use bytecoin.Pool.Calls.{have_tx, new_details, add_tx, remove_transaction, take_tx}
use bytecoin.Pool.Totals.{
  total, images_of, outputs_of, holding, free_output, total-erase_transaction,
}
use bytecoin.Pool.Marking.{occurrences}
use bytecoin.Pool.Consistency.{HasDistinctInputs, IsConsistent}
use bytecoin.Pool.Insertion.{
  after_insertion, have_tx-false, unspent_image, unspent_output, set_empty,
}
use bytecoin.Pool.Removal.{remove_transaction-IsConsistent}
use bytecoin.Pool.Entering.{Enters, AddResult, is_spent, fee_of, add_tx_cases}

-- From a consistent pool, and for a transaction with distinct inputs, the call succeeds exactly
-- when the transaction meets the conditions, and otherwise leaves the pool as it was: its inputs
-- are of the two kinds and worth more than its outputs, its hash is new, and, unless a block keeps
-- it, it pays the least fee, its inputs are valid and no one of them is marked as spent.
pub add_tx_lem :
    (c : Currency) (v : TransactionValidator) (p : Pool) (tx : Transaction) (id blob_size : ℕ)
    (tvc : VerificationContext) (kept : Bool) (now : ℕ)
    → IsConsistent p
    → HasDistinctInputs tx
    → let (q, _, added) = add_tx c v p tx id blob_size tvc kept now in
      ((added ≡ true) ↔ Enters c v p tx id kept) × (added ≡ false → q ≡ p)
add_tx_lem c v p tx id blob_size tvc kept now ok distinct =
    add_tx_cases
      (λ (r : AddResult). ((r.2 ≡ true) ↔ Enters c v p tx id kept) × (r.2 ≡ false → r.0 ≡ p)) c v p
      tx id blob_size kept now ok distinct (λ t no. ((λ e. cc e, λ e. absurd (no e)), λ _. refl))
      (λ b t e _. ((λ _. e, λ _. refl), λ f. cc f)) tvc

-- An input that a transaction of the pool spends is marked.
marked_image :
    (p : Pool) (d : TransactionDetails) (tx : Transaction) (k : ℕ)
    → IsConsistent p
    → find_transaction d.id p.transactions ≡ some d
    → 0 < images_of k d.tx.vin
    → 0 < images_of k tx.vin
    → is_spent p tx ≡ true
marked_image p d tx k ok found held spent = elim (Bool-cases (is_spent p tx)) [
  | inl s ↦ s
  | inr s ↦
      let gone =
        set_empty (p.spent_key_images k)
          (unspent_image p.spent_key_images p.spent_outputs tx.vin k s spent) in
      let none_held : total (holding k d.id) p.transactions ≡ 0 =
        sym (ok.held k d.id) ∙ rw gone (unfold occurrences in refl) in
      let at_least = total-erase_transaction (holding k d.id) d.id p.transactions found in
      absurd (ground (arith, none_held, at_least, ==_self d.id))
]

marked_output :
    (p : Pool) (d : TransactionDetails) (tx : Transaction) (a i : ℕ)
    → IsConsistent p
    → find_transaction d.id p.transactions ≡ some d
    → d.kept_by_block ≡ false
    → 0 < outputs_of a i d.tx.vin
    → 0 < outputs_of a i tx.vin
    → is_spent p tx ≡ true
marked_output p d tx a i ok found free held spent = elim (Bool-cases (is_spent p tx)) [
  | inl s ↦ s
  | inr s ↦
      let gone = unspent_output p.spent_key_images p.spent_outputs tx.vin a i s spent in
      let at_least = total-erase_transaction (free_output a i) d.id p.transactions found in
      absurd (ground (arith, ok.outputs a i, gone, rw free at at_least))
]

-- A transaction that no block keeps and that has distinct inputs is refused by a consistent pool
-- where a transaction of the pool spends one of its key images, or one that no block keeps spends
-- one of its outputs; the pool stays as it was.
pub add_tx-double_spend :
    (c : Currency) (v : TransactionValidator) (p : Pool) (tx : Transaction) (id blob_size : ℕ)
    (tvc : VerificationContext) (now : ℕ) (d : TransactionDetails) (k a i : ℕ)
    → IsConsistent p
    → HasDistinctInputs tx
    → find_transaction d.id p.transactions ≡ some d
    → ((0 < images_of k d.tx.vin) × (0 < images_of k tx.vin))
      ⊎ ((d.kept_by_block ≡ false) × (0 < outputs_of a i d.tx.vin) × (0 < outputs_of a i tx.vin))
    → let (q, _, added) = add_tx c v p tx id blob_size tvc false now in (added ≡ false) × (q ≡ p)
add_tx-double_spend c v p tx id blob_size tvc now d k a i ok distinct found conflict =
    add_tx_cases (λ (r : AddResult). (r.2 ≡ false) × (r.0 ≡ p)) c v p tx id blob_size false now ok
      distinct (λ t _. (refl, refl)) (λ b t e _. absurd (impossible e)) tvc
  where
    spent : is_spent p tx ≡ true
    spent = elim conflict [
      | inl (f, g) ↦ marked_image p d tx k ok found f g
      | inr (free, f, g) ↦ marked_output p d tx a i ok found free f g
    ]

    impossible : Enters c v p tx id false → ⊥
    impossible e = cc (spent, e.unspent refl)

find-insert :
    (d : TransactionDetails) (ds : List TransactionDetails)
    → find_transaction d.id ds ≡ none
    → find_transaction d.id (insert_by_fee d ds) ≡ some d
unfolding find_transaction insert_by_fee
find-insert d [] e = rw (==_self d.id)
find-insert d (x ∷ ds) e = elim (Bool-cases (comes_before d x)) [
  | inl s ↦ rw (s, ==_self d.id)
  | inr s ↦ elim (Bool-cases (x.id == d.id)) [
    | inl t ↦ cc (rw t at e)
    | inr t ↦ rw (s, t) (find-insert d ds (rw t at e))
  ]
]

erase-insert :
    (d : TransactionDetails) (ds : List TransactionDetails)
    → find_transaction d.id ds ≡ none
    → erase_transaction d.id (insert_by_fee d ds) ≡ ds
unfolding find_transaction erase_transaction insert_by_fee
erase-insert d [] e = rw (==_self d.id)
erase-insert d (x ∷ ds) e = elim (Bool-cases (comes_before d x)) [
  | inl s ↦ rw (s, ==_self d.id)
  | inr s ↦ elim (Bool-cases (x.id == d.id)) [
    | inl t ↦ cc (rw t at e)
    | inr t ↦ rw (s, t) (ap (λ l. x ∷ l) (erase-insert d ds (rw t at e)))
  ]
]

-- Two pools with the same transactions and the same marks: every hash stands in the set of every key
-- image as often, and the same outputs are marked.
pub record IsSamePool (p q : Pool) : Type 0 where
  pub same_transactions : p.transactions ≡ q.transactions
  pub same_images :
      (k : ℕ) (h : Hash)
      → occurrences h (set_at p.spent_key_images k) ≡ occurrences h (set_at q.spent_key_images k)
  pub same_outputs : (a i : ℕ) → p.spent_outputs a i ≡ q.spent_outputs a i

-- Consistent pools are told apart by their transactions.
same_by_transactions :
    (p q : Pool)
    → IsConsistent p
    → IsConsistent q
    → p.transactions ≡ q.transactions
    → IsSamePool p q
same_by_transactions p q okp okq e = record {
  same_transactions = e;
  same_images = λ k h. okp.held k h ∙ ap (total (holding k h)) e ∙ sym (okq.held k h);
  same_outputs = λ a i.
      okp.outputs a i ∙ ap (λ l. ltb 0 (total (free_output a i) l)) e ∙ sym (okq.outputs a i);
}

-- What `take_tx` does at the hash of a transaction that has entered.
abbrev pub TakesBack : Pool → Transaction → Hash → ℕ → Pool → Type 0
TakesBack p tx id blob_size q =
    (r : Pool) × (take_tx q id
      ≡ some (record { tx = tx; blob_size = blob_size; fee = fee_of tx }, r))
    × IsSamePool r p

module _ (p : Pool) (d : TransactionDetails) (ok : IsConsistent (after_insertion p d)) where
  inserted_found :
      have_tx p d.id ≡ false → find_transaction d.id (after_insertion p d).transactions ≡ some d
  unfolding after_insertion
  inserted_found new = find-insert d p.transactions (have_tx-false p d.id new)

  transactions_back :
      have_tx p d.id ≡ false
      → (remove_transaction (after_insertion p d) d).transactions ≡ p.transactions
  unfolding after_insertion remove_transaction
  transactions_back new = erase-insert d p.transactions (have_tx-false p d.id new)

  inserted_back :
      IsConsistent p
      → have_tx p d.id ≡ false
      → (take_tx (after_insertion p d) d.id
          ≡ some (
            record { tx = d.tx; blob_size = d.blob_size; fee = d.fee },
            remove_transaction (after_insertion p d) d,
          ))
        × IsSamePool (remove_transaction (after_insertion p d) d) p
  unfolding take_tx
  inserted_back before new =
      let found = inserted_found new in
      (
        rw (found, take_tx),
        same_by_transactions (remove_transaction (after_insertion p d) d) p
            (remove_transaction-IsConsistent (after_insertion p d) d ok found) before
            (transactions_back new),
      )

-- A transaction that entered a consistent pool, with distinct inputs, is taken out again as it
-- came in, with the fee that it pays, and the pool has then the same transactions, the same hashes
-- in the set of every key image and the same outputs as before.
pub take_tx-add_tx :
    (c : Currency) (v : TransactionValidator) (p : Pool) (tx : Transaction) (id blob_size : ℕ)
    (tvc : VerificationContext) (kept : Bool) (now : ℕ)
    → IsConsistent p
    → HasDistinctInputs tx
    → let (q, _, added) = add_tx c v p tx id blob_size tvc kept now in
      added ≡ true → TakesBack p tx id blob_size q
take_tx-add_tx c v p tx id blob_size tvc kept now ok distinct =
    add_tx_cases (λ (r : AddResult). r.2 ≡ true → TakesBack p tx id blob_size r.0) c v p tx id
      blob_size kept now ok distinct (λ t _ e. cc e)
      (λ b t e good _.
        let d = new_details tx id blob_size (fee_of tx) kept now b in
        let (taken, same) = inserted_back p d good ok e.new in
        (remove_transaction (after_insertion p d) d, taken, same))
      tvc

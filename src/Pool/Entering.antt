-- ===== src/Pool/Entering.antt =====
-- `add_tx`, branch by branch: when it lets a transaction in, what the pool is then, and that the pool
-- is as it was otherwise.
use bytecoin.Common.{
  ℕ, ◌-◌, ◌≤◌, ◌<◌, ◌≡◌, ap, Bool, true, false, not, ◌&&◌, ◌||◌, inl, inr, ltb, leb, arith,
  Bool-cases,
}
use bytecoin.Currency.{Currency}
use bytecoin.Transaction.{Hash, Transaction}
use bytecoin.Transaction.Amounts.{
  check_inputs_types_supported, get_inputs_money_amount, get_outs_money_amount,
}
use bytecoin.Pool.{
  BlockInfo, no_block, TransactionDetails, Pool, VerificationContext, TransactionValidator,
}
use bytecoin.Pool.Inputs.{have_spent_inputs}
use bytecoin.Pool.Calls.{have_tx, insert_details, new_details, validate_and_insert, add_tx}
use bytecoin.Pool.Consistency.{HasDistinctInputs, IsConsistent}
use bytecoin.Pool.Insertion.{inputs_added, after_insertion, after_insertion-IsConsistent}

-- Whether an input is marked as spent.
abbrev pub is_spent : Pool → Transaction → Bool
is_spent p tx = have_spent_inputs (p.spent_key_images, p.spent_outputs) tx.vin

abbrev pub fee_of : Transaction → ℕ
fee_of tx = get_inputs_money_amount tx - get_outs_money_amount tx

-- What a transaction has to meet. One that a block keeps need not pay the fee, may spend what others
-- spend, and may have inputs that are not valid now.
pub record Enters (c : Currency) (v : TransactionValidator) (p : Pool) (tx : Transaction)
    (id : Hash) (kept : Bool) : Type 0 where
  pub supported : check_inputs_types_supported tx ≡ true
  pub pays : get_outs_money_amount tx < get_inputs_money_amount tx
  pub pays_enough : kept ≡ false → c.minimum_fee ≤ fee_of tx
  pub unspent : kept ≡ false → is_spent p tx ≡ false
  pub valid : kept ≡ false → (v.check_transaction_inputs tx).0 ≡ true
  pub new : have_tx p id ≡ false

abbrev pub AddResult : Type 0
AddResult = Pool × VerificationContext × Bool

-- A transaction that enters, as an element of the pool.
abbrev pub EntersAs : (P : AddResult → Type 0) → Pool → TransactionDetails → Type 0
EntersAs P p d =
    (t : VerificationContext)
    → have_tx p d.id ≡ false
    → IsConsistent (after_insertion p d)
    → P (after_insertion p d, t, true)

module _ (P : AddResult → Type 0) (p : Pool) (d : TransactionDetails) (valid : Bool)
    (tvc : VerificationContext) (ok : IsConsistent p) (distinct : HasDistinctInputs d.tx)
    (unspent : (d.kept_by_block || not (is_spent p d.tx)) ≡ true) where
  insert_details_cases :
      ((t : VerificationContext) → have_tx p d.id ≡ true → P (p, t, false))
      → EntersAs P p d
      → P (insert_details p d valid tvc)
  unfolding insert_details after_insertion
  insert_details_cases old new = elim (Bool-cases (have_tx p d.id)) [
    | inl s ↦ rw s (old tvc s)
    | inr s ↦
        rw (s, inputs_added p d ok distinct s unspent)
          (new _ s (after_insertion-IsConsistent p d ok distinct s unspent))
  ]

-- Why a transaction is refused, or how it is inserted.
module _ (P : AddResult → Type 0) (c : Currency) (v : TransactionValidator) (p : Pool)
    (tx : Transaction) (id blob_size : ℕ) (kept : Bool) (now : ℕ) (ok : IsConsistent p)
    (distinct : HasDistinctInputs tx)
    (refused : (t : VerificationContext) → ¬ Enters c v p tx id kept → P (p, t, false))
    (entered : (b : BlockInfo) (t : VerificationContext)
      → Enters c v p tx id kept
      → IsConsistent (after_insertion p (new_details tx id blob_size (fee_of tx) kept now b))
      → P (after_insertion p (new_details tx id blob_size (fee_of tx) kept now b), t, true)) where
  validate_and_insert_cases :
      (tvc : VerificationContext)
      → (have_tx p id ≡ false
          → (kept ≡ false → (v.check_transaction_inputs tx).0 ≡ true)
          → Enters c v p tx id kept)
      → (kept || not (is_spent p tx)) ≡ true
      → P (validate_and_insert v p tx id blob_size (fee_of tx) tvc kept now)
  unfolding validate_and_insert
  validate_and_insert_cases tvc enters unspent =
      elim (Bool-cases (v.check_transaction_inputs tx).0) [
        | inl s ↦ rw s (
            insert_details_cases P p
              (new_details tx id blob_size (fee_of tx) kept now (v.check_transaction_inputs tx).1)
              true tvc ok distinct unspent (λ t h. refused t (λ e. cc (h, e.new)))
              (λ t h. entered _ t (enters h (λ _. s))))
        | inr s ↦ elim (Bool-cases kept) [
          | inl k ↦
              rw (s, let skips : not kept ≡ false = ap not k in skips)
                (insert_details_cases P p
                  (new_details tx id blob_size (fee_of tx) kept now no_block) false
                  (record tvc { verifivation_impossible = true }) ok distinct unspent
                  (λ t h. refused t (λ e. cc (h, e.new)))
                  (λ t h. entered _ t (enters h (λ f. cc (f, k)))))
          | inr k ↦ rw (s, k) (refused _ (λ e. cc (s, e.valid k)))
        ]
      ]

  pub add_tx_cases : (tvc : VerificationContext) → P (add_tx c v p tx id blob_size tvc kept now)
  unfolding add_tx
  add_tx_cases tvc = elim (Bool-cases (check_inputs_types_supported tx)) [
    | inr s ↦ rw s (refused _ (λ e. cc (s, e.supported)))
    | inl s ↦ elim (Bool-cases (leb (get_inputs_money_amount tx) (get_outs_money_amount tx))) [
      | inl t ↦ rw (s, t) (refused _ (λ e. ground (arith, e.pays)))
      | inr t ↦ elim (Bool-cases (not kept && ltb (fee_of tx) c.minimum_fee)) [
        | inl u ↦ rw (s, t, u) (refused _ (λ e. ground (arith, e.pays_enough)))
        | inr u ↦ elim (Bool-cases (not kept && is_spent p tx)) [
          | inl w ↦ rw (s, t, u, w) (refused _ (λ e. ground (arith, e.unspent)))
          | inr w ↦
              rw (s, t, u, w)
                (validate_and_insert_cases tvc
                  (λ new valid. record {
                    supported = s;
                    pays = ground arith;
                    pays_enough = λ k. ground arith;
                    unspent = λ k. ground arith;
                    valid = valid;
                    new = new;
                  })
                  (may_enter kept (is_spent p tx) w))
        ]
      ]
    ]
  ]
    where
      may_enter : (a b : Bool) → (not a && b) ≡ false → (a || not b) ≡ true
      may_enter a b e = ground arith

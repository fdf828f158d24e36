-- ===== src/Validation/Freshness.antt =====
-- What the checks of the chain say of a transaction that they let pass.
use bytecoin.Common.{◌≡◌, refl, true, false, ◌⊎◌, inl, inr, List, [], ◌∷◌, Bool-cases}
use bytecoin.Currency.{Currency}
use bytecoin.Transaction.{Transaction, TransactionInput}
use bytecoin.Storage.Usage.{AreUnused, multisignature_inputs}
use bytecoin.Storage.Spending.{key_images, AreUnspent}
use bytecoin.Blocks.{Blockchain, Environment}
use bytecoin.Blocks.InputLaws.{check_tx_inputs-unspent}
use bytecoin.Blocks.Inputs.{Verdict, holds, denied, failure, check_tx_inputs}
use bytecoin.Pool.{BlockInfo}
use bytecoin.Validation.{have_tx_keyimges_as_spent, check_tx_inputs_used, check_again, accepts}

-- Nothing that the transaction spends is spent on the chain.
abbrev pub IsSpendable : Blockchain → Transaction → Type 0
IsSpendable s tx =
    AreUnused s.indices.multisignature_outputs (multisignature_inputs tx.vin)
    × AreUnspent s.indices.spent_keys (key_images tx.vin)

pub have_tx_keyimges_as_spent_lem :
    (s : Blockchain) (vin : List TransactionInput)
    → have_tx_keyimges_as_spent s vin ≡ false
    → AreUnspent s.indices.spent_keys (key_images vin)
unfolding have_tx_keyimges_as_spent
have_tx_keyimges_as_spent_lem s [] e = tt
have_tx_keyimges_as_spent_lem s (TransactionInput.to_key t ∷ vin) e =
    elim (Bool-cases (s.indices.spent_keys t.key_image)) [
      | inl h ↦ let e' = rw h at e in cc e'
      | inr h ↦ (h, have_tx_keyimges_as_spent_lem s vin (rw h at e))
    ]
have_tx_keyimges_as_spent_lem s (TransactionInput.multisignature _ ∷ vin) e =
    have_tx_keyimges_as_spent_lem s vin e
have_tx_keyimges_as_spent_lem s (TransactionInput.generate _ ∷ vin) e =
    have_tx_keyimges_as_spent_lem s vin e
have_tx_keyimges_as_spent_lem s (TransactionInput.to_script ∷ vin) e =
    have_tx_keyimges_as_spent_lem s vin e
have_tx_keyimges_as_spent_lem s (TransactionInput.to_script_hash ∷ vin) e =
    have_tx_keyimges_as_spent_lem s vin e

Verdict-cases : (v : Verdict) → (v ≡ holds tt) ⊎ (v ≡ denied) ⊎ (v ≡ failure)
Verdict-cases (holds _) = inl refl
Verdict-cases denied = inr (inl refl)
Verdict-cases failure = inr (inr refl)

module _ (env : Environment) (c : Currency) (s : Blockchain) (tx : Transaction) where
  pub check_tx_inputs_used-IsSpendable :
      (used : BlockInfo)
      → accepts (check_tx_inputs_used env c s tx used).0 ≡ true
      → IsSpendable s tx
  unfolding check_tx_inputs_used
  check_tx_inputs_used-IsSpendable used e = elim (Verdict-cases (check_tx_inputs env c s tx)) [
    | inl h ↦ check_tx_inputs-unspent env c s tx h
    | inr (inl h) ↦ let e' = rw (h, check_tx_inputs_used) at e in cc e'
    | inr (inr h) ↦ let e' = rw (h, check_tx_inputs_used) at e in cc e'
  ]

  pub check_again-IsSpendable :
      (used last_failed : BlockInfo)
      → accepts (check_again env c s tx used last_failed).0 ≡ true
      → IsSpendable s tx
  unfolding check_again
  check_again-IsSpendable used last_failed e =
      elim (Verdict-cases (check_tx_inputs_used env c s tx used).0) [
        | inl h ↦ check_tx_inputs_used-IsSpendable used (rw h refl)
        | inr (inl h) ↦ let e' = rw (h, check_again) at e in cc e'
        | inr (inr h) ↦ let e' = rw (h, check_again) at e in cc e'
      ]

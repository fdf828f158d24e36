-- ===== src/Validation/Readiness.antt =====
-- When a transaction of the pool is ready for a block, with the chain as the validator.
use bytecoin.Common.{
  ◌≡◌, ◌≢◌, ◌<◌, ◌↔◌, refl, true, false, not, ◌&&◌, ◌⊎◌, inl, inr, List, [], ◌∷◌, ltb, leb, ◌==◌,
  Bool-cases, length, arith,
}
use bytecoin.Currency.{Currency}
use bytecoin.Transaction.{Transaction, TransactionInput}
use bytecoin.Storage.Usage.{AreUnused, multisignature_inputs}
use bytecoin.Storage.Spending.{key_images, AreUnspent}
use bytecoin.BlockIndex.{null_hash, get_block_id}
use bytecoin.Blocks.{Blockchain, Environment}
use bytecoin.Blocks.Inputs.{holds}
use bytecoin.Pool.{BlockInfo, TransactionDetails}
use bytecoin.Pool.Template.{is_transaction_ready_to_go}
use bytecoin.Validation.{
  have_tx_keyimges_as_spent, is_at_height, check_transaction_inputs, accepts, chain_validator,
}
use bytecoin.Validation.Freshness.{
  IsSpendable, have_tx_keyimges_as_spent_lem, check_again-IsSpendable,
}

-- The chain has the block at its height.
pub record IsSettled (s : Blockchain) (b : BlockInfo) : Type 0 where
  pub named : b.id ≢ null_hash
  pub below : b.height < length s.blocks
  pub there : get_block_id s.block_index b.height ≡ b.id

AreUnspent-none :
    (s : Blockchain) (vin : List TransactionInput)
    → AreUnspent s.indices.spent_keys (key_images vin)
    → have_tx_keyimges_as_spent s vin ≡ false
unfolding have_tx_keyimges_as_spent
AreUnspent-none s [] u = refl
AreUnspent-none s (TransactionInput.to_key t ∷ vin) (h, u) = rw h (AreUnspent-none s vin u)
AreUnspent-none s (TransactionInput.multisignature _ ∷ vin) u = AreUnspent-none s vin u
AreUnspent-none s (TransactionInput.generate _ ∷ vin) u = AreUnspent-none s vin u
AreUnspent-none s (TransactionInput.to_script ∷ vin) u = AreUnspent-none s vin u
AreUnspent-none s (TransactionInput.to_script_hash ∷ vin) u = AreUnspent-none s vin u

module _ (env : Environment) (c : Currency) (s : Blockchain) where
  settled_accepted :
      (tx : Transaction) (used last_failed : BlockInfo)
      → IsSettled s used
      → check_transaction_inputs env c s tx used last_failed ≡ (holds tt, used, last_failed)
  unfolding check_transaction_inputs
  settled_accepted tx used last_failed ok =
      let named : (used.id == null_hash) ≡ false = ground (arith, ok.named) in
      let below : leb (length s.blocks) used.height ≡ false = ground (arith, ok.below) in
      let there : is_at_height env c s used ≡ true = ground (arith, ok.there) in
      rw (named, below, there) refl

  accepted-IsSpendable :
      (tx : Transaction) (used last_failed : BlockInfo)
      → accepts (check_transaction_inputs env c s tx used last_failed).0 ≡ true
      → IsSettled s used ⊎ IsSpendable s tx
  unfolding check_transaction_inputs
  accepted-IsSpendable tx used last_failed e = elim (Bool-cases (used.id == null_hash)) [
    | inl n ↦
        elim (Bool-cases (
          not (last_failed.id == null_hash)
          && ltb last_failed.height (length s.blocks)
          && is_at_height env c s last_failed)) [
            | inl f ↦ let e' = rw (n, f) at e in cc e'
            | inr f ↦ inr (check_again-IsSpendable env c s tx used last_failed (rw (n, f) at e))
          ]
    | inr n ↦ elim (Bool-cases (leb (length s.blocks) used.height)) [
      | inl l ↦ let e' = rw (n, l) at e in cc e'
      | inr l ↦ elim (Bool-cases (is_at_height env c s used)) [
        | inl t ↦ inl (record { named = ground arith; below = ground arith; there = ground arith })
        | inr t ↦ elim (Bool-cases (is_at_height env c s last_failed)) [
          | inl f ↦ let e' = rw (n, l, t, f) at e in cc e'
          | inr f ↦ inr (check_again-IsSpendable env c s tx used last_failed (rw (n, l, t, f) at e))
        ]
      ]
    ]
  ]

  -- A ready transaction has no key image that is spent, and unused outputs or a block on the chain.
  pub is_transaction_ready_to_go_lem :
      (d : TransactionDetails)
      → (is_transaction_ready_to_go (chain_validator env c s) d).0 ≡ true
      → AreUnspent s.indices.spent_keys (key_images d.tx.vin)
        × (IsSettled s d.max_used_block
            ⊎ AreUnused s.indices.multisignature_outputs (multisignature_inputs d.tx.vin))
  unfolding is_transaction_ready_to_go
  is_transaction_ready_to_go_lem d e =
      let r =
        accepts (check_transaction_inputs env c s d.tx d.max_used_block d.last_failed_block).0 in
      let spent = have_tx_keyimges_as_spent s d.tx.vin in
      let checked : r ≡ true = ground arith in
      let none_spent : spent ≡ false = ground arith in
      (
        have_tx_keyimges_as_spent_lem s d.tx.vin none_spent,
        elim (accepted-IsSpendable d.tx d.max_used_block d.last_failed_block checked) [
          | inl k ↦ inl k
          | inr fresh ↦ inr fresh.0
        ],
      )

  -- Where the details name a block that the main chain has at its height, a transaction is ready
  -- for a block exactly when none of its key images is spent on the chain: its multisignature
  -- inputs are not looked at.
  pub is_transaction_ready_to_go-settled :
      (d : TransactionDetails)
      → IsSettled s d.max_used_block
      → ((is_transaction_ready_to_go (chain_validator env c s) d).0 ≡ true)
        ↔ AreUnspent s.indices.spent_keys (key_images d.tx.vin)
  unfolding is_transaction_ready_to_go
  is_transaction_ready_to_go-settled d ok = (
    λ e. (is_transaction_ready_to_go_lem d e).0,
    λ u.
        rw
          (
            settled_accepted d.tx d.max_used_block d.last_failed_block ok,
            AreUnspent-none s d.tx.vin u,
          )
          refl,
  )

-- ===== src/Core/Semantics.antt =====
-- What class core has checked of a transaction before the pool sees it.
use bytecoin.Common.{
  ℕ, ◌+◌, ◌%◌, ◌^◌, ◌≤◌, ◌≡◌, refl, Bool, true, false, ◌&&◌, ◌⊎◌, inl, inr, some, List, [], ◌∷◌,
  ltb, ◌==◌, if◌then◌else◌, arith, Bool-cases, Option-cases,
}
use bytecoin.Common.Map.{NumberSet, add}
use bytecoin.Currency.{Currency}
use bytecoin.Transaction.{Hash, PublicKey, Transaction, TransactionInput}
use bytecoin.Transaction.Amounts.{
  usage_key, key_in, inputs_differ, check_multisignature_inputs_diff,
}
use bytecoin.Blocks.{Blockchain, Environment}
use bytecoin.Pool.{Pool}
use bytecoin.Pool.Calls.{have_tx, add_tx}
use bytecoin.Pool.ChainPool.{fresh_context}
use bytecoin.Pool.Consistency.{HasDistinctInputs, IsConsistent}
use bytecoin.Pool.Entry.{add_tx_lem}
use bytecoin.Pool.Steps.{add_tx-IsConsistent}
use bytecoin.Pool.Totals.{images_of, outputs_of}
use bytecoin.Core.{
  images_differ, check_tx_inputs_keyimages_diff, check_tx_semantic, add_new_tx, handle_incoming_tx,
}
use bytecoin.Reorganisation.{Chains}
use bytecoin.Validation.{chain_validator}
use bytecoin.Validation.Freshness.{IsSpendable}
use bytecoin.Validation.Proposals.{add_tx-IsSpendable}

images_differ_lem :
    (k : ℕ) (ki : NumberSet) (vin : List TransactionInput)
    → images_differ ki vin ≡ true
    → images_of k vin + (if ki k then 1 else 0) ≤ 1
unfolding images_differ images_of add
images_differ_lem k ki [] e = ground arith
images_differ_lem k ki (TransactionInput.to_key t ∷ vin) e =
    ground (arith, images_differ_lem k (add ki t.key_image) vin)
images_differ_lem k ki (TransactionInput.multisignature _ ∷ vin) e = images_differ_lem k ki vin e
images_differ_lem k ki (TransactionInput.generate _ ∷ vin) e = images_differ_lem k ki vin e
images_differ_lem k ki (TransactionInput.to_script ∷ vin) e = images_differ_lem k ki vin e
images_differ_lem k ki (TransactionInput.to_script_hash ∷ vin) e = images_differ_lem k ki vin e

-- The key of an output, as `inputsUsage` has it.
abbrev output_key : ℕ → ℕ → ℕ × ℕ
output_key a i = (a, i % 2 ^ 32)

inputs_differ-outputs :
    (a i : ℕ) (used : List (ℕ × ℕ)) (vin : List TransactionInput)
    → inputs_differ used vin ≡ true
    → outputs_of a i vin + (if key_in (output_key a i) used then 1 else 0) ≤ 1
unfolding inputs_differ outputs_of key_in
inputs_differ-outputs a i used [] e = ground arith
inputs_differ-outputs a i used (TransactionInput.multisignature t ∷ vin) e =
    elim (Bool-cases (key_in (usage_key t) used)) [
      | inl h ↦ let e' = rw h at e in cc e'
      | inr h ↦
          let rest = inputs_differ-outputs a i (usage_key t ∷ used) vin (rw h at e) in
          elim (Bool-cases (a == t.amount && i == t.output_index)) [
            | inl same ↦
                let keys : output_key a i ≡ usage_key t = ground arith in
                let used_before : key_in (output_key a i) used ≡ false = rw keys h in
                ground (arith, rest)
            | inr other ↦ ground (arith, rest)
          ]
    ]
inputs_differ-outputs a i used (TransactionInput.to_key _ ∷ vin) e =
    inputs_differ-outputs a i used vin e
inputs_differ-outputs a i used (TransactionInput.generate _ ∷ vin) e =
    inputs_differ-outputs a i used vin e
inputs_differ-outputs a i used (TransactionInput.to_script ∷ vin) e =
    inputs_differ-outputs a i used vin e
inputs_differ-outputs a i used (TransactionInput.to_script_hash ∷ vin) e =
    inputs_differ-outputs a i used vin e

differ-HasDistinctInputs :
    (tx : Transaction)
    → check_tx_inputs_keyimages_diff tx ≡ true
    → check_multisignature_inputs_diff tx ≡ true
    → HasDistinctInputs tx
unfolding check_tx_inputs_keyimages_diff check_multisignature_inputs_diff
differ-HasDistinctInputs tx e f = record {
  images = λ k. omega (arith, images_differ_lem k (λ _. false) tx.vin e);
  outputs = λ a i. ground (arith, inputs_differ-outputs a i [] tx.vin f);
}

module _ (env : Environment) (c : Currency) (check_key : PublicKey → Bool) where
  pub check_tx_semantic-HasDistinctInputs :
      (s : Blockchain) (tx : Transaction) (kept : Bool)
      → check_tx_semantic env c check_key s tx kept ≡ true
      → HasDistinctInputs tx
  unfolding check_tx_semantic
  check_tx_semantic-HasDistinctInputs s tx kept e =
      differ-HasDistinctInputs tx (ground arith) (ground arith)

  -- The pool as it was, a transaction that a block keeps, or one that spends nothing spent.
  abbrev pub Admits : Chains Pool → Transaction → Bool → Chains Pool → Type 0
  Admits s tx kept t =
      (t.main ≡ s.main)
      × (t.alternatives ≡ s.alternatives)
      × IsConsistent t.pool
      × ((t.pool ≡ s.pool) ⊎ (kept ≡ true) ⊎ IsSpendable s.main tx)

  unchanged-Admits :
      (s : Chains Pool) (tx : Transaction) (kept : Bool) → IsConsistent s.pool → Admits s tx kept s
  unchanged-Admits s tx kept ok = (refl, refl, ok, inl refl)

  -- `add_new_tx` asks the pool where neither the chain nor the pool has the hash.
  add_new_tx_cases :
      (s : Chains Pool) (tx : Transaction) (tx_hash : Hash) (blob_size : ℕ) (kept : Bool)
      → let r =
          add_tx c
            (chain_validator env c s.main)
            s.pool
            tx
            tx_hash
            blob_size
            fresh_context
            kept
            env.now in
        let t = (add_new_tx env c check_key s tx tx_hash blob_size fresh_context kept).0 in
        (t ≡ s) ⊎ (t ≡ (record s { pool = r.0 }))
  unfolding add_new_tx
  add_new_tx_cases s tx tx_hash blob_size kept =
      elim (Option-cases (s.main.indices.transaction_map tx_hash)) [
        | inr (_, h) ↦ inl (rw (h, add_new_tx) refl)
        | inl h ↦ elim (Bool-cases (have_tx s.pool tx_hash)) [
          | inl k ↦ inl (rw (h, add_new_tx, k) refl)
          | inr k ↦ inr (rw (h, add_new_tx, k) refl)
        ]
      ]

  asked-Admits :
      (s : Chains Pool) (tx : Transaction) (tx_hash : Hash) (blob_size : ℕ) (kept : Bool)
      → IsConsistent s.pool
      → HasDistinctInputs tx
      → let r =
          add_tx c
            (chain_validator env c s.main)
            s.pool
            tx
            tx_hash
            blob_size
            fresh_context
            kept
            env.now in
        Admits s tx kept (record s { pool = r.0 })
  asked-Admits s tx tx_hash blob_size kept ok distinct =
      let v = chain_validator env c s.main in
      let (_, unchanged) =
        add_tx_lem c v s.pool tx tx_hash blob_size fresh_context kept env.now ok distinct in
      let good =
        add_tx-IsConsistent c v s.pool tx tx_hash blob_size fresh_context kept env.now ok
          distinct in
      let r = add_tx c v s.pool tx tx_hash blob_size fresh_context kept env.now in
      (
        refl,
        refl,
        good,
        elim (Bool-cases r.2) [
          | inr failed ↦ inl (unchanged failed)
          | inl added ↦ elim (Bool-cases kept) [
            | inl b ↦ inr (inl b)
            | inr b ↦ inr (
                inr (
                  add_tx-IsSpendable env c s.main s.pool tx tx_hash blob_size fresh_context env.now
                    ok distinct (rw b at added)))
          ]
        ],
      )

  add_new_tx-Admits :
      (s : Chains Pool) (tx : Transaction) (tx_hash : Hash) (blob_size : ℕ) (kept : Bool)
      → IsConsistent s.pool
      → HasDistinctInputs tx
      → Admits s tx kept (add_new_tx env c check_key s tx tx_hash blob_size fresh_context kept).0
  add_new_tx-Admits s tx tx_hash blob_size kept ok distinct =
      elim (add_new_tx_cases s tx tx_hash blob_size kept) [
        | inl e ↦ rw e (unchanged-Admits s tx kept ok)
        | inr e ↦ rw e (asked-Admits s tx tx_hash blob_size kept ok distinct)
      ]

  -- From a consistent pool, a transaction from the network leaves the main chain and the
  -- alternative blocks as they are and the pool consistent; and the pool is as it was, or the
  -- transaction is one that a block keeps, or nothing that it spends is spent on the main chain.
  pub handle_incoming_tx_lem :
      (s : Chains Pool) (blob_size : ℕ) (tx : Transaction) (tx_hash : Hash) (kept : Bool)
      → IsConsistent s.pool
      → Admits s tx kept
          (handle_incoming_tx env c check_key s blob_size (some (tx, tx_hash)) kept).0
  unfolding handle_incoming_tx
  handle_incoming_tx_lem s blob_size tx tx_hash kept ok =
      elim (Bool-cases (ltb c.max_tx_size blob_size)) [
        | inl h ↦ rw h (unchanged-Admits s tx kept ok)
        | inr h ↦ elim (Bool-cases (check_tx_semantic env c check_key s.main tx kept)) [
          | inr k ↦ rw (h, k) (unchanged-Admits s tx kept ok)
          | inl k ↦
              rw (h, k)
                (add_new_tx-Admits s tx tx_hash blob_size kept ok
                  (check_tx_semantic-HasDistinctInputs s.main tx kept k))
        ]
      ]

-- ===== src/Blocks/InputLaws.antt =====
-- What a transaction has whose inputs pass the checks: nothing that it spends is spent already.
use bytecoin.Common.{
  ℕ, zero, suc, ◌≡◌, refl, inl, inr, false, some, List, [], ◌∷◌, ◌==◌, Bool-cases, Option-cases,
  length, get_elem?,
}
use bytecoin.Currency.{Currency}
use bytecoin.Transaction.{
  Hash, Signature, Transaction, TransactionInput, TransactionInputMultisignature,
}
use bytecoin.Storage.{MultisignatureOutputUsage}
use bytecoin.Storage.Push.{vector_at}
use bytecoin.Storage.Usage.{IsUnused, AreUnused, multisignature_inputs}
use bytecoin.Storage.Spending.{key_images, AreUnspent}
use bytecoin.Blocks.{Blockchain, Environment}
use bytecoin.Blocks.Inputs.{
  Verdict, holds, denied, failure, validate_input, check_input, check_inputs, check_tx_inputs,
}

IsUnused-at :
    (us : List MultisignatureOutputUsage) (i : ℕ) (u : MultisignatureOutputUsage)
    → get_elem? us i ≡ some u
    → u.is_used ≡ false
    → IsUnused us i
IsUnused-at [] i u e f = cc e
IsUnused-at (v ∷ us) zero u e f = let same : v ≡ u = cc e in rw same f
IsUnused-at (v ∷ us) (suc i) u e f = IsUnused-at us i u e f

validate_input-IsUnused :
    (env : Environment) (c : Currency) (s : Blockchain) (i : TransactionInputMultisignature)
    (prefix : Hash) (sig : List Signature)
    → validate_input env c s i prefix sig ≡ holds tt
    → IsUnused (vector_at s.indices.multisignature_outputs i.amount) i.output_index
unfolding validate_input
validate_input-IsUnused env c s i prefix sig e =
    elim (Option-cases (s.indices.multisignature_outputs i.amount)) [
      | inl n ↦ let e' = rw (n, validate_input) at e in cc e'
      | inr (us, n) ↦
          let e' = rw (n, validate_input) at e in
          elim (Option-cases (get_elem? us i.output_index)) [
            | inl m ↦ let e'' = rw m at e' in cc e''
            | inr (u, m) ↦
                let e'' = rw m at e' in
                elim (Bool-cases u.is_used) [
                  | inl t ↦ let e3 = rw t at e'' in cc e3
                  | inr t ↦ rw n (IsUnused-at us i.output_index u m t)
                ]
          ]
    ]

-- One input that passes: a key image that is not spent, or an output that is not used.
abbrev IsFreshInput : Blockchain → TransactionInput → Type 0
IsFreshInput s i =
    AreUnused s.indices.multisignature_outputs (multisignature_inputs (i ∷ []))
    × AreUnspent s.indices.spent_keys (key_images (i ∷ []))

check_input-fresh :
    (env : Environment) (c : Currency) (s : Blockchain) (prefix : Hash) (i : TransactionInput)
    (sig : List Signature)
    → check_input env c s prefix i sig ≡ holds tt
    → IsFreshInput s i
unfolding check_input
check_input-fresh env c s prefix (TransactionInput.to_key i) sig e =
    elim (Bool-cases (length i.key_offsets == 0)) [
      | inl t ↦ let e' = rw t at e in cc e'
      | inr t ↦
          let e' = rw t at e in
          elim (Bool-cases (s.indices.spent_keys i.key_image)) [
            | inl u ↦ let e'' = rw u at e' in cc e''
            | inr u ↦ (tt, (u, tt))
          ]
    ]
check_input-fresh env c s prefix (TransactionInput.multisignature i) sig e =
    ((validate_input-IsUnused env c s i prefix sig e, tt), tt)
check_input-fresh env c s prefix (TransactionInput.generate _) sig e = cc e
check_input-fresh env c s prefix TransactionInput.to_script sig e = cc e
check_input-fresh env c s prefix TransactionInput.to_script_hash sig e = cc e

together :
    (s : Blockchain) (i : TransactionInput) (vin : List TransactionInput)
    → IsFreshInput s i
    → AreUnused s.indices.multisignature_outputs (multisignature_inputs vin)
    → AreUnspent s.indices.spent_keys (key_images vin)
    → AreUnused s.indices.multisignature_outputs (multisignature_inputs (i ∷ vin))
      × AreUnspent s.indices.spent_keys (key_images (i ∷ vin))
together s (TransactionInput.to_key i) vin (_, (k, _)) u a = (u, (k, a))
together s (TransactionInput.multisignature i) vin ((m, _), _) u a = ((m, u), a)
together s (TransactionInput.generate _) vin f u a = (u, a)
together s TransactionInput.to_script vin f u a = (u, a)
together s TransactionInput.to_script_hash vin f u a = (u, a)

check_inputs-fresh :
    (env : Environment) (c : Currency) (s : Blockchain) (prefix : Hash)
    (vin : List TransactionInput) (sigs : List (List Signature))
    → check_inputs env c s prefix vin sigs ≡ holds tt
    → AreUnused s.indices.multisignature_outputs (multisignature_inputs vin)
      × AreUnspent s.indices.spent_keys (key_images vin)
unfolding check_inputs
check_inputs-fresh env c s prefix [] sigs e = (tt, tt)
check_inputs-fresh env c s prefix (i ∷ vin) [] e = cc e
check_inputs-fresh env c s prefix (i ∷ vin) (sig ∷ sigs) e =
    split (check_input env c s prefix i sig) refl (check_inputs-fresh env c s prefix vin sigs)
  where
    split :
        (v : Verdict)
        → check_input env c s prefix i sig ≡ v
        → (check_inputs env c s prefix vin sigs ≡ holds tt
            → AreUnused s.indices.multisignature_outputs (multisignature_inputs vin)
              × AreUnspent s.indices.spent_keys (key_images vin))
        → AreUnused s.indices.multisignature_outputs (multisignature_inputs (i ∷ vin))
          × AreUnspent s.indices.spent_keys (key_images (i ∷ vin))
    split (holds u) q f =
        let (r, k) = f (rw (q, check_inputs) at e) in
        together s i vin (check_input-fresh env c s prefix i sig q) r k
    split denied q f = let e' = rw (q, check_inputs) at e in cc e'
    split failure q f = let e' = rw (q, check_inputs) at e in cc e'

-- A transaction whose inputs pass the checks spends nothing that is spent: its multisignature
-- inputs name outputs that are there and not used, and its key images are not in the spent set.
pub check_tx_inputs-unspent :
    (env : Environment) (c : Currency) (s : Blockchain) (tx : Transaction)
    → check_tx_inputs env c s tx ≡ holds tt
    → AreUnused s.indices.multisignature_outputs (multisignature_inputs tx.vin)
      × AreUnspent s.indices.spent_keys (key_images tx.vin)
unfolding check_tx_inputs
check_tx_inputs-unspent env c s tx e =
    check_inputs-fresh env c s (env.prefix_hash tx) tx.vin tx.signatures e

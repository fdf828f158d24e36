-- ===== src/Pool/Totals.antt =====
-- Sums of a weight over the transactions of the pool, as the container's operations change them, and
-- the weights by which the pool's indices are described.
use bytecoin.Common.{
  ℕ, ◌+◌, ◌≡◌, refl, inl, inr, none, some, List, [], ◌∷◌, ◌++◌, ◌==◌, if◌then◌else◌, arith,
  Bool-cases, ==_iff,
}
use bytecoin.Transaction.{Hash, TransactionInput}
use bytecoin.Pool.{TransactionDetails}
use bytecoin.Pool.Order.{comes_before, insert_by_fee, find_transaction, erase_transaction}

abbrev pub Weight : Type 0
Weight = TransactionDetails → ℕ

unfoldable pub total : Weight → List TransactionDetails → ℕ
total f [] = 0
total f (d ∷ ds) = f d + total f ds

-- How often a list of inputs spends a key image, and an output of multisignatures.
unfoldable pub images_of : ℕ → List TransactionInput → ℕ
images_of k [] = 0
images_of k (TransactionInput.to_key t ∷ vin) =
    (if t.key_image == k then 1 else 0) + images_of k vin
images_of k (TransactionInput.multisignature t ∷ vin) = images_of k vin
images_of k (TransactionInput.generate _ ∷ vin) = images_of k vin
images_of k (TransactionInput.to_script ∷ vin) = images_of k vin
images_of k (TransactionInput.to_script_hash ∷ vin) = images_of k vin

unfoldable pub outputs_of : ℕ → ℕ → List TransactionInput → ℕ
outputs_of a i [] = 0
outputs_of a i (TransactionInput.multisignature t ∷ vin) =
    (if a == t.amount then if i == t.output_index then 1 else 0 else 0) + outputs_of a i vin
outputs_of a i (TransactionInput.to_key t ∷ vin) = outputs_of a i vin
outputs_of a i (TransactionInput.generate _ ∷ vin) = outputs_of a i vin
outputs_of a i (TransactionInput.to_script ∷ vin) = outputs_of a i vin
outputs_of a i (TransactionInput.to_script_hash ∷ vin) = outputs_of a i vin

-- The weights: of a hash; of a key image in the transaction with a hash; and of a key image and of an
-- output in the transactions that no block keeps.
abbrev pub with_id : Hash → Weight
with_id h d = if d.id == h then 1 else 0

abbrev pub holding : ℕ → Hash → Weight
holding k h d = if d.id == h then images_of k d.tx.vin else 0

abbrev pub free_image : ℕ → Weight
free_image k d = if d.kept_by_block then 0 else images_of k d.tx.vin

abbrev pub free_output : ℕ → ℕ → Weight
free_output a i d = if d.kept_by_block then 0 else outputs_of a i d.tx.vin

pub total-append :
    (f : Weight) (xs ys : List TransactionDetails) → total f (xs ++ ys) ≡ total f xs + total f ys
unfolding total
total-append f [] ys = omega arith
total-append f (x ∷ xs) ys = omega (arith, total-append f xs ys)

pub total-insert_by_fee :
    (f : Weight) (d : TransactionDetails) (ds : List TransactionDetails)
    → total f (insert_by_fee d ds) ≡ f d + total f ds
unfolding total insert_by_fee
total-insert_by_fee f d [] = refl
total-insert_by_fee f d (e ∷ ds) = elim (Bool-cases (comes_before d e)) [
  | inl h ↦ rw h
  | inr h ↦ rw h (omega (arith, total-insert_by_fee f d ds))
]

pub total-erase_transaction :
    (f : Weight) (id : Hash) (ds : List TransactionDetails) {d : TransactionDetails}
    → find_transaction id ds ≡ some d
    → f d + total f (erase_transaction id ds) ≡ total f ds
unfolding total find_transaction erase_transaction
total-erase_transaction f id [] e = cc
total-erase_transaction f id (x ∷ ds) {d} e = elim (Bool-cases (x.id == id)) [
  | inl h ↦ rw h (let same : x ≡ d = cc (rw h at e) in rw same)
  | inr h ↦ rw h (omega (arith, total-erase_transaction f id ds (rw h at e)))
]

pub find_transaction-id :
    (id : Hash) (ds : List TransactionDetails) {d : TransactionDetails}
    → find_transaction id ds ≡ some d
    → d.id ≡ id
unfolding find_transaction
find_transaction-id id [] e = cc
find_transaction-id id (x ∷ ds) {d} e = elim (Bool-cases (x.id == id)) [
  | inl h ↦ let same : x ≡ d = cc (rw h at e) in rw (← same) ((==_iff x.id id).0 h)
  | inr h ↦ find_transaction-id id ds (rw h at e)
]

-- A hash that is not found has no weight, and no key image is held under it.
pub not_found :
    (id : Hash) (ds : List TransactionDetails)
    → find_transaction id ds ≡ none
    → (total (with_id id) ds ≡ 0) × ((k : ℕ) → total (holding k id) ds ≡ 0)
unfolding total find_transaction
not_found id [] e = (refl, λ k. refl)
not_found id (x ∷ ds) e = elim (Bool-cases (x.id == id)) [
  | inl h ↦ cc (rw h at e)
  | inr h ↦
      let rest = not_found id ds (rw h at e) in
      rw h (omega (arith, rest.0), λ k. omega (arith, rest.1 k))
]

-- Where no transaction holds a key image, no free one does.
pub none_holds :
    (k : ℕ) (ds : List TransactionDetails)
    → ((h : Hash) → total (holding k h) ds ≡ 0)
    → total (free_image k) ds ≡ 0
unfolding total
none_holds k [] z = refl
none_holds k (d ∷ ds) z = ground (arith, z d.id, none_holds k ds (λ h. omega (arith, z h)))

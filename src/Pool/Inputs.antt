-- ===== src/Pool/Inputs.antt =====
-- `addTransactionInputs`, `removeTransactionInputs` and `haveSpentInputs` of
-- src/cryptonote_core/tx_pool.cpp.
use bytecoin.Common.{
  ℕ, Bool, true, false, not, ◌&&◌, ◌||◌, Option, none, some, List, [], ◌∷◌, ◌==◌, if◌then◌else◌,
}
use bytecoin.Common.Map.{Map, put, erase}
use bytecoin.Transaction.{Hash, TransactionInput}
use bytecoin.Pool.{OutputSet}

-- `m_spent_key_images` and `m_spentOutputs`.
abbrev pub SpentInputs : Type 0
SpentInputs = Map (List Hash) × OutputSet

-- `m_spent_key_images[image]`, an empty set where there is none.
abbrev pub hash_set : Option (List Hash) → List Hash
hash_set none = []
hash_set (some l) = l

abbrev pub set_at : Map (List Hash) → ℕ → List Hash
set_at images k = hash_set (images k)

unfoldable pub has_hash : Hash → List Hash → Bool
has_hash h [] = false
has_hash h (x ∷ l) = x == h || has_hash h l

unfoldable pub erase_hash : Hash → List Hash → List Hash
erase_hash h [] = []
erase_hash h (x ∷ l) = if x == h then l else x ∷ erase_hash h l

abbrev pub is_empty {ℓ} : {A : Type ℓ} → List A → Bool
is_empty [] = true
is_empty (_ ∷ _) = false

unfoldable pub insert_output : OutputSet → ℕ → ℕ → OutputSet
insert_output outs amount index a i = if a == amount && i == index then true else outs a i

unfoldable pub erase_output : OutputSet → ℕ → ℕ → OutputSet
erase_output outs amount index a i = if a == amount && i == index then false else outs a i

-- The set of an image with the transaction in it; `none` where the source returns `false`.
unfoldable pub insert_image : Hash → Bool → Map (List Hash) → ℕ → Option (Map (List Hash))
unfolding has_hash
insert_image id kept_by_block images k =
    if not (kept_by_block || is_empty (set_at images k))
    then none
    else if has_hash id (set_at images k)
    then none
    else some (put images k (id ∷ set_at images k))

-- The loop of `addTransactionInputs`, with its result. On `false` it leaves what it has done.
unfoldable pub add_transaction_inputs :
    Hash → Bool → SpentInputs → List TransactionInput → SpentInputs × Bool
unfolding insert_image insert_output
add_transaction_inputs id kept_by_block spent [] = (spent, true)
add_transaction_inputs id kept_by_block (images, outs) (TransactionInput.to_key t ∷ vin) =
    elim (insert_image id kept_by_block images t.key_image) [
      | none ↦ ((images, outs), false)
      | some images' ↦ add_transaction_inputs id kept_by_block (images', outs) vin
    ]
add_transaction_inputs id kept_by_block (images, outs) (TransactionInput.multisignature t ∷ vin) =
    add_transaction_inputs id kept_by_block
      (images, if kept_by_block then outs else insert_output outs t.amount t.output_index) vin
add_transaction_inputs id kept_by_block spent (TransactionInput.generate _ ∷ vin) =
    add_transaction_inputs id kept_by_block spent vin
add_transaction_inputs id kept_by_block spent (TransactionInput.to_script ∷ vin) =
    add_transaction_inputs id kept_by_block spent vin
add_transaction_inputs id kept_by_block spent (TransactionInput.to_script_hash ∷ vin) =
    add_transaction_inputs id kept_by_block spent vin

-- The images without the transaction; an image whose set is empty then is erased.
unfoldable pub put_or_erase_set : Map (List Hash) → ℕ → List Hash → Map (List Hash)
put_or_erase_set images k [] = erase images k
put_or_erase_set images k (x ∷ l) = put images k (x ∷ l)

unfoldable pub remove_image : Hash → Map (List Hash) → ℕ → Option (Map (List Hash))
unfolding has_hash erase_hash put_or_erase_set
remove_image id images k = elim (images k) [
  | none ↦ none
  | some l ↦ if has_hash id l then some (put_or_erase_set images k (erase_hash id l)) else none
]

unfoldable pub remove_transaction_inputs :
    Hash → Bool → SpentInputs → List TransactionInput → SpentInputs × Bool
unfolding remove_image erase_output
remove_transaction_inputs id kept_by_block spent [] = (spent, true)
remove_transaction_inputs id kept_by_block (images, outs) (TransactionInput.to_key t ∷ vin) =
    elim (remove_image id images t.key_image) [
      | none ↦ ((images, outs), false)
      | some images' ↦ remove_transaction_inputs id kept_by_block (images', outs) vin
    ]
remove_transaction_inputs id kept_by_block (images, outs)
      (TransactionInput.multisignature t ∷ vin) =
    remove_transaction_inputs id kept_by_block
      (images, if kept_by_block then outs else erase_output outs t.amount t.output_index) vin
remove_transaction_inputs id kept_by_block spent (TransactionInput.generate _ ∷ vin) =
    remove_transaction_inputs id kept_by_block spent vin
remove_transaction_inputs id kept_by_block spent (TransactionInput.to_script ∷ vin) =
    remove_transaction_inputs id kept_by_block spent vin
remove_transaction_inputs id kept_by_block spent (TransactionInput.to_script_hash ∷ vin) =
    remove_transaction_inputs id kept_by_block spent vin

abbrev pub is_there : Option (List Hash) → Bool
is_there none = false
is_there (some _) = true

unfoldable pub have_spent_inputs : SpentInputs → List TransactionInput → Bool
have_spent_inputs (images, outs) [] = false
have_spent_inputs (images, outs) (TransactionInput.to_key t ∷ vin) =
    is_there (images t.key_image) || have_spent_inputs (images, outs) vin
have_spent_inputs (images, outs) (TransactionInput.multisignature t ∷ vin) =
    outs t.amount t.output_index || have_spent_inputs (images, outs) vin
have_spent_inputs spent (TransactionInput.generate _ ∷ vin) = have_spent_inputs spent vin
have_spent_inputs spent (TransactionInput.to_script ∷ vin) = have_spent_inputs spent vin
have_spent_inputs spent (TransactionInput.to_script_hash ∷ vin) = have_spent_inputs spent vin

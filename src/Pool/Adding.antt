-- ===== src/Pool/Adding.antt =====
-- `addTransactionInputs` where it returns `true`: as marks of the inputs.
use bytecoin.Common.{
  ℕ, ◌+◌, ◌≤◌, ◌<◌, ◌≡◌, refl, ◌∙◌, Bool, true, false, ◌||◌, inl, inr, some, List, [], ◌∷◌, ◌==◌,
  if◌then◌else◌, arith, Bool-cases, ==_self, ==_iff,
}
use bytecoin.Common.Map.{Map, put}
use bytecoin.Transaction.{Hash, TransactionInput}
use bytecoin.Pool.{OutputSet}
use bytecoin.Pool.Inputs.{set_at, is_empty, insert_output, insert_image, add_transaction_inputs}
use bytecoin.Pool.Totals.{images_of, outputs_of}
use bytecoin.Pool.Marking.{occurrences, has_hash-false, set_at-put, mark_images, spends_output}

unfoldable pub mark_outputs : Bool → OutputSet → List TransactionInput → OutputSet
unfolding insert_output
mark_outputs kept outs [] = outs
mark_outputs kept outs (TransactionInput.multisignature t ∷ vin) =
    mark_outputs kept (if kept then outs else insert_output outs t.amount t.output_index) vin
mark_outputs kept outs (TransactionInput.to_key t ∷ vin) = mark_outputs kept outs vin
mark_outputs kept outs (TransactionInput.generate _ ∷ vin) = mark_outputs kept outs vin
mark_outputs kept outs (TransactionInput.to_script ∷ vin) = mark_outputs kept outs vin
mark_outputs kept outs (TransactionInput.to_script_hash ∷ vin) = mark_outputs kept outs vin

pub mark_outputs_lem :
    (kept : Bool) (outs : OutputSet) (vin : List TransactionInput) (a i : ℕ)
    → mark_outputs kept outs vin a i ≡ (outs a i || spends_output kept a i vin)
unfolding mark_outputs outputs_of
mark_outputs_lem true outs [] a i = ground arith
mark_outputs_lem false outs [] a i = ground arith
mark_outputs_lem true outs (TransactionInput.multisignature t ∷ vin) a i =
    mark_outputs_lem true outs vin a i
mark_outputs_lem false outs (TransactionInput.multisignature t ∷ vin) a i =
    mark_outputs_lem false (insert_output outs t.amount t.output_index) vin a i
    ∙ unfold insert_output in ground arith
mark_outputs_lem kept outs (TransactionInput.to_key t ∷ vin) a i =
    mark_outputs_lem kept outs vin a i
mark_outputs_lem kept outs (TransactionInput.generate _ ∷ vin) a i =
    mark_outputs_lem kept outs vin a i
mark_outputs_lem kept outs (TransactionInput.to_script ∷ vin) a i =
    mark_outputs_lem kept outs vin a i
mark_outputs_lem kept outs (TransactionInput.to_script_hash ∷ vin) a i =
    mark_outputs_lem kept outs vin a i

-- An image that the inputs spend does not hold the transaction, and no other where no block keeps it.
abbrev pub HasRoom : Hash → Bool → Map (List Hash) → List TransactionInput → Type 0
HasRoom id kept images vin =
    (k : ℕ)
    → 0 < images_of k vin
    → (occurrences id (set_at images k) ≡ 0) × ((kept || is_empty (set_at images k)) ≡ true)

insert_image_lem :
    (id : Hash) (kept : Bool) (images : Map (List Hash)) (k : ℕ)
    → occurrences id (set_at images k) ≡ 0
    → (kept || is_empty (set_at images k)) ≡ true
    → insert_image id kept images k ≡ some (put images k (id ∷ set_at images k))
unfolding insert_image
insert_image_lem id kept images k z e = rw (e, has_hash-false id (set_at images k) z)

HasRoom-after :
    (id : Hash) (kept : Bool) (images : Map (List Hash)) (j : ℕ) (vin : List TransactionInput)
    → ((k : ℕ) → (if j == k then 1 else 0) + images_of k vin ≤ 1)
    → ((k : ℕ)
        → 0 < (if j == k then 1 else 0) + images_of k vin
        → (occurrences id (set_at images k) ≡ 0) × ((kept || is_empty (set_at images k)) ≡ true))
    → HasRoom id kept (put images j (id ∷ set_at images j)) vin
HasRoom-after id kept images j vin single room k h = elim (Bool-cases (k == j)) [
  | inl e ↦ let same = (==_iff k j).0 e in absurd (ground (arith, single k, ==_iff j k))
  | inr e ↦ rw (set_at-put images j k (id ∷ set_at images j), e) (room k (ground arith))
]

pub add_transaction_inputs_lem :
    (id : Hash) (kept : Bool) (images : Map (List Hash)) (outs : OutputSet)
    (vin : List TransactionInput)
    → ((k : ℕ) → images_of k vin ≤ 1)
    → HasRoom id kept images vin
    → add_transaction_inputs id kept (images, outs) vin
      ≡ ((mark_images id images vin, mark_outputs kept outs vin), true)
unfolding add_transaction_inputs mark_images mark_outputs images_of
add_transaction_inputs_lem id kept images outs [] single room = refl
add_transaction_inputs_lem id kept images outs (TransactionInput.to_key t ∷ vin) single room =
    let here = room t.key_image (ground (arith, ==_self t.key_image)) in
    rw (insert_image_lem id kept images t.key_image here.0 here.1, add_transaction_inputs)
      (add_transaction_inputs_lem id kept (put images t.key_image (id ∷ set_at images t.key_image))
        outs vin (λ k. ground (arith, single k))
        (HasRoom-after id kept images t.key_image vin single room))
add_transaction_inputs_lem id kept images outs (TransactionInput.multisignature t ∷ vin) single
      room =
    add_transaction_inputs_lem id kept images
      (if kept then outs else insert_output outs t.amount t.output_index) vin single room
add_transaction_inputs_lem id kept images outs (TransactionInput.generate _ ∷ vin) single room =
    add_transaction_inputs_lem id kept images outs vin single room
add_transaction_inputs_lem id kept images outs (TransactionInput.to_script ∷ vin) single room =
    add_transaction_inputs_lem id kept images outs vin single room
add_transaction_inputs_lem id kept images outs (TransactionInput.to_script_hash ∷ vin) single room =
    add_transaction_inputs_lem id kept images outs vin single room

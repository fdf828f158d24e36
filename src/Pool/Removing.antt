-- ===== src/Pool/Removing.antt =====
-- `removeTransactionInputs` where every image holds the transaction: it returns `true` and takes the
-- marks of the inputs back.
use bytecoin.Common.{
  ℕ, ◌+◌, ◌≤◌, ◌<◌, ◌≡◌, refl, ◌∙◌, Bool, true, false, not, ◌&&◌, inl, inr, some, List, [], ◌∷◌,
  ◌==◌, if◌then◌else◌, arith, Bool-cases, Option-cases, ==_self, ==_iff,
}
use bytecoin.Common.Map.{Map}
use bytecoin.Transaction.{Hash, TransactionInput}
use bytecoin.Pool.{OutputSet}
use bytecoin.Pool.Inputs.{
  set_at, erase_hash, erase_output, put_or_erase_set, remove_image, remove_transaction_inputs,
}
use bytecoin.Pool.Totals.{images_of, outputs_of}
use bytecoin.Pool.Marking.{
  AreHeld, occurrences, has_hash-true, occurrences-erase_hash, set_at-put_or_erase,
  put_or_erase-AreHeld, unmark_images, spends_output,
}

unfoldable pub unmark_outputs : Bool → OutputSet → List TransactionInput → OutputSet
unfolding erase_output
unmark_outputs kept outs [] = outs
unmark_outputs kept outs (TransactionInput.multisignature t ∷ vin) =
    unmark_outputs kept (if kept then outs else erase_output outs t.amount t.output_index) vin
unmark_outputs kept outs (TransactionInput.to_key t ∷ vin) = unmark_outputs kept outs vin
unmark_outputs kept outs (TransactionInput.generate _ ∷ vin) = unmark_outputs kept outs vin
unmark_outputs kept outs (TransactionInput.to_script ∷ vin) = unmark_outputs kept outs vin
unmark_outputs kept outs (TransactionInput.to_script_hash ∷ vin) = unmark_outputs kept outs vin

pub unmark_outputs_lem :
    (kept : Bool) (outs : OutputSet) (vin : List TransactionInput) (a i : ℕ)
    → unmark_outputs kept outs vin a i ≡ (outs a i && not (spends_output kept a i vin))
unfolding unmark_outputs outputs_of
unmark_outputs_lem true outs [] a i = ground arith
unmark_outputs_lem false outs [] a i = ground arith
unmark_outputs_lem true outs (TransactionInput.multisignature t ∷ vin) a i =
    unmark_outputs_lem true outs vin a i
unmark_outputs_lem false outs (TransactionInput.multisignature t ∷ vin) a i =
    unmark_outputs_lem false (erase_output outs t.amount t.output_index) vin a i
    ∙ unfold erase_output in ground arith
unmark_outputs_lem kept outs (TransactionInput.to_key t ∷ vin) a i =
    unmark_outputs_lem kept outs vin a i
unmark_outputs_lem kept outs (TransactionInput.generate _ ∷ vin) a i =
    unmark_outputs_lem kept outs vin a i
unmark_outputs_lem kept outs (TransactionInput.to_script ∷ vin) a i =
    unmark_outputs_lem kept outs vin a i
unmark_outputs_lem kept outs (TransactionInput.to_script_hash ∷ vin) a i =
    unmark_outputs_lem kept outs vin a i

-- Every image that the inputs spend holds the transaction, as often as they spend it.
abbrev pub IsHeldBy : Hash → Map (List Hash) → List TransactionInput → Type 0
IsHeldBy id images vin = (k : ℕ) → images_of k vin ≤ occurrences id (set_at images k)

remove_image_lem :
    (id : Hash) (images : Map (List Hash)) (k : ℕ)
    → 0 < occurrences id (set_at images k)
    → remove_image id images k ≡ some (put_or_erase_set images k (erase_hash id (set_at images k)))
unfolding remove_image
remove_image_lem id images k h = elim (Option-cases (images k)) [
  | inl e ↦ absurd (unfold occurrences in omega (arith, rw e at h))
  | inr (l, e) ↦ rw (e, remove_image) (rw (has_hash-true id l (rw e at h)))
]

without_one :
    (id : Hash) (images : Map (List Hash)) (j h k : ℕ)
    → 0 < occurrences id (set_at images j)
    → occurrences h (set_at (put_or_erase_set images j (erase_hash id (set_at images j))) k)
        + (if id == h then if j == k then 1 else 0 else 0)
      ≡ occurrences h (set_at images k)
without_one id images j h k pos =
    rw (set_at-put_or_erase images j k (erase_hash id (set_at images j)))
      (elim (Bool-cases (k == j)) [
        | inl e ↦
            let same = (==_iff k j).0 e in
            rw (same, ==_self j) (ground (arith, occurrences-erase_hash h id (set_at images j) pos))
        | inr e ↦ rw e (ground arith)
      ])

IsHeldBy-after :
    (id : Hash) (images : Map (List Hash)) (j : ℕ) (vin : List TransactionInput)
    → ((k : ℕ) → (if j == k then 1 else 0) + images_of k vin ≤ occurrences id (set_at images k))
    → IsHeldBy id (put_or_erase_set images j (erase_hash id (set_at images j))) vin
IsHeldBy-after id images j vin held k =
    ground (arith, held k, held j, ==_self j, ==_self id, without_one id images j id k)

pub unmark_images_lem :
    (id : Hash) (images : Map (List Hash)) (vin : List TransactionInput) (h k : ℕ)
    → IsHeldBy id images vin
    → occurrences h (set_at (unmark_images id images vin) k)
        + (if id == h then images_of k vin else 0)
      ≡ occurrences h (set_at images k)
unfolding unmark_images images_of
unmark_images_lem id images [] h k held = ground arith
unmark_images_lem id images (TransactionInput.to_key t ∷ vin) h k held =
    let j = t.key_image in
    let images' = put_or_erase_set images j (erase_hash id (set_at images j)) in
    let first = without_one id images j h k (ground (arith, held j, ==_self j)) in
    let rest = unmark_images_lem id images' vin h k (IsHeldBy-after id images j vin held) in
    ground (arith, first, rest)
unmark_images_lem id images (TransactionInput.multisignature t ∷ vin) h k held =
    unmark_images_lem id images vin h k held
unmark_images_lem id images (TransactionInput.generate _ ∷ vin) h k held =
    unmark_images_lem id images vin h k held
unmark_images_lem id images (TransactionInput.to_script ∷ vin) h k held =
    unmark_images_lem id images vin h k held
unmark_images_lem id images (TransactionInput.to_script_hash ∷ vin) h k held =
    unmark_images_lem id images vin h k held

pub unmark_images-AreHeld :
    (id : Hash) (images : Map (List Hash)) (vin : List TransactionInput)
    → AreHeld images
    → AreHeld (unmark_images id images vin)
unfolding unmark_images
unmark_images-AreHeld id images [] f = f
unmark_images-AreHeld id images (TransactionInput.to_key t ∷ vin) f =
    unmark_images-AreHeld id
      (put_or_erase_set images t.key_image (erase_hash id (set_at images t.key_image))) vin
      (put_or_erase-AreHeld images t.key_image (erase_hash id (set_at images t.key_image)) f)
unmark_images-AreHeld id images (TransactionInput.multisignature t ∷ vin) f =
    unmark_images-AreHeld id images vin f
unmark_images-AreHeld id images (TransactionInput.generate _ ∷ vin) f =
    unmark_images-AreHeld id images vin f
unmark_images-AreHeld id images (TransactionInput.to_script ∷ vin) f =
    unmark_images-AreHeld id images vin f
unmark_images-AreHeld id images (TransactionInput.to_script_hash ∷ vin) f =
    unmark_images-AreHeld id images vin f

pub remove_transaction_inputs_lem :
    (id : Hash) (kept : Bool) (images : Map (List Hash)) (outs : OutputSet)
    (vin : List TransactionInput)
    → IsHeldBy id images vin
    → remove_transaction_inputs id kept (images, outs) vin
      ≡ ((unmark_images id images vin, unmark_outputs kept outs vin), true)
unfolding remove_transaction_inputs unmark_images unmark_outputs images_of
remove_transaction_inputs_lem id kept images outs [] held = refl
remove_transaction_inputs_lem id kept images outs (TransactionInput.to_key t ∷ vin) held =
    rw
      (
        remove_image_lem id images t.key_image
            (ground (arith, held t.key_image, ==_self t.key_image)),
        remove_transaction_inputs,
      )
      (remove_transaction_inputs_lem id kept
        (put_or_erase_set images t.key_image (erase_hash id (set_at images t.key_image))) outs vin
        (IsHeldBy-after id images t.key_image vin held))
remove_transaction_inputs_lem id kept images outs (TransactionInput.multisignature t ∷ vin) held =
    remove_transaction_inputs_lem id kept images
      (if kept then outs else erase_output outs t.amount t.output_index) vin held
remove_transaction_inputs_lem id kept images outs (TransactionInput.generate _ ∷ vin) held =
    remove_transaction_inputs_lem id kept images outs vin held
remove_transaction_inputs_lem id kept images outs (TransactionInput.to_script ∷ vin) held =
    remove_transaction_inputs_lem id kept images outs vin held
remove_transaction_inputs_lem id kept images outs (TransactionInput.to_script_hash ∷ vin) held =
    remove_transaction_inputs_lem id kept images outs vin held

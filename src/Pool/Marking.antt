-- ===== src/Pool/Marking.antt =====
-- What `addTransactionInputs` and `removeTransactionInputs` do to the two sets of the pool, where they
-- return `true`: every hash stands in the set of every key image as often more, or less, as the inputs
-- say, and the outputs are in the set, or out of it.
use bytecoin.Common.{
  ℕ, ◌+◌, ◌<◌, ◌≡◌, ◌≢◌, refl, ◌∙◌, Bool, true, false, some, List, [], ◌∷◌, ltb, ◌==◌,
  if◌then◌else◌, arith, ==_iff,
}
use bytecoin.Common.Map.{Map, put, erase}
use bytecoin.Transaction.{Hash, TransactionInput}
use bytecoin.Pool.Inputs.{set_at, has_hash, erase_hash, put_or_erase_set}
use bytecoin.Pool.Totals.{images_of, outputs_of}

unfoldable pub occurrences : Hash → List Hash → ℕ
occurrences h [] = 0
occurrences h (x ∷ l) = (if x == h then 1 else 0) + occurrences h l

-- No image has an empty set.
abbrev pub AreHeld : Map (List Hash) → Type 0
AreHeld images = (k : ℕ) → images k ≢ some []

pub has_hash-false : (h : Hash) (l : List Hash) → occurrences h l ≡ 0 → has_hash h l ≡ false
unfolding occurrences has_hash
has_hash-false h [] z = refl
has_hash-false h (x ∷ l) z = ground (arith, has_hash-false h l)

pub has_hash-true : (h : Hash) (l : List Hash) → 0 < occurrences h l → has_hash h l ≡ true
unfolding occurrences has_hash
has_hash-true h [] z = absurd (omega arith)
has_hash-true h (x ∷ l) z = ground (arith, has_hash-true h l)

pub occurrences-erase_hash :
    (h id : Hash) (l : List Hash)
    → 0 < occurrences id l
    → occurrences h (erase_hash id l) + (if id == h then 1 else 0) ≡ occurrences h l
unfolding occurrences erase_hash
occurrences-erase_hash h id [] z = absurd (omega arith)
occurrences-erase_hash h id (x ∷ l) z = ground (arith, occurrences-erase_hash h id l)

pub set_at-put :
    (images : Map (List Hash)) (k j : ℕ) (l : List Hash)
    → set_at (put images k l) j ≡ (if j == k then l else set_at images j)
unfolding put
set_at-put images k j l = ground arith

pub set_at-put_or_erase :
    (images : Map (List Hash)) (k j : ℕ) (l : List Hash)
    → set_at (put_or_erase_set images k l) j ≡ (if j == k then l else set_at images j)
unfolding put_or_erase_set put erase
set_at-put_or_erase images k j [] = ground arith
set_at-put_or_erase images k j (x ∷ l) = ground arith

pub put_or_erase-AreHeld :
    (images : Map (List Hash)) (k : ℕ) (l : List Hash)
    → AreHeld images
    → AreHeld (put_or_erase_set images k l)
unfolding put_or_erase_set put erase
put_or_erase-AreHeld images k [] f j = ground (arith, f j)
put_or_erase-AreHeld images k (x ∷ l) f j = ground (arith, f j)

put-AreHeld :
    (images : Map (List Hash)) (k : ℕ) (x : Hash) (l : List Hash)
    → AreHeld images
    → AreHeld (put images k (x ∷ l))
unfolding put
put-AreHeld images k x l f j = ground (arith, f j)

-- The sets after all inputs were added or removed.
unfoldable pub mark_images : Hash → Map (List Hash) → List TransactionInput → Map (List Hash)
mark_images id images [] = images
mark_images id images (TransactionInput.to_key t ∷ vin) =
    mark_images id (put images t.key_image (id ∷ set_at images t.key_image)) vin
mark_images id images (TransactionInput.multisignature t ∷ vin) = mark_images id images vin
mark_images id images (TransactionInput.generate _ ∷ vin) = mark_images id images vin
mark_images id images (TransactionInput.to_script ∷ vin) = mark_images id images vin
mark_images id images (TransactionInput.to_script_hash ∷ vin) = mark_images id images vin

unfoldable pub unmark_images : Hash → Map (List Hash) → List TransactionInput → Map (List Hash)
unmark_images id images [] = images
unmark_images id images (TransactionInput.to_key t ∷ vin) =
    unmark_images id
      (put_or_erase_set images t.key_image (erase_hash id (set_at images t.key_image))) vin
unmark_images id images (TransactionInput.multisignature t ∷ vin) = unmark_images id images vin
unmark_images id images (TransactionInput.generate _ ∷ vin) = unmark_images id images vin
unmark_images id images (TransactionInput.to_script ∷ vin) = unmark_images id images vin
unmark_images id images (TransactionInput.to_script_hash ∷ vin) = unmark_images id images vin

-- An output that the inputs spend, of a transaction that no block keeps.
abbrev pub spends_output : Bool → ℕ → ℕ → List TransactionInput → Bool
spends_output kept a i vin = if kept then false else ltb 0 (outputs_of a i vin)

-- Every hash in every set, and the images that have one, after all inputs were added.
pub mark_images_lem :
    (id : Hash) (images : Map (List Hash)) (vin : List TransactionInput) (h : Hash) (k : ℕ)
    → occurrences h (set_at (mark_images id images vin) k)
      ≡ occurrences h (set_at images k) + (if id == h then images_of k vin else 0)
unfolding mark_images images_of
mark_images_lem id images [] h k = ground arith
mark_images_lem id images (TransactionInput.to_key t ∷ vin) h k =
    let images' = put images t.key_image (id ∷ set_at images t.key_image) in
    mark_images_lem id images' vin h k
    ∙ rw (set_at-put images t.key_image k (id ∷ set_at images t.key_image))
        (unfold occurrences in ground (arith, ==_iff t.key_image k))
mark_images_lem id images (TransactionInput.multisignature t ∷ vin) h k =
    mark_images_lem id images vin h k
mark_images_lem id images (TransactionInput.generate _ ∷ vin) h k =
    mark_images_lem id images vin h k
mark_images_lem id images (TransactionInput.to_script ∷ vin) h k = mark_images_lem id images vin h k
mark_images_lem id images (TransactionInput.to_script_hash ∷ vin) h k =
    mark_images_lem id images vin h k

pub mark_images-AreHeld :
    (id : Hash) (images : Map (List Hash)) (vin : List TransactionInput)
    → AreHeld images
    → AreHeld (mark_images id images vin)
unfolding mark_images
mark_images-AreHeld id images [] f = f
mark_images-AreHeld id images (TransactionInput.to_key t ∷ vin) f =
    mark_images-AreHeld id (put images t.key_image (id ∷ set_at images t.key_image)) vin
      (put-AreHeld images t.key_image id (set_at images t.key_image) f)
mark_images-AreHeld id images (TransactionInput.multisignature t ∷ vin) f =
    mark_images-AreHeld id images vin f
mark_images-AreHeld id images (TransactionInput.generate _ ∷ vin) f =
    mark_images-AreHeld id images vin f
mark_images-AreHeld id images (TransactionInput.to_script ∷ vin) f =
    mark_images-AreHeld id images vin f
mark_images-AreHeld id images (TransactionInput.to_script_hash ∷ vin) f =
    mark_images-AreHeld id images vin f

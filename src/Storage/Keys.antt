-- ===== src/Storage/Keys.antt =====
-- The key images of a transaction: a conflict is rolled back, and a removal undoes an insertion.
use bytecoin.Common.{
  ℕ, ◌≡◌, refl, sym, ◌∙◌, ap, inl, inr, Bool, true, false, List, [], ◌∷◌, Bool-cases,
}
use bytecoin.Common.Map.{NumberSet, add, remove, remove-add, remove_comm}
use bytecoin.Transaction.{TransactionInput}
use bytecoin.Storage.Push.{spent, conflict, roll_back, spend_keys}

-- A complete rollback of `before` gives back `orig`.
abbrev RollsBack : NumberSet → NumberSet → List TransactionInput → Type 0
RollsBack orig keys before = (roll_back keys before).1 ≡ true → (roll_back keys before).0 ≡ orig

RollsBack-add :
    (orig keys : NumberSet) (k : ℕ) (before : List TransactionInput)
    → keys k ≡ false
    → RollsBack orig keys before
    → RollsBack orig (remove (add keys k) k) before
RollsBack-add orig keys k before h r = rw (remove-add keys k h) r

conflict_restores :
    (orig keys kept : NumberSet) (before vin : List TransactionInput) (complete : Bool)
    → RollsBack orig keys before
    → spend_keys keys before vin ≡ conflict kept complete
    → complete ≡ true
    → kept ≡ orig
unfolding spend_keys roll_back
conflict_restores orig keys kept before [] complete r e c = cc
conflict_restores orig keys kept before (TransactionInput.to_key i ∷ vin) complete r e c =
    elim (Bool-cases (keys i.key_image)) [
      | inl h ↦
          let e' = rw h at e in
          let same : (roll_back keys before).0 ≡ kept = cc e' in sym same ∙ r (cc (e', c))
      | inr h ↦
          conflict_restores orig (add keys i.key_image) kept (TransactionInput.to_key i ∷ before)
            vin complete (RollsBack-add orig keys i.key_image before h r) (rw h at e) c
    ]
conflict_restores orig keys kept before (TransactionInput.multisignature i ∷ vin) complete r e c =
    conflict_restores orig keys kept (TransactionInput.multisignature i ∷ before) vin complete
      (λ b. cc) e c
conflict_restores orig keys kept before (TransactionInput.generate h ∷ vin) complete r e c =
    conflict_restores orig keys kept (TransactionInput.generate h ∷ before) vin complete (λ b. cc) e
      c
conflict_restores orig keys kept before (TransactionInput.to_script ∷ vin) complete r e c =
    conflict_restores orig keys kept (TransactionInput.to_script ∷ before) vin complete (λ b. cc) e
      c
conflict_restores orig keys kept before (TransactionInput.to_script_hash ∷ vin) complete r e c =
    conflict_restores orig keys kept (TransactionInput.to_script_hash ∷ before) vin complete
      (λ b. cc) e c

-- A rollback that ends gives back the set that the loop began with.
pub conflict-kept :
    (keys kept : NumberSet) (vin : List TransactionInput)
    → spend_keys keys [] vin ≡ conflict kept true
    → kept ≡ keys
unfolding roll_back
conflict-kept keys kept vin e = conflict_restores keys keys kept [] vin true (λ _. refl) e refl

-- What popping the inputs does to the set.
abbrev pub remove_images : NumberSet → List TransactionInput → NumberSet
remove_images keys [] = keys
remove_images keys (TransactionInput.to_key i ∷ vin) = remove_images (remove keys i.key_image) vin
remove_images keys (TransactionInput.multisignature _ ∷ vin) = remove_images keys vin
remove_images keys (TransactionInput.generate _ ∷ vin) = remove_images keys vin
remove_images keys (TransactionInput.to_script ∷ vin) = remove_images keys vin
remove_images keys (TransactionInput.to_script_hash ∷ vin) = remove_images keys vin

remove_images-remove :
    (vin : List TransactionInput) (keys : NumberSet) (k : ℕ)
    → remove_images (remove keys k) vin ≡ remove (remove_images keys vin) k
remove_images-remove [] keys k = refl
remove_images-remove (TransactionInput.to_key i ∷ vin) keys k =
    rw (remove_comm keys k i.key_image) (remove_images-remove vin (remove keys i.key_image) k)
remove_images-remove (TransactionInput.multisignature _ ∷ vin) keys k =
    remove_images-remove vin keys k
remove_images-remove (TransactionInput.generate _ ∷ vin) keys k = remove_images-remove vin keys k
remove_images-remove (TransactionInput.to_script ∷ vin) keys k = remove_images-remove vin keys k
remove_images-remove (TransactionInput.to_script_hash ∷ vin) keys k =
    remove_images-remove vin keys k

pub remove_images-spend_keys :
    (vin before : List TransactionInput) (keys keys' : NumberSet)
    → spend_keys keys before vin ≡ spent keys'
    → remove_images keys' vin ≡ keys
unfolding spend_keys
remove_images-spend_keys [] before keys keys' e = cc
remove_images-spend_keys (TransactionInput.to_key i ∷ vin) before keys keys' e =
    elim (Bool-cases (keys i.key_image)) [
      | inl h ↦ let e' = rw h at e in cc e'
      | inr h ↦
          remove_images-remove vin keys' i.key_image
          ∙ ap (λ s. remove s i.key_image)
              (remove_images-spend_keys vin (TransactionInput.to_key i ∷ before)
                (add keys i.key_image) keys' (rw h at e))
          ∙ remove-add keys i.key_image h
    ]
remove_images-spend_keys (TransactionInput.multisignature i ∷ vin) before keys keys' e =
    remove_images-spend_keys vin (TransactionInput.multisignature i ∷ before) keys keys' e
remove_images-spend_keys (TransactionInput.generate h ∷ vin) before keys keys' e =
    remove_images-spend_keys vin (TransactionInput.generate h ∷ before) keys keys' e
remove_images-spend_keys (TransactionInput.to_script ∷ vin) before keys keys' e =
    remove_images-spend_keys vin (TransactionInput.to_script ∷ before) keys keys' e
remove_images-spend_keys (TransactionInput.to_script_hash ∷ vin) before keys keys' e =
    remove_images-spend_keys vin (TransactionInput.to_script_hash ∷ before) keys keys' e

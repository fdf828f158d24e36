-- ===== src/Storage/Spending.antt =====
-- No key image is spent twice.
use bytecoin.Common.{
  ℕ, ◌≡◌, refl, ap, ◌∙◌, ◌≢◌, inl, inr, true, false, none, some, List, [], ◌∷◌, arith, Bool-cases,
  All,
}
use bytecoin.Common.Map.{NumberSet, add, put_self}
use bytecoin.Transaction.{
  Hash, KeyImage, TransactionInput, TransactionInputToKey, TransactionInputMultisignature,
  Transaction,
}
use bytecoin.Transaction.Amounts.{check_multisignature_inputs_diff}
use bytecoin.Storage.{TransactionIndex, Indices}
use bytecoin.Storage.Push.{pushed, bad_get, spent, conflict, spend_keys, push_transaction}
use bytecoin.Storage.Usage.{AreUnused, multisignature_inputs}
use bytecoin.Storage.Refusal.{recorded}
use bytecoin.Storage.Undo.{push_transaction-pushed}

-- The key images of the inputs, in order.
abbrev pub key_images : List TransactionInput → List KeyImage
key_images [] = []
key_images (TransactionInput.to_key i ∷ vin) = i.key_image ∷ key_images vin
key_images (TransactionInput.multisignature _ ∷ vin) = key_images vin
key_images (TransactionInput.generate _ ∷ vin) = key_images vin
key_images (TransactionInput.to_script ∷ vin) = key_images vin
key_images (TransactionInput.to_script_hash ∷ vin) = key_images vin

abbrev pub AreUnspent : NumberSet → List KeyImage → Type 0
AreUnspent keys = All (λ k. keys k ≡ false)

abbrev pub NoRepeat : List KeyImage → Type 0
NoRepeat [] = Unit
NoRepeat (k ∷ ks) = All (λ j. k ≢ j) ks × NoRepeat ks

abbrev add_images : NumberSet → List KeyImage → NumberSet
add_images keys [] = keys
add_images keys (k ∷ ks) = add_images (add keys k) ks

AreUnspent-add :
    (ks : List KeyImage) (keys : NumberSet) (k : KeyImage)
    → AreUnspent (add keys k) ks
    → AreUnspent keys ks × All (λ j. k ≢ j) ks
unfolding add
AreUnspent-add [] keys k u = (tt, tt)
AreUnspent-add (j ∷ ks) keys k (h, u) =
    let (l, r) = AreUnspent-add ks keys k u in ((ground arith, l), (ground arith, r))

spend_keys-spent :
    (vin before : List TransactionInput) (keys keys' : NumberSet)
    → spend_keys keys before vin ≡ spent keys'
    → AreUnspent keys (key_images vin)
      × NoRepeat (key_images vin)
      × (keys' ≡ add_images keys (key_images vin))
unfolding spend_keys
spend_keys-spent [] before keys keys' e = (tt, tt, cc)
spend_keys-spent (TransactionInput.to_key i ∷ vin) before keys keys' e =
    elim (Bool-cases (keys i.key_image)) [
      | inl h ↦ let e' = rw h at e in cc e'
      | inr h ↦
          let (u, n, a) =
            spend_keys-spent vin (TransactionInput.to_key i ∷ before) (add keys i.key_image) keys'
              (rw h at e) in
          let (l, r) = AreUnspent-add (key_images vin) keys i.key_image u in ((h, l), (r, n), a)
    ]
spend_keys-spent (TransactionInput.multisignature i ∷ vin) before keys keys' e =
    spend_keys-spent vin (TransactionInput.multisignature i ∷ before) keys keys' e
spend_keys-spent (TransactionInput.generate h ∷ vin) before keys keys' e =
    spend_keys-spent vin (TransactionInput.generate h ∷ before) keys keys' e
spend_keys-spent (TransactionInput.to_script ∷ vin) before keys keys' e =
    spend_keys-spent vin (TransactionInput.to_script ∷ before) keys keys' e
spend_keys-spent (TransactionInput.to_script_hash ∷ vin) before keys keys' e =
    spend_keys-spent vin (TransactionInput.to_script_hash ∷ before) keys keys' e

add_images-keeps :
    (ks : List KeyImage) (keys : NumberSet) (j : KeyImage)
    → keys j ≡ true
    → add_images keys ks j ≡ true
add_images-keeps [] keys j h = h
add_images-keeps (k ∷ ks) keys j h = add_images-keeps ks (add keys k) j (unfold add in ground arith)

add_images-All : (ks : List KeyImage) (keys : NumberSet) → All (λ k. add_images keys ks k ≡ true) ks
add_images-All [] keys = tt
add_images-All (k ∷ ks) keys = (
  add_images-keeps ks (add keys k) k (unfold add in ground arith),
  add_images-All ks (add keys k),
)

-- After a push that went through, of a transaction whose multisignature inputs name outputs that
-- are there and not used, none of the transaction's key images was spent before, no two of them
-- are equal, all of them are spent now, and what was spent before is spent still.
pub push_transaction-spends :
    (s s' : Indices) (tx : Transaction) (hash : Hash) (at : TransactionIndex) (gs : List ℕ)
    → AreUnused s.multisignature_outputs (multisignature_inputs tx.vin)
    → push_transaction s tx hash at ≡ (s', pushed gs)
    → AreUnspent s.spent_keys (key_images tx.vin)
      × NoRepeat (key_images tx.vin)
      × All (λ k. s'.spent_keys k ≡ true) (key_images tx.vin)
      × ((j : KeyImage) → s.spent_keys j ≡ true → s'.spent_keys j ≡ true)
push_transaction-spends s s' tx hash at gs u h =
    let (_, _, (keys, k, e)) = push_transaction-pushed s s' tx hash at gs u h in
    let (un, nr, a) = spend_keys-spent tx.vin [] s.spent_keys keys k in
    let e' : s'.spent_keys ≡ add_images s.spent_keys (key_images tx.vin) =
      ap (λ (r : Indices). r.spent_keys) e ∙ a in
    (
      un,
      nr,
      rw e' (add_images-All (key_images tx.vin) s.spent_keys),
      λ j p. rw e' (add_images-keeps (key_images tx.vin) s.spent_keys j p),
    )

-- Where the hash is new, the multisignature inputs differ, the first input is of a multisignature
-- output and the second has a spent key image, the push ends in the exception of `boost::get`, and
-- the transaction stays in the map.
pub push_transaction-bad_get :
    (s : Indices) (tx : Transaction) (hash : Hash) (at : TransactionIndex)
    (m : TransactionInputMultisignature) (i : TransactionInputToKey) (vin : List TransactionInput)
    → tx.vin ≡ TransactionInput.multisignature m ∷ TransactionInput.to_key i ∷ vin
    → check_multisignature_inputs_diff tx ≡ true
    → s.transaction_map hash ≡ none
    → s.spent_keys i.key_image ≡ true
    → ((push_transaction s tx hash at).1 ≡ bad_get)
      × ((push_transaction s tx hash at).0.transaction_map hash ≡ some at)
unfolding push_transaction spend_keys
push_transaction-bad_get s tx hash at m i vin v d free k =
    let c : spend_keys s.spent_keys [] tx.vin ≡ conflict s.spent_keys false = rw v (rw k) in
    let e : push_transaction s tx hash at ≡ (recorded s hash at, bad_get) =
      rw (free, push_transaction) (rw d (rw (c, push_transaction))) in
    rw e (refl, put_self s.transaction_map hash at)

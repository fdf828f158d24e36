-- ===== src/Storage/Undo.antt =====
-- `popTransaction` undoes `pushTransaction`.
use bytecoin.Common.{
  ℕ, ◌≡◌, sym, ap, ◌∙◌, ◌≢◌, inl, inr, Bool, true, false, none, some, List, [], ◌∷◌, ◌%◌, ◌^◌,
}
use bytecoin.Common.Map.{NumberSet, put, erase-put, put_self}
use bytecoin.Transaction.{Hash, TransactionInput, TransactionInputMultisignature, Transaction}
use bytecoin.Transaction.Amounts.{check_multisignature_inputs_diff, usage_key}
use bytecoin.Transaction.Inputs.{
  usage_keys, AreDistinct, IsFresh, check_multisignature_inputs_diff_lem,
}
use bytecoin.Storage.{TransactionIndex, Indices}
use bytecoin.Storage.Push.{
  pushed, spent, spend_keys, push_outputs, finish_push, conflicted, push_transaction,
}
use bytecoin.Storage.Pop.{pop_transaction}
use bytecoin.Storage.Keys.{remove_images-spend_keys}
use bytecoin.Storage.Refusal.{push_transaction-cases, recorded}
use bytecoin.Storage.Usage.{
  AreUnused, IsAlone, NameDistinct, multisignature_inputs, write_all, write_all-reset,
}
use bytecoin.Storage.Marks.{
  AreUnused-AreInRange, AreInRange-write_all, write_all-ne_empty, mark_used-in, pop_inputs-in,
}
use bytecoin.Storage.Outs.{AreFilled, pop_outputs-push_outputs}

-- Keys that differ as uint32_t differ.
fresh-IsAlone :
    (i : TransactionInputMultisignature) (vin : List TransactionInput)
    → IsFresh (usage_key i) (usage_keys vin)
    → IsAlone i (multisignature_inputs vin)
fresh-IsAlone i [] f = tt
fresh-IsAlone i (TransactionInput.multisignature j ∷ vin) (n, f) =
    (λ p q. n (λ k. (p k, q k % 2 ^ 32)), fresh-IsAlone i vin f)
fresh-IsAlone i (TransactionInput.to_key _ ∷ vin) f = fresh-IsAlone i vin f
fresh-IsAlone i (TransactionInput.generate _ ∷ vin) f = fresh-IsAlone i vin f
fresh-IsAlone i (TransactionInput.to_script ∷ vin) f = fresh-IsAlone i vin f
fresh-IsAlone i (TransactionInput.to_script_hash ∷ vin) f = fresh-IsAlone i vin f

distinct-NameDistinct :
    (vin : List TransactionInput)
    → AreDistinct (usage_keys vin)
    → NameDistinct (multisignature_inputs vin)
distinct-NameDistinct [] d = tt
distinct-NameDistinct (TransactionInput.multisignature i ∷ vin) (f, d) =
    (fresh-IsAlone i vin f, distinct-NameDistinct vin d)
distinct-NameDistinct (TransactionInput.to_key _ ∷ vin) d = distinct-NameDistinct vin d
distinct-NameDistinct (TransactionInput.generate _ ∷ vin) d = distinct-NameDistinct vin d
distinct-NameDistinct (TransactionInput.to_script ∷ vin) d = distinct-NameDistinct vin d
distinct-NameDistinct (TransactionInput.to_script_hash ∷ vin) d = distinct-NameDistinct vin d

-- The state after a push that went through.
abbrev pub pushed_state : Indices → Transaction → Hash → TransactionIndex → NumberSet → Indices
pushed_state s tx hash at keys =
    let maps =
      push_outputs at 0 tx.vout
        (s.outputs, write_all true s.multisignature_outputs (multisignature_inputs tx.vin)) in
    record {
      spent_keys = keys;
      outputs = maps.0;
      transaction_map = put s.transaction_map hash at;
      multisignature_outputs = maps.1;
    }

finish_push-pushed :
    (s s' : Indices) (tx : Transaction) (hash : Hash) (at : TransactionIndex) (keys : NumberSet)
    (gs : List ℕ)
    → AreUnused s.multisignature_outputs (multisignature_inputs tx.vin)
    → finish_push (recorded s hash at) tx at keys ≡ (s', pushed gs)
    → s' ≡ pushed_state s tx hash at keys
unfolding finish_push
finish_push-pushed s s' tx hash at keys gs u e =
    let m =
      mark_used-in tx.vin s.multisignature_outputs
        (AreUnused-AreInRange (multisignature_inputs tx.vin) s.multisignature_outputs u) in
    ap (λ p. p.0) (sym (rw (m, finish_push) at e))

conflicted-ne_pushed :
    (s s' : Indices) (hash : Hash) (kept : NumberSet) (complete : Bool) (gs : List ℕ)
    → conflicted s hash kept complete ≢ (s', pushed gs)
unfolding conflicted
conflicted-ne_pushed s s' hash kept true gs e = cc
conflicted-ne_pushed s s' hash kept false gs e = cc

-- What a push that went through has passed, and the state that it leaves.
pub push_transaction-pushed :
    (s s' : Indices) (tx : Transaction) (hash : Hash) (at : TransactionIndex) (gs : List ℕ)
    → AreUnused s.multisignature_outputs (multisignature_inputs tx.vin)
    → push_transaction s tx hash at ≡ (s', pushed gs)
    → (s.transaction_map hash ≡ none)
      × (check_multisignature_inputs_diff tx ≡ true)
      × ((keys : NumberSet) × (spend_keys s.spent_keys [] tx.vin ≡ spent keys)
          × (s' ≡ pushed_state s tx hash at keys))
push_transaction-pushed s s' tx hash at gs u h = elim (push_transaction-cases s tx hash at) [
  | inl (e, _) ↦ let h' = sym e ∙ h in cc h'
  | inr (free, inl (_, e)) ↦ let h' = sym e ∙ h in cc h'
  | inr (free, inr (d, inl (keys, k, e))) ↦
      (free, d, (keys, k, finish_push-pushed s s' tx hash at keys gs u (sym e ∙ h)))
  | inr (free, inr (_, inr (kept, complete, c, e))) ↦
      absurd (conflicted-ne_pushed (recorded s hash at) s' hash kept complete gs (sym e ∙ h))
]

pop_pushed_state :
    (s : Indices) (tx : Transaction) (hash : Hash) (at : TransactionIndex) (keys : NumberSet)
    → AreFilled (s.outputs, s.multisignature_outputs)
    → AreUnused s.multisignature_outputs (multisignature_inputs tx.vin)
    → NameDistinct (multisignature_inputs tx.vin)
    → s.transaction_map hash ≡ none
    → spend_keys s.spent_keys [] tx.vin ≡ spent keys
    → pop_transaction (pushed_state s tx hash at keys) tx hash ≡ some s
unfolding pop_transaction
pop_pushed_state s tx hash at keys (fo, fm) u d free k =
    let l = multisignature_inputs tx.vin in
    let m = s.multisignature_outputs in
    let marked = write_all true m l in
    let ranged = AreUnused-AreInRange l m u in
    let outs =
      pop_outputs-push_outputs tx.vout at 0 (s.outputs, marked)
        (fo, write_all-ne_empty l m true ranged fm) in
    rw (put_self s.transaction_map hash at, pop_transaction)
      (rw outs (
        rw
          (
            pop_inputs-in tx.vin
                (record (pushed_state s tx hash at keys) {
                  outputs = s.outputs;
                  multisignature_outputs = marked;
                })
                (AreInRange-write_all l l m true ranged),
            pop_transaction,
          )
          (λ i. some (record {
            spent_keys = remove_images-spend_keys tx.vin [] s.spent_keys keys k i;
            outputs = s.outputs;
            transaction_map = erase-put s.transaction_map hash at free i;
            multisignature_outputs = write_all-reset l m d u i;
          }))))

-- Popping a transaction undoes its push: from indices with no empty vector, and a transaction
-- whose multisignature inputs name outputs that are there and not used, every part of the indices
-- is again what it was.
pub pop_transaction-push_transaction :
    (s s' : Indices) (tx : Transaction) (hash : Hash) (at : TransactionIndex) (gs : List ℕ)
    → AreFilled (s.outputs, s.multisignature_outputs)
    → AreUnused s.multisignature_outputs (multisignature_inputs tx.vin)
    → push_transaction s tx hash at ≡ (s', pushed gs)
    → pop_transaction s' tx hash ≡ some s
pop_transaction-push_transaction s s' tx hash at gs f u h =
    let (free, d, (keys, k, e)) = push_transaction-pushed s s' tx hash at gs u h in
    rw e (
      pop_pushed_state s tx hash at keys f u
        (distinct-NameDistinct tx.vin ((check_multisignature_inputs_diff_lem tx).0 d)) free k)

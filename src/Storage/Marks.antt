-- ===== src/Storage/Marks.antt =====
-- Marking the inputs of a transaction as used, by the code, and what popping them does.
use bytecoin.Common.{
  ℕ, ◌<◌, ◌≡◌, refl, Bool, true, false, some, List, [], ◌∷◌, arith, length, All, ◌≢◌,
}
use bytecoin.Common.Map.{remove}
use bytecoin.Transaction.{TransactionInput, TransactionInputMultisignature}
use bytecoin.Storage.{Indices}
use bytecoin.Storage.Push.{vector_at, mark_used}
use bytecoin.Storage.Pop.{pop_inputs}
use bytecoin.Storage.Keys.{remove_images}
use bytecoin.Storage.Usage.{
  Usages, AreUnused, IsUnused-length, vector_at-write, write, write-ne_empty, write_all,
  set_usage-in, multisignature_inputs,
}

-- Every input names an output that is there.
abbrev pub AreInRange : Usages → List TransactionInputMultisignature → Type 0
AreInRange m = All (λ i. i.output_index < length (vector_at m i.amount))

pub AreUnused-AreInRange :
    (l : List TransactionInputMultisignature) (m : Usages) → AreUnused m l → AreInRange m l
AreUnused-AreInRange [] m u = tt
AreUnused-AreInRange (i ∷ l) m (h, u) =
    (IsUnused-length (vector_at m i.amount) i.output_index h, AreUnused-AreInRange l m u)

AreInRange-write :
    (l : List TransactionInputMultisignature) (m : Usages) (a i : ℕ) (x : Bool)
    → AreInRange m l
    → AreInRange (write m a i x) l
AreInRange-write [] m a i x h = tt
AreInRange-write (j ∷ l) m a i x (h, r) =
    (omega (arith, vector_at-write m a i j.amount x), AreInRange-write l m a i x r)

pub AreInRange-write_all :
    (k l : List TransactionInputMultisignature) (m : Usages) (x : Bool)
    → AreInRange m l
    → AreInRange (write_all x m k) l
unfolding write_all
AreInRange-write_all [] l m x h = h
AreInRange-write_all (i ∷ k) l m x h =
    AreInRange-write_all k l (write m i.amount i.output_index x) x
      (AreInRange-write l m i.amount i.output_index x h)

pub mark_used-in :
    (vin : List TransactionInput) (m : Usages)
    → AreInRange m (multisignature_inputs vin)
    → mark_used m vin ≡ some (write_all true m (multisignature_inputs vin))
unfolding mark_used write_all
mark_used-in [] m h = refl
mark_used-in (TransactionInput.multisignature i ∷ vin) m (h, r) =
    rw (set_usage-in m i.amount i.output_index true h, mark_used)
      (mark_used-in vin (write m i.amount i.output_index true)
        (AreInRange-write (multisignature_inputs vin) m i.amount i.output_index true r))
mark_used-in (TransactionInput.to_key _ ∷ vin) m h = mark_used-in vin m h
mark_used-in (TransactionInput.generate _ ∷ vin) m h = mark_used-in vin m h
mark_used-in (TransactionInput.to_script ∷ vin) m h = mark_used-in vin m h
mark_used-in (TransactionInput.to_script_hash ∷ vin) m h = mark_used-in vin m h

pub pop_inputs-in :
    (vin : List TransactionInput) (s : Indices)
    → AreInRange s.multisignature_outputs (multisignature_inputs vin)
    → pop_inputs s vin
      ≡ some (record s {
        spent_keys = remove_images s.spent_keys vin;
        multisignature_outputs =
            write_all false s.multisignature_outputs (multisignature_inputs vin);
      })
unfolding pop_inputs write_all
pop_inputs-in [] s h = refl
pop_inputs-in (TransactionInput.multisignature i ∷ vin) s (h, r) =
    rw (set_usage-in s.multisignature_outputs i.amount i.output_index false h, pop_inputs)
      (pop_inputs-in vin
        (record s {
          multisignature_outputs = write s.multisignature_outputs i.amount i.output_index false;
        })
        (AreInRange-write (multisignature_inputs vin) s.multisignature_outputs i.amount
          i.output_index false r))
pop_inputs-in (TransactionInput.to_key i ∷ vin) s h =
    pop_inputs-in vin (record s { spent_keys = remove s.spent_keys i.key_image }) h
pop_inputs-in (TransactionInput.generate _ ∷ vin) s h = pop_inputs-in vin s h
pop_inputs-in (TransactionInput.to_script ∷ vin) s h = pop_inputs-in vin s h
pop_inputs-in (TransactionInput.to_script_hash ∷ vin) s h = pop_inputs-in vin s h

pub write_all-ne_empty :
    (l : List TransactionInputMultisignature) (m : Usages) (x : Bool)
    → AreInRange m l
    → ((c : ℕ) → m c ≢ some [])
    → (c : ℕ) → write_all x m l c ≢ some []
unfolding write_all
write_all-ne_empty [] m x h k = k
write_all-ne_empty (i ∷ l) m x (h, r) k =
    write_all-ne_empty l (write m i.amount i.output_index x) x
      (AreInRange-write l m i.amount i.output_index x r)
      (write-ne_empty m i.amount i.output_index x h k)

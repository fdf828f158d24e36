-- ===== src/Pool/TemplateInputs.antt =====
-- What `canAdd` decides of the inputs of a transaction, and what `addTransaction` of class
-- BlockTemplate adds to its two sets.
use bytecoin.Common.{
  ℕ, ◌≡◌, ◌∙◌, Bool, true, false, not, ◌&&◌, ◌||◌, ◌⊎◌, inl, inr, List, [], ◌∷◌, ltb, ◌==◌, arith,
  ◌<◌, Bool-cases, and-eq_true, ==_iff, ==_self,
}
use bytecoin.Common.Map.{NumberSet, add}
use bytecoin.Transaction.{TransactionInput}
use bytecoin.Pool.{OutputSet}
use bytecoin.Pool.Inputs.{insert_output}
use bytecoin.Pool.Template.{can_add, use_inputs}
use bytecoin.Pool.Totals.{images_of, outputs_of}

false_of_not : (b : Bool) → not b ≡ true → b ≡ false
false_of_not b h = ground arith

pub can_add_image :
    (images : NumberSet) (outs : OutputSet) (vin : List TransactionInput) (k : ℕ)
    → can_add images outs vin ≡ true
    → 0 < images_of k vin
    → images k ≡ false
unfolding can_add images_of
can_add_image images outs [] k e h = absurd (omega arith)
can_add_image images outs (TransactionInput.to_key t ∷ vin) k e h =
    elim (Bool-cases (t.key_image == k)) [
      | inl s ↦
          let same = (==_iff t.key_image k).0 s in
          rw (← same) (false_of_not _ (and-eq_true _ _ e).0)
      | inr s ↦ can_add_image images outs vin k (and-eq_true _ _ e).1 (omega (arith, rw s at h))
    ]
can_add_image images outs (TransactionInput.multisignature t ∷ vin) k e h =
    can_add_image images outs vin k (and-eq_true _ _ e).1 h
can_add_image images outs (TransactionInput.generate _ ∷ vin) k e h =
    can_add_image images outs vin k e h
can_add_image images outs (TransactionInput.to_script ∷ vin) k e h =
    can_add_image images outs vin k e h
can_add_image images outs (TransactionInput.to_script_hash ∷ vin) k e h =
    can_add_image images outs vin k e h

pub can_add_output :
    (images : NumberSet) (outs : OutputSet) (vin : List TransactionInput) (a i : ℕ)
    → can_add images outs vin ≡ true
    → 0 < outputs_of a i vin
    → outs a i ≡ false
unfolding can_add outputs_of
can_add_output images outs [] a i e h = absurd (omega arith)
can_add_output images outs (TransactionInput.multisignature t ∷ vin) a i e h =
    elim (Bool-cases (a == t.amount)) [
      | inl s ↦ elim (Bool-cases (i == t.output_index)) [
        | inl r ↦
            let same = (==_iff a t.amount).0 s in
            let same' = (==_iff i t.output_index).0 r in
            rw (same, same') (false_of_not _ (and-eq_true _ _ e).0)
        | inr r ↦
            can_add_output images outs vin a i (and-eq_true _ _ e).1 (omega (arith, rw (s, r) at h))
      ]
      | inr s ↦ can_add_output images outs vin a i (and-eq_true _ _ e).1 (omega (arith, rw s at h))
    ]
can_add_output images outs (TransactionInput.to_key t ∷ vin) a i e h =
    can_add_output images outs vin a i (and-eq_true _ _ e).1 h
can_add_output images outs (TransactionInput.generate _ ∷ vin) a i e h =
    can_add_output images outs vin a i e h
can_add_output images outs (TransactionInput.to_script ∷ vin) a i e h =
    can_add_output images outs vin a i e h
can_add_output images outs (TransactionInput.to_script_hash ∷ vin) a i e h =
    can_add_output images outs vin a i e h

-- An input that stands in the way: a key image or an output that is in the sets.
abbrev pub Blocked : NumberSet → OutputSet → List TransactionInput → Type 0
Blocked images outs vin =
    ((k : ℕ) × (0 < images_of k vin) × (images k ≡ true))
    ⊎ ((a : ℕ) × (i : ℕ) × (0 < outputs_of a i vin) × (outs a i ≡ true))

Blocked-later :
    (images : NumberSet) (outs : OutputSet) (x : TransactionInput) (vin : List TransactionInput)
    → Blocked images outs vin
    → Blocked images outs (x ∷ vin)
unfolding images_of outputs_of
Blocked-later images outs (TransactionInput.to_key t) vin (inl (k, h, e)) = inl (k, omega arith, e)
Blocked-later images outs (TransactionInput.to_key t) vin (inr b) = inr b
Blocked-later images outs (TransactionInput.multisignature t) vin (inl b) = inl b
Blocked-later images outs (TransactionInput.multisignature t) vin (inr (a, i, h, e)) =
    inr (a, i, omega arith, e)
Blocked-later images outs (TransactionInput.generate _) vin b = b
Blocked-later images outs TransactionInput.to_script vin b = b
Blocked-later images outs TransactionInput.to_script_hash vin b = b

not_and : (a b : Bool) → (not a && b) ≡ false → a ≡ false → b ≡ false
not_and a b e h = ground arith

pub can_add-Blocked :
    (images : NumberSet) (outs : OutputSet) (vin : List TransactionInput)
    → can_add images outs vin ≡ false
    → Blocked images outs vin
unfolding can_add images_of outputs_of
can_add-Blocked images outs [] e = absurd (ground arith)
can_add-Blocked images outs (TransactionInput.to_key t ∷ vin) e =
    elim (Bool-cases (images t.key_image)) [
      | inl s ↦ inl (t.key_image, rw (==_self t.key_image) (omega arith), s)
      | inr s ↦
          Blocked-later images outs (TransactionInput.to_key t) vin
            (can_add-Blocked images outs vin (not_and _ _ e s))
    ]
can_add-Blocked images outs (TransactionInput.multisignature t ∷ vin) e =
    elim (Bool-cases (outs t.amount t.output_index)) [
      | inl s ↦
          inr (
            t.amount,
            t.output_index,
            rw (==_self t.amount, ==_self t.output_index) (omega arith),
            s,
          )
      | inr s ↦
          Blocked-later images outs (TransactionInput.multisignature t) vin
            (can_add-Blocked images outs vin (not_and _ _ e s))
    ]
can_add-Blocked images outs (TransactionInput.generate _ ∷ vin) e =
    can_add-Blocked images outs vin e
can_add-Blocked images outs (TransactionInput.to_script ∷ vin) e = can_add-Blocked images outs vin e
can_add-Blocked images outs (TransactionInput.to_script_hash ∷ vin) e =
    can_add-Blocked images outs vin e

pub use_inputs_image :
    (images : NumberSet) (outs : OutputSet) (vin : List TransactionInput) (k : ℕ)
    → (use_inputs (images, outs) vin).0 k ≡ (images k || ltb 0 (images_of k vin))
unfolding use_inputs images_of
use_inputs_image images outs [] k = ground arith
use_inputs_image images outs (TransactionInput.to_key t ∷ vin) k =
    use_inputs_image (add images t.key_image) outs vin k
    ∙ unfold add in ground (arith, ==_iff t.key_image k)
use_inputs_image images outs (TransactionInput.multisignature t ∷ vin) k =
    use_inputs_image images (insert_output outs t.amount t.output_index) vin k
use_inputs_image images outs (TransactionInput.generate _ ∷ vin) k =
    use_inputs_image images outs vin k
use_inputs_image images outs (TransactionInput.to_script ∷ vin) k =
    use_inputs_image images outs vin k
use_inputs_image images outs (TransactionInput.to_script_hash ∷ vin) k =
    use_inputs_image images outs vin k

pub use_inputs_output :
    (images : NumberSet) (outs : OutputSet) (vin : List TransactionInput) (a i : ℕ)
    → (use_inputs (images, outs) vin).1 a i ≡ (outs a i || ltb 0 (outputs_of a i vin))
unfolding use_inputs outputs_of
use_inputs_output images outs [] a i = ground arith
use_inputs_output images outs (TransactionInput.multisignature t ∷ vin) a i =
    use_inputs_output images (insert_output outs t.amount t.output_index) vin a i
    ∙ unfold insert_output in ground arith
use_inputs_output images outs (TransactionInput.to_key t ∷ vin) a i =
    use_inputs_output (add images t.key_image) outs vin a i
use_inputs_output images outs (TransactionInput.generate _ ∷ vin) a i =
    use_inputs_output images outs vin a i
use_inputs_output images outs (TransactionInput.to_script ∷ vin) a i =
    use_inputs_output images outs vin a i
use_inputs_output images outs (TransactionInput.to_script_hash ∷ vin) a i =
    use_inputs_output images outs vin a i

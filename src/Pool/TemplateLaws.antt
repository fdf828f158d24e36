-- ===== src/Pool/TemplateLaws.antt =====
-- What `fill_block_template` picks: the transactions in the order of their priority, each that is ready,
-- fits and spends nothing twice.
use bytecoin.Common.{
  ℕ, ◌+◌, ◌%◌, ◌^◌, ◌≤◌, ◌<◌, ◌≡◌, refl, ap, ◌∙◌, true, false, ◌⊎◌, inl, inr, List, [], ◌∷◌, ◌++◌,
  ltb, if◌then◌else◌, arith, All, Bool-cases, append-nil, append_assoc,
}
use bytecoin.Common.Word.{add64}
use bytecoin.Transaction.{Hash}
use bytecoin.Pool.{TransactionDetails, TransactionValidator}
use bytecoin.Pool.Template.{
  BlockTemplate, can_add, add_transaction, is_transaction_ready_to_go, fill_step, fill_loop,
}
use bytecoin.Pool.Totals.{Weight, total, total-append, images_of, outputs_of}
use bytecoin.Pool.TemplateInputs.{
  can_add_image, can_add_output, can_add-Blocked, use_inputs_image, use_inputs_output,
}

abbrev pub image_weight : ℕ → Weight
image_weight k d = images_of k d.tx.vin

abbrev pub output_weight : ℕ → ℕ → Weight
output_weight a i d = outputs_of a i d.tx.vin

abbrev pub total_blob_size : List TransactionDetails → ℕ
total_blob_size = total (λ d. d.blob_size)

abbrev pub total_fee : List TransactionDetails → ℕ
total_fee = total (λ d. d.fee)

abbrev pub ids_of : List TransactionDetails → List Hash
ids_of [] = []
ids_of (d ∷ ds) = d.id ∷ ids_of ds

-- An input of the element that one of the list spends too.
abbrev pub Conflicts : List TransactionDetails → TransactionDetails → Type 0
Conflicts before d =
    ((k : ℕ) × (0 < images_of k d.tx.vin) × (0 < total (image_weight k) before))
    ⊎ ((a : ℕ) × (i : ℕ) × (0 < outputs_of a i d.tx.vin) × (0 < total (output_weight a i) before))

-- `Picks before ds cs`: behind the elements `before`, the elements `cs` are picked out of `ds`. An
-- element is picked where it fits, is ready and does not conflict, and left for a reason.
pub data Picks (v : TransactionValidator) (limit : ℕ)
    : List TransactionDetails → List TransactionDetails → List TransactionDetails → Type 0 where
  finished : (before : List TransactionDetails) → Picks v limit before [] []
  left :
      (before : List TransactionDetails) (d : TransactionDetails) {ds cs : List TransactionDetails}
      → (limit < total_blob_size before + d.blob_size)
        ⊎ ((is_transaction_ready_to_go v d).0 ≡ false)
        ⊎ Conflicts before d
      → Picks v limit before ds cs
      → Picks v limit before (d ∷ ds) cs
  picked :
      (before : List TransactionDetails) (d : TransactionDetails) {ds cs : List TransactionDetails}
      → total_blob_size before + d.blob_size ≤ limit
      → (is_transaction_ready_to_go v d).0 ≡ true
      → ¬ Conflicts before d
      → Picks v limit (before ++ d ∷ []) ds cs
      → Picks v limit before (d ∷ ds) (d ∷ cs)

-- What a template says of the elements that it holds.
pub record Represents (limit : ℕ) (t : BlockTemplate) (before : List TransactionDetails)
    : Type 0 where
  pub hashes : t.tx_hashes ≡ ids_of before
  pub size : t.total_size ≡ total_blob_size before
  pub fits : total_blob_size before ≤ limit
  pub fees : t.fee ≡ total_fee before % 2 ^ 64
  pub images : (k : ℕ) → t.key_images k ≡ ltb 0 (total (image_weight k) before)
  pub outs : (a i : ℕ) → t.used_outputs a i ≡ ltb 0 (total (output_weight a i) before)

ids-append :
    (ds : List TransactionDetails) (d : TransactionDetails)
    → ids_of (ds ++ d ∷ []) ≡ ids_of ds ++ d.id ∷ []
ids-append [] d = refl
ids-append (x ∷ ds) d = ap (λ l. x.id ∷ l) (ids-append ds d)

pub total-snoc :
    (f : Weight) (ds : List TransactionDetails) (d : TransactionDetails)
    → total f (ds ++ d ∷ []) ≡ total f ds + f d
unfolding total
total-snoc f ds d = total-append f ds (d ∷ []) ∙ omega arith

module _ (limit : ℕ) (t : BlockTemplate) (before : List TransactionDetails) (d : TransactionDetails)
    (rep : Represents limit t before) where
  conflict_found : can_add t.key_images t.used_outputs d.tx.vin ≡ false → Conflicts before d
  conflict_found e = elim (can_add-Blocked t.key_images t.used_outputs d.tx.vin e) [
    | inl (k, h, s) ↦ inl (k, h, ground (arith, rep.images k))
    | inr (a, i, h, s) ↦ inr (a, i, h, ground (arith, rep.outs a i))
  ]

  no_conflict : can_add t.key_images t.used_outputs d.tx.vin ≡ true → ¬ Conflicts before d
  no_conflict e (inl (k, h, s)) =
      ground (arith, rep.images k, can_add_image t.key_images t.used_outputs d.tx.vin k e h)
  no_conflict e (inr (a, i, h, s)) =
      ground (arith, rep.outs a i, can_add_output t.key_images t.used_outputs d.tx.vin a i e h)

  added-Represents :
      can_add t.key_images t.used_outputs d.tx.vin ≡ true
      → total_blob_size before + d.blob_size ≤ limit
      → limit + d.blob_size < 2 ^ 64
      → Represents limit (add_transaction t d) (before ++ d ∷ [])
  unfolding add_transaction
  added-Represents e fit small = rw e record {
    hashes = rw (ids-append before d, rep.hashes);
    size = rw (total-snoc (λ x. x.blob_size) before d) (omega (arith, rep.size));
    fits = rw (total-snoc (λ x. x.blob_size) before d) fit;
    fees = rw (total-snoc (λ x. x.fee) before d) (omega (arith, rep.fees));
    images = λ k.
        rw
          (
            total-snoc (image_weight k) before d,
            use_inputs_image t.key_images t.used_outputs d.tx.vin k,
          )
          (ground (arith, rep.images k));
    outs = λ a i.
        rw
          (
            total-snoc (output_weight a i) before d,
            use_inputs_output t.key_images t.used_outputs d.tx.vin a i,
          )
          (ground (arith, rep.outs a i));
  }

not_added :
    (t : BlockTemplate) (d : TransactionDetails)
    → can_add t.key_images t.used_outputs d.tx.vin ≡ false
    → add_transaction t d ≡ t
unfolding add_transaction
not_added t d e = rw e

-- The picks of the rest of the loop, with the template that it leaves.
abbrev pub RestPicked :
    TransactionValidator
    → ℕ
    → BlockTemplate
    → List TransactionDetails
    → List TransactionDetails
    → Type 0
RestPicked v limit t before ds =
    (cs : List TransactionDetails) × Picks v limit before ds cs
    × Represents limit (fill_loop v limit t ds).1 (before ++ cs)

module _ (v : TransactionValidator) (limit : ℕ) where
  too_large :
      (t : BlockTemplate) (d : TransactionDetails)
      → ltb limit (add64 t.total_size d.blob_size) ≡ true
      → (fill_step v limit t d).1 ≡ t
  unfolding fill_step
  too_large t d e = rw e

  in_size :
      (t : BlockTemplate) (d : TransactionDetails)
      → ltb limit (add64 t.total_size d.blob_size) ≡ false
      → (fill_step v limit t d).1
        ≡ (if (is_transaction_ready_to_go v d).0 then add_transaction t d else t)
  unfolding fill_step
  in_size t d e = rw e

  pub fill_loop_lem :
      (t : BlockTemplate) (before ds : List TransactionDetails)
      → Represents limit t before
      → All (λ d. limit + d.blob_size < 2 ^ 64) ds
      → RestPicked v limit t before ds
  unfolding fill_loop
  fill_loop_lem t before [] rep small = ([], finished before, rw append-nil rep)
  fill_loop_lem t before (d ∷ ds) rep (s, small) =
      elim (Bool-cases (ltb limit (add64 t.total_size d.blob_size))) [
        | inl big ↦
            let (cs, picks, after) = fill_loop_lem t before ds rep small in
            (
              cs,
              left before d (inl (ground (arith, rep.size, rep.fits))) picks,
              rw (too_large t d big) after,
            )
        | inr fit ↦ elim (Bool-cases (is_transaction_ready_to_go v d).0) [
          | inr unready ↦
              let (cs, picks, after) = fill_loop_lem t before ds rep small in
              (cs, left before d (inr (inl unready)) picks, rw (in_size t d fit, unready) after)
          | inl ready ↦ elim (Bool-cases (can_add t.key_images t.used_outputs d.tx.vin)) [
            | inr blocked ↦
                let (cs, picks, after) = fill_loop_lem t before ds rep small in
                (
                  cs,
                  left before d (inr (inr (conflict_found limit t before d rep blocked))) picks,
                  rw (in_size t d fit, ready, not_added t d blocked) after,
                )
            | inl free ↦
                let size : total_blob_size before + d.blob_size ≤ limit =
                  ground (arith, rep.size, rep.fits) in
                let next = added-Represents limit t before d rep free size s in
                let (cs, picks, after) =
                  fill_loop_lem (add_transaction t d) (before ++ d ∷ []) ds next small in
                (
                  d ∷ cs,
                  picked before d size ready (no_conflict limit t before d rep free) picks,
                  rw (in_size t d fit, ready) (rw (← append_assoc before (d ∷ []) cs) after),
                )
          ]
        ]
      ]

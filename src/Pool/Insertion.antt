-- ===== src/Pool/Insertion.antt =====
-- The insertion of `add_tx` keeps the pool consistent.
use bytecoin.Common.{
  ℕ, zero, suc, ◌+◌, ◌≤◌, ◌<◌, ◌≡◌, refl, sym, ◌∙◌, true, false, not, ◌||◌, inl, inr, Option, none,
  some, List, [], ◌∷◌, ◌==◌, arith, Bool-cases, Option-cases, ==_iff, or-eq_false,
}
use bytecoin.Common.Map.{Map}
use bytecoin.Transaction.{Hash, TransactionInput}
use bytecoin.Pool.{OutputSet, TransactionDetails, Pool}
use bytecoin.Pool.Inputs.{hash_set, is_empty, is_there, have_spent_inputs, add_transaction_inputs}
use bytecoin.Pool.Order.{comes_before, insert_by_fee, find_transaction}
use bytecoin.Pool.Calls.{have_tx}
use bytecoin.Pool.Totals.{
  total, images_of, outputs_of, with_id, holding, free_image, free_output, total-insert_by_fee,
  not_found, none_holds,
}
use bytecoin.Pool.Marking.{occurrences, mark_images, mark_images_lem, mark_images-AreHeld}
use bytecoin.Pool.Adding.{HasRoom, mark_outputs, mark_outputs_lem, add_transaction_inputs_lem}
use bytecoin.Pool.Consistency.{HasDistinctInputs, AreDistinctWithin, IsConsistent}

pub unspent_image :
    (images : Map (List Hash)) (outs : OutputSet) (vin : List TransactionInput) (k : ℕ)
    → have_spent_inputs (images, outs) vin ≡ false
    → 0 < images_of k vin
    → is_there (images k) ≡ false
unfolding have_spent_inputs images_of
unspent_image images outs [] k e h = absurd (omega arith)
unspent_image images outs (TransactionInput.to_key t ∷ vin) k e h =
    elim (Bool-cases (t.key_image == k)) [
      | inl s ↦ let same = (==_iff t.key_image k).0 s in rw (← same) (or-eq_false _ _ e).0
      | inr s ↦ unspent_image images outs vin k (or-eq_false _ _ e).1 (omega (arith, rw s at h))
    ]
unspent_image images outs (TransactionInput.multisignature t ∷ vin) k e h =
    unspent_image images outs vin k (or-eq_false _ _ e).1 h
unspent_image images outs (TransactionInput.generate _ ∷ vin) k e h =
    unspent_image images outs vin k e h
unspent_image images outs (TransactionInput.to_script ∷ vin) k e h =
    unspent_image images outs vin k e h
unspent_image images outs (TransactionInput.to_script_hash ∷ vin) k e h =
    unspent_image images outs vin k e h

pub unspent_output :
    (images : Map (List Hash)) (outs : OutputSet) (vin : List TransactionInput) (a i : ℕ)
    → have_spent_inputs (images, outs) vin ≡ false
    → 0 < outputs_of a i vin
    → outs a i ≡ false
unfolding have_spent_inputs outputs_of
unspent_output images outs [] a i e h = absurd (omega arith)
unspent_output images outs (TransactionInput.multisignature t ∷ vin) a i e h =
    elim (Bool-cases (a == t.amount)) [
      | inl s ↦ elim (Bool-cases (i == t.output_index)) [
        | inl r ↦
            let same = (==_iff a t.amount).0 s in
            let same' = (==_iff i t.output_index).0 r in rw (same, same') (or-eq_false _ _ e).0
        | inr r ↦
            unspent_output images outs vin a i (or-eq_false _ _ e).1 (omega (arith, rw (s, r) at h))
      ]
      | inr s ↦ unspent_output images outs vin a i (or-eq_false _ _ e).1 (omega (arith, rw s at h))
    ]
unspent_output images outs (TransactionInput.to_key t ∷ vin) a i e h =
    unspent_output images outs vin a i (or-eq_false _ _ e).1 h
unspent_output images outs (TransactionInput.generate _ ∷ vin) a i e h =
    unspent_output images outs vin a i e h
unspent_output images outs (TransactionInput.to_script ∷ vin) a i e h =
    unspent_output images outs vin a i e h
unspent_output images outs (TransactionInput.to_script_hash ∷ vin) a i e h =
    unspent_output images outs vin a i e h

pub set_empty : (o : Option (List Hash)) → is_there o ≡ false → hash_set o ≡ []
set_empty none e = refl
set_empty (some l) e = cc

is_empty_set : (o : Option (List Hash)) → is_there o ≡ false → is_empty (hash_set o) ≡ true
is_empty_set none e = refl
is_empty_set (some l) e = cc

AreDistinctWithin-insert :
    (d : TransactionDetails) (ds : List TransactionDetails)
    → HasDistinctInputs d.tx
    → AreDistinctWithin ds
    → AreDistinctWithin (insert_by_fee d ds)
unfolding insert_by_fee
AreDistinctWithin-insert d [] h a = (h, tt)
AreDistinctWithin-insert d (e ∷ ds) h (g, a) = elim (Bool-cases (comes_before d e)) [
  | inl s ↦ rw s (h, (g, a))
  | inr s ↦ rw s (g, AreDistinctWithin-insert d ds h a)
]

pub have_tx-false :
    (p : Pool) (id : Hash) → have_tx p id ≡ false → find_transaction id p.transactions ≡ none
unfolding have_tx
have_tx-false p id e = elim (Option-cases (find_transaction id p.transactions)) [
  | inl n ↦ n
  | inr (d, s) ↦ cc (rw (s, have_tx) at e)
]

-- The pool with an element and its inputs.
unfoldable pub after_insertion : Pool → TransactionDetails → Pool
after_insertion p d = record p {
  transactions = insert_by_fee d p.transactions;
  spent_key_images = mark_images d.id p.spent_key_images d.tx.vin;
  spent_outputs = mark_outputs d.kept_by_block p.spent_outputs d.tx.vin;
}

-- An element for a consistent pool: its hash is new, and its inputs are distinct and, if no block
-- keeps it, not spent by another.
module _ (p : Pool) (d : TransactionDetails) (ok : IsConsistent p)
    (distinct : HasDistinctInputs d.tx) (new : have_tx p d.id ≡ false)
    (unspent : (d.kept_by_block
        || not (have_spent_inputs (p.spent_key_images, p.spent_outputs) d.tx.vin))
      ≡ true) where
  id_absent : total (with_id d.id) p.transactions ≡ 0
  id_absent = (not_found d.id p.transactions (have_tx-false p d.id new)).0

  not_holding : (k : ℕ) → total (holding k d.id) p.transactions ≡ 0
  not_holding = (not_found d.id p.transactions (have_tx-false p d.id new)).1

  free_unspent :
      d.kept_by_block ≡ false
      → have_spent_inputs (p.spent_key_images, p.spent_outputs) d.tx.vin ≡ false
  free_unspent f = ground arith

  free_set :
      (k : ℕ)
      → d.kept_by_block ≡ false
      → 0 < images_of k d.tx.vin
      → is_there (p.spent_key_images k) ≡ false
  free_set k f h = unspent_image p.spent_key_images p.spent_outputs d.tx.vin k (free_unspent f) h

  room : HasRoom d.id d.kept_by_block p.spent_key_images d.tx.vin
  room k h = (
    ok.held k d.id ∙ not_holding k,
    elim (Bool-cases d.kept_by_block) [
      | inl s ↦ rw s
      | inr s ↦ rw s (is_empty_set (p.spent_key_images k) (free_set k s h))
    ],
  )

  pub inputs_added :
      add_transaction_inputs d.id d.kept_by_block (p.spent_key_images, p.spent_outputs) d.tx.vin ≡ (
        (
          mark_images d.id p.spent_key_images d.tx.vin,
          mark_outputs d.kept_by_block p.spent_outputs d.tx.vin,
        ),
        true,
      )
  inputs_added =
      add_transaction_inputs_lem d.id d.kept_by_block p.spent_key_images p.spent_outputs d.tx.vin
        distinct.images room

  ids_after : (h : Hash) → with_id h d + total (with_id h) p.transactions ≤ 1
  ids_after h = elim (Bool-cases (d.id == h)) [
    | inl s ↦ let same = (==_iff d.id h).0 s in rw (← same) (ground (arith, id_absent))
    | inr s ↦ rw s (omega (arith, ok.ids h))
  ]

  images_after : (k : ℕ) → free_image k d + total (free_image k) p.transactions ≤ 1
  images_after k = elim (Bool-cases d.kept_by_block) [
    | inl s ↦ rw s (omega (arith, ok.single_images k))
    | inr s ↦ rw s (images_free s (images_of k d.tx.vin) refl)
  ]
    where
      no_other :
          d.kept_by_block ≡ false
          → 0 < images_of k d.tx.vin
          → total (free_image k) p.transactions ≡ 0
      no_other s h = none_holds k p.transactions (λ x.
          sym (ok.held k x)
          ∙ rw (set_empty (p.spent_key_images k) (free_set k s h)) (unfold occurrences in refl))

      images_free :
          d.kept_by_block ≡ false
          → (n : ℕ) → images_of k d.tx.vin ≡ n
          → images_of k d.tx.vin + total (free_image k) p.transactions ≤ 1
      images_free s zero e = omega (arith, ok.single_images k)
      images_free s (suc n) e = omega (arith, no_other s (omega arith), distinct.images k)

  outputs_after : (a i : ℕ) → free_output a i d + total (free_output a i) p.transactions ≤ 1
  outputs_after a i = elim (Bool-cases d.kept_by_block) [
    | inl s ↦ rw s (omega (arith, ok.single_outputs a i))
    | inr s ↦ rw s (
        ground (
          arith,
          ok.single_outputs a i,
          ok.outputs a i,
          distinct.outputs a i,
          unspent_output p.spent_key_images p.spent_outputs d.tx.vin a i (free_unspent s),
        ))
  ]

  pub after_insertion-IsConsistent : IsConsistent (after_insertion p d)
  unfolding after_insertion
  after_insertion-IsConsistent = record {
    ids = λ h. rw (total-insert_by_fee (with_id h) d p.transactions) (ids_after h);
    held = λ k h.
        rw
          (
            total-insert_by_fee (holding k h) d p.transactions,
            mark_images_lem d.id p.spent_key_images d.tx.vin h k,
          )
          (ground (arith, ok.held k h));
    filled = mark_images-AreHeld d.id p.spent_key_images d.tx.vin ok.filled;
    outputs = λ a i.
        rw
          (
            total-insert_by_fee (free_output a i) d p.transactions,
            mark_outputs_lem d.kept_by_block p.spent_outputs d.tx.vin a i,
          )
          (ground (arith, ok.outputs a i));
    single_images = λ k. rw (total-insert_by_fee (free_image k) d p.transactions) (images_after k);
    single_outputs =
        λ a i. rw (total-insert_by_fee (free_output a i) d p.transactions) (outputs_after a i);
    distinct = AreDistinctWithin-insert d p.transactions distinct ok.distinct;
  }

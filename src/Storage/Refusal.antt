-- ===== src/Storage/Refusal.antt =====
-- The ways through `pushTransaction`, and what a refused push leaves.
use bytecoin.Common.{
  ◌≡◌, refl, sym, ap, ◌∙◌, ◌≢◌, ◌⊎◌, inl, inr, Bool, true, false, none, [], Bool-cases,
  Option-cases,
}
use bytecoin.Common.Map.{NumberSet, put, erase, erase-put}
use bytecoin.Transaction.{Hash, Transaction}
use bytecoin.Transaction.Amounts.{check_multisignature_inputs_diff}
use bytecoin.Storage.{TransactionIndex, Indices}
use bytecoin.Storage.Push.{
  refused, SpendResult, spent, conflict, spend_keys, mark_used, finish_push, conflicted,
  push_transaction,
}
use bytecoin.Storage.Keys.{conflict-kept}

SpendResult-cases :
    (r : SpendResult)
    → ((keys : NumberSet) × (r ≡ spent keys))
      ⊎ ((kept : NumberSet) × (complete : Bool) × (r ≡ conflict kept complete))
SpendResult-cases (spent keys) = inl (keys, refl)
SpendResult-cases (conflict kept complete) = inr (kept, complete, refl)

-- The state with the transaction in the map.
abbrev pub recorded : Indices → Hash → TransactionIndex → Indices
recorded s hash at = record s { transaction_map = put s.transaction_map hash at }

-- The four ways through `pushTransaction`.
pub push_transaction-cases :
    (s : Indices) (tx : Transaction) (hash : Hash) (at : TransactionIndex)
    → ((push_transaction s tx hash at ≡ (s, refused)) × (s.transaction_map hash ≢ none))
      ⊎ ((s.transaction_map hash ≡ none)
          × (((check_multisignature_inputs_diff tx ≡ false)
                × (push_transaction s tx hash at ≡ (
                  record s { transaction_map = erase (put s.transaction_map hash at) hash },
                  refused,
                )))
              ⊎ ((check_multisignature_inputs_diff tx ≡ true)
                  × (((keys : NumberSet) × (spend_keys s.spent_keys [] tx.vin ≡ spent keys)
                        × (push_transaction s tx hash at
                            ≡ finish_push (recorded s hash at) tx at keys))
                      ⊎ ((kept : NumberSet) × (complete : Bool) × (spend_keys s.spent_keys [] tx.vin
                            ≡ conflict kept complete)
                          × (push_transaction s tx hash at
                              ≡ conflicted (recorded s hash at) hash kept complete))))))
unfolding push_transaction
push_transaction-cases s tx hash at = elim (Option-cases (s.transaction_map hash)) [
  | inr (old, e) ↦ inl (rw (e, push_transaction), λ n. cc)
  | inl e ↦ inr (
    e,
    elim (Bool-cases (check_multisignature_inputs_diff tx)) [
      | inl d ↦ inr (
        d,
        elim (SpendResult-cases (spend_keys s.spent_keys [] tx.vin)) [
          | inl (keys, p) ↦
              inl (keys, p, rw (e, push_transaction) (rw d (rw (p, push_transaction))))
          | inr (kept, complete, p) ↦
              inr (kept, complete, p, rw (e, push_transaction) (rw d (rw (p, push_transaction))))
        ],
      )
      | inr d ↦ inl (d, rw (e, push_transaction) (rw d))
    ],
  )
]

finish_push-ne_refused :
    (s s' : Indices) (tx : Transaction) (at : TransactionIndex) (keys : NumberSet)
    → finish_push s tx at keys ≢ (s', refused)
unfolding finish_push
finish_push-ne_refused s s' tx at keys e =
    elim (Option-cases (mark_used s.multisignature_outputs tx.vin)) [
      | inl n ↦ let e' = rw (n, finish_push) at e in cc e'
      | inr (m, h) ↦ let e' = rw (h, finish_push) at e in cc e'
    ]

restored :
    (s : Indices) (hash : Hash) (at : TransactionIndex)
    → s.transaction_map hash ≡ none
    → record s { transaction_map = erase (put s.transaction_map hash at) hash } ≡ s
restored s hash at e = λ i. record s { transaction_map = erase-put s.transaction_map hash at e i }

conflicted-refused :
    (s s' : Indices) (hash : Hash) (at : TransactionIndex) (kept : NumberSet) (complete : Bool)
    → s.transaction_map hash ≡ none
    → (complete ≡ true → kept ≡ s.spent_keys)
    → conflicted (recorded s hash at) hash kept complete ≡ (s', refused)
    → s' ≡ s
unfolding conflicted
conflicted-refused s s' hash at kept true e k h =
    let same : s' ≡ record s {
      spent_keys = kept;
      transaction_map = erase (put s.transaction_map hash at) hash;
    } =
      ap (λ p. p.0) (sym h) in
    same ∙ (λ i. record s {
      spent_keys = k refl i;
      transaction_map = erase-put s.transaction_map hash at e i;
    })
conflicted-refused s s' hash at kept false e k h = cc

-- A push that returns `false` leaves the indices as they were: its entry in the transaction map
-- and the key images that it had added are taken out again.
pub push_transaction-refused :
    (s s' : Indices) (tx : Transaction) (hash : Hash) (at : TransactionIndex)
    → push_transaction s tx hash at ≡ (s', refused)
    → s' ≡ s
push_transaction-refused s s' tx hash at h = elim (push_transaction-cases s tx hash at) [
  | inl (e, _) ↦ ap (λ p. p.0) (sym h ∙ e)
  | inr (free, inl (_, e)) ↦ ap (λ p. p.0) (sym h ∙ e) ∙ restored s hash at free
  | inr (free, inr (_, inl (keys, _, e))) ↦
      absurd (finish_push-ne_refused (recorded s hash at) s' tx at keys (sym e ∙ h))
  | inr (free, inr (_, inr (kept, complete, c, e))) ↦
      conflicted-refused s s' hash at kept complete free
        (λ t. conflict-kept s.spent_keys kept tx.vin (rw t at c)) (sym e ∙ h)
]

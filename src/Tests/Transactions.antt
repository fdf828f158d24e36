-- ===== src/Tests/Transactions.antt =====
-- Transactions at work: a key input and a multisignature input, pushed and popped.
use bytecoin.Common.{
  ℕ, ◌<◌, ◌≡◌, refl, ◌↔◌, ◌≢◌, ◌^◌, true, false, none, some, [], ◌∷◌, arith, ◌==◌, if◌then◌else◌,
  All, Bool-cases, inl, inr,
}
use bytecoin.Common.Map.{put, add}
use bytecoin.Storage.Outs.{AreFilled}
use bytecoin.Storage.Usage.{AreUnused, multisignature_inputs}
use bytecoin.Common.Sort.{sort}
use bytecoin.Transaction.{
  KeyImage, Transaction, TransactionInput, TransactionInputToKey, TransactionInputMultisignature,
  TransactionOutputTarget,
}
use bytecoin.Transaction.Amounts.{
  input_amount, check_money_overflow, check_multisignature_inputs_diff,
}
use bytecoin.Transaction.AmountLaws.{InputsU64, inputs_total, outs_total, check_money_overflow_lem}
use bytecoin.Transaction.Offsets.{
  relative_output_offsets_to_absolute, absolute_output_offsets_to_relative, relative-absolute,
}
use bytecoin.Storage.{TransactionIndex, MultisignatureOutputUsage, Indices}
use bytecoin.Storage.Push.{pushed, refused, bad_get, push_transaction}
use bytecoin.Storage.Pop.{pop_transaction}
use bytecoin.Storage.Refusal.{push_transaction-refused}
use bytecoin.Storage.Undo.{pop_transaction-push_transaction}
use bytecoin.Storage.Spending.{
  key_images, AreUnspent, NoRepeat, push_transaction-spends, push_transaction-bad_get,
}

abbrev key_input : TransactionInputToKey
key_input = record { amount = 10; key_offsets = 4 ∷ []; key_image = 7 }

abbrev shared_input : TransactionInputMultisignature
shared_input = record { amount = 5; signatures = 1; output_index = 0 }

abbrev payment : Transaction
payment = record {
  version = 1;
  unlock_time = 0;
  vin = TransactionInput.to_key key_input ∷ TransactionInput.multisignature shared_input ∷ [];
  vout =
      record { amount = 3; target = TransactionOutputTarget.to_key 21 }
      ∷ record {
        amount = 5;
        target =
            TransactionOutputTarget.multisignature
              (record { keys = 8 ∷ []; required_signatures = 1 });
      }
      ∷ [];
  extra = [];
  signatures = (1 ∷ []) ∷ (2 ∷ []) ∷ [];
}

abbrev shared_usage : MultisignatureOutputUsage
shared_usage = record {
  transaction_index = record { block = 0; transaction = 0 };
  output_index = 0;
  is_used = false;
}

abbrev place : TransactionIndex
place = record { block = 3; transaction = 1 }

abbrev start : Indices
start = record {
  spent_keys = λ k. k == 2;
  outputs = λ a. none;
  transaction_map = λ h. none;
  multisignature_outputs = λ a. if a == 5 then some (shared_usage ∷ []) else none;
}

abbrev after : Indices
after = (push_transaction start payment 99 place).0

payment_pushed : push_transaction start payment 99 place ≡ (after, pushed (0 ∷ 1 ∷ []))
unfolding push_transaction check_multisignature_inputs_diff put
payment_pushed = refl

start-AreFilled : AreFilled (start.outputs, start.multisignature_outputs)
start-AreFilled = (λ a e. cc e, λ a e. filled a e)
  where
    filled : (a : ℕ) → (if a == 5 then some (shared_usage ∷ []) else none) ≢ some []
    filled a = elim (Bool-cases (a == 5)) [ inl e ↦ rw e (λ q. cc q) | inr e ↦ rw e (λ q. cc q) ]

payment-AreUnused : AreUnused start.multisignature_outputs (multisignature_inputs payment.vin)
payment-AreUnused = (refl, tt)

pop_after_push_example : pop_transaction after payment 99 ≡ some start
pop_after_push_example =
    pop_transaction-push_transaction start after payment 99 place (0 ∷ 1 ∷ []) start-AreFilled
      payment-AreUnused payment_pushed

spends_example :
    AreUnspent start.spent_keys (key_images payment.vin)
    × NoRepeat (key_images payment.vin)
    × All (λ k. after.spent_keys k ≡ true) (key_images payment.vin)
    × ((j : KeyImage) → start.spent_keys j ≡ true → after.spent_keys j ≡ true)
spends_example =
    push_transaction-spends start after payment 99 place (0 ∷ 1 ∷ []) payment-AreUnused
      payment_pushed

-- A fresh key image, and then one that is spent: the first is rolled back.
abbrev double_spend : Transaction
double_spend = record payment {
  vin =
      TransactionInput.to_key key_input
      ∷ TransactionInput.to_key (record key_input { key_image = 2 })
      ∷ [];
}

abbrev after_refusal : Indices
after_refusal = (push_transaction start double_spend 97 place).0

double_spend_refused : push_transaction start double_spend 97 place ≡ (after_refusal, refused)
unfolding push_transaction check_multisignature_inputs_diff put add
double_spend_refused = refl

refused_example : after_refusal ≡ start
refused_example =
    push_transaction-refused start after_refusal double_spend 97 place double_spend_refused

-- A key that is spent, behind a multisignature input.
abbrev late_conflict : Transaction
late_conflict = record payment {
  vin =
      TransactionInput.multisignature shared_input
      ∷ TransactionInput.to_key (record key_input { key_image = 2 })
      ∷ [];
}

late_conflict_differs : check_multisignature_inputs_diff late_conflict ≡ true
unfolding check_multisignature_inputs_diff
late_conflict_differs = refl

bad_get_example :
    ((push_transaction start late_conflict 98 place).1 ≡ bad_get)
    × ((push_transaction start late_conflict 98 place).0.transaction_map 98 ≡ some place)
bad_get_example =
    push_transaction-bad_get start late_conflict 98 place shared_input
      (record key_input { key_image = 2 }) [] refl late_conflict_differs refl refl

payment_inputs : InputsU64 payment.vin
unfolding input_amount
payment_inputs = (omega arith, (omega arith, tt))

overflow_example :
    (check_money_overflow payment ≡ true)
    ↔ ((inputs_total payment.vin < 2 ^ 64) × (outs_total payment.vout < 2 ^ 64))
overflow_example = check_money_overflow_lem payment payment_inputs (omega arith, (omega arith, tt))

payment_fits : check_money_overflow payment ≡ true
unfolding check_money_overflow
payment_fits = refl

offsets_example :
    relative_output_offsets_to_absolute (absolute_output_offsets_to_relative (9 ∷ 3 ∷ 14 ∷ []))
    ≡ sort (9 ∷ 3 ∷ 14 ∷ [])
offsets_example =
    relative-absolute (9 ∷ 3 ∷ 14 ∷ []) (omega arith, (omega arith, (omega arith, tt)))

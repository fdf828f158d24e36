-- ===== src/Storage/Push.antt =====
-- `blockchain_storage::pushTransaction`.
use bytecoin.Common.{
  ℕ, zero, suc, ◌+◌, ◌%◌, ◌^◌, Bool, true, false, not, Option, none, some, List, [], ◌∷◌, ◌++◌,
  if◌then◌else◌, length,
}
use bytecoin.Common.Map.{Map, NumberSet, put, erase, add, remove}
use bytecoin.Transaction.{
  Hash, TransactionInput, TransactionOutput, TransactionOutputTarget, Transaction,
}
use bytecoin.Transaction.Amounts.{check_multisignature_inputs_diff}
use bytecoin.Storage.{TransactionIndex, OutputEntry, MultisignatureOutputUsage, Indices}

-- How a call ends: with the global output indices of the transaction, with `false`, with the
-- exception of `boost::get` at an input of another type, or with an access outside a vector.
pub data PushResult : Type 0 where
  pushed : List ℕ → PushResult
  refused : PushResult
  bad_get : PushResult
  out_of_range : PushResult

-- The rollback `for (j = 0; j < i; ++j)` over the inputs before the i-th, the last one first. The
-- Boolean tells whether every one of them was an input to a key.
unfoldable pub roll_back : NumberSet → List TransactionInput → NumberSet × Bool
roll_back spent [] = (spent, true)
roll_back spent (TransactionInput.to_key i ∷ before) = roll_back (remove spent i.key_image) before
roll_back spent (_ ∷ before) = (spent, false)

-- What the loop over the inputs to keys leaves: the new set, or the set after a rollback.
pub data SpendResult : Type 0 where
  spent : NumberSet → SpendResult
  conflict : NumberSet → Bool → SpendResult

-- `before` holds the inputs that the loop has passed, the last one first.
unfoldable pub spend_keys : NumberSet → List TransactionInput → List TransactionInput → SpendResult
unfolding roll_back
spend_keys keys before [] = spent keys
spend_keys keys before (TransactionInput.to_key i ∷ vin) =
    let rest = spend_keys (add keys i.key_image) (TransactionInput.to_key i ∷ before) vin in
    let (kept, complete) = roll_back keys before in
    if keys i.key_image then conflict kept complete else rest
spend_keys keys before (TransactionInput.multisignature i ∷ vin) =
    spend_keys keys (TransactionInput.multisignature i ∷ before) vin
spend_keys keys before (TransactionInput.generate h ∷ vin) =
    spend_keys keys (TransactionInput.generate h ∷ before) vin
spend_keys keys before (TransactionInput.to_script ∷ vin) =
    spend_keys keys (TransactionInput.to_script ∷ before) vin
spend_keys keys before (TransactionInput.to_script_hash ∷ vin) =
    spend_keys keys (TransactionInput.to_script_hash ∷ before) vin

-- `amountOutputs[i].isUsed = flag`; `none` where the vector has no i-th element.
unfoldable pub set_flag :
    List MultisignatureOutputUsage → ℕ → Bool → Option (List MultisignatureOutputUsage)
set_flag [] i flag = none
set_flag (u ∷ us) zero flag = some (record u { is_used = flag } ∷ us)
set_flag (u ∷ us) (suc i) flag = elim (set_flag us i flag) [
  | none ↦ none
  | some rest ↦ some (u ∷ rest)
]

-- The vector of an amount; `operator[]` makes an empty one where there is none.
abbrev pub or_empty {ℓ} : {V : Type ℓ} → Option (List V) → List V
or_empty none = []
or_empty (some l) = l

abbrev pub vector_at {ℓ} : {V : Type ℓ} → Map (List V) → ℕ → List V
vector_at m amount = or_empty (m amount)

unfoldable pub set_usage :
    Map (List MultisignatureOutputUsage)
    → ℕ
    → ℕ
    → Bool
    → Option (Map (List MultisignatureOutputUsage))
unfolding set_flag
set_usage m amount i flag = elim (set_flag (vector_at m amount) i flag) [
  | none ↦ none
  | some l ↦ some (put m amount l)
]

unfoldable pub mark_used :
    Map (List MultisignatureOutputUsage)
    → List TransactionInput
    → Option (Map (List MultisignatureOutputUsage))
unfolding set_usage
mark_used m [] = some m
mark_used m (TransactionInput.multisignature i ∷ vin) =
    elim (set_usage m i.amount i.output_index true) [ none ↦ none | some m' ↦ mark_used m' vin ]
mark_used m (TransactionInput.to_key _ ∷ vin) = mark_used m vin
mark_used m (TransactionInput.generate _ ∷ vin) = mark_used m vin
mark_used m (TransactionInput.to_script ∷ vin) = mark_used m vin
mark_used m (TransactionInput.to_script_hash ∷ vin) = mark_used m vin

-- The two output maps and the global index of one output; the index is a uint32_t.
abbrev pub OutputMaps : Type 0
OutputMaps = Map (List OutputEntry) × Map (List MultisignatureOutputUsage)

unfoldable pub push_output :
    TransactionIndex → ℕ → ℕ → TransactionOutputTarget → OutputMaps → OutputMaps
push_output at n amount (TransactionOutputTarget.to_key _) (outs, multi) =
    (put outs amount (vector_at outs amount ++ record { index = at; output = n } ∷ []), multi)
push_output at n amount (TransactionOutputTarget.multisignature _) (outs, multi) = (
  outs,
  put multi amount (
      vector_at multi amount
      ++ record { transaction_index = at; output_index = n; is_used = false } ∷ []),
)
push_output at n amount TransactionOutputTarget.to_script maps = maps
push_output at n amount TransactionOutputTarget.to_script_hash maps = maps

-- `m_global_output_indexes[output]`, 0 where the output is of another kind.
unfoldable pub global_index : ℕ → TransactionOutputTarget → OutputMaps → ℕ
global_index amount (TransactionOutputTarget.to_key _) (outs, multi) =
    length (vector_at outs amount) % 2 ^ 32
global_index amount (TransactionOutputTarget.multisignature _) (outs, multi) =
    length (vector_at multi amount) % 2 ^ 32
global_index amount _ maps = 0

-- The loop over the outputs, from the n-th on. The source counts them by a uint16_t.
unfoldable pub push_outputs :
    TransactionIndex → ℕ → List TransactionOutput → OutputMaps → OutputMaps
unfolding push_output
push_outputs at n [] maps = maps
push_outputs at n (o ∷ vout) maps =
    push_outputs at (n + 1) vout (push_output at n o.amount o.target maps)

unfoldable pub global_indexes : TransactionIndex → ℕ → List TransactionOutput → OutputMaps → List ℕ
unfolding push_output global_index
global_indexes at n [] maps = []
global_indexes at n (o ∷ vout) maps =
    global_index o.amount o.target maps
    ∷ global_indexes at (n + 1) vout (push_output at n o.amount o.target maps)

-- What follows once the key images are in the set.
unfoldable pub finish_push :
    Indices → Transaction → TransactionIndex → NumberSet → Indices × PushResult
unfolding mark_used push_outputs global_indexes
finish_push s tx at keys = elim (mark_used s.multisignature_outputs tx.vin) [
  | none ↦ (record s { spent_keys = keys }, out_of_range)
  | some multi ↦
      let maps = push_outputs at 0 tx.vout (s.outputs, multi) in
      (
        record s { spent_keys = keys; outputs = maps.0; multisignature_outputs = maps.1 },
        pushed (global_indexes at 0 tx.vout (s.outputs, multi)),
      )
]

-- The state after the key images met a spent one.
unfoldable pub conflicted : Indices → Hash → NumberSet → Bool → Indices × PushResult
conflicted s hash keys complete =
    if complete
    then (record s { spent_keys = keys; transaction_map = erase s.transaction_map hash }, refused)
    else (record s { spent_keys = keys }, bad_get)

unfoldable pub push_transaction :
    Indices → Transaction → Hash → TransactionIndex → Indices × PushResult
unfolding spend_keys finish_push conflicted
push_transaction s tx hash at = elim (s.transaction_map hash) [
  | some _ ↦ (s, refused)
  | none ↦
      let s' : Indices = record s { transaction_map = put s.transaction_map hash at } in
      if not (check_multisignature_inputs_diff tx)
      then (record s' { transaction_map = erase s'.transaction_map hash }, refused)
      else elim (spend_keys s.spent_keys [] tx.vin) [
        | conflict keys complete ↦ conflicted s' hash keys complete
        | spent keys ↦ finish_push s' tx at keys
      ]
]

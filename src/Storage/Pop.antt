-- ===== src/Storage/Pop.antt =====
-- `blockchain_storage::popTransaction`. Where the source logs that the indices are inconsistent it
-- goes on, and so does the model.
use bytecoin.Common.{
  ℕ, ◌+◌, Bool, false, ◌&&◌, not, Option, none, some, List, [], ◌∷◌, ◌==◌, if◌then◌else◌,
}
use bytecoin.Common.Map.{Map, put, erase, remove}
use bytecoin.Transaction.{
  Hash, TransactionInput, TransactionOutput, TransactionOutputTarget, Transaction,
}
use bytecoin.Storage.{TransactionIndex, OutputEntry, MultisignatureOutputUsage, Indices}
use bytecoin.Storage.Push.{OutputMaps, set_usage}

unfoldable pub back? {ℓ} : {V : Type ℓ} → List V → Option V
back? [] = none
back? (x ∷ []) = some x
back? (x ∷ y ∷ l) = back? (y ∷ l)

unfoldable pub pop_back {ℓ} : {V : Type ℓ} → List V → List V
pop_back [] = []
pop_back (x ∷ []) = []
pop_back (x ∷ y ∷ l) = x ∷ pop_back (y ∷ l)

-- The vector of an amount after `pop_back`: the amount is erased with its last output.
unfoldable pub put_or_erase {ℓ} : {V : Type ℓ} → Map (List V) → ℕ → List V → Map (List V)
put_or_erase m amount [] = erase m amount
put_or_erase m amount (x ∷ xs) = put m amount (x ∷ xs)

unfoldable pub drop_last {ℓ} : {V : Type ℓ} → Map (List V) → ℕ → List V → Map (List V)
unfolding pop_back put_or_erase
drop_last m amount l = put_or_erase m amount (pop_back l)

abbrev pub same_index : TransactionIndex → TransactionIndex → Bool
same_index a b = a.block == b.block && a.transaction == b.transaction

-- One output; an inconsistency leaves the maps as they are.
unfoldable pub pop_key_output :
    TransactionIndex → ℕ → ℕ → Map (List OutputEntry) → Map (List OutputEntry)
unfolding back? drop_last
pop_key_output at n amount outs = elim (outs amount) [
  | none ↦ outs
  | some l ↦ elim (back? l) [
    | none ↦ outs
    | some e ↦ if same_index e.index at && e.output == n then drop_last outs amount l else outs
  ]
]

unfoldable pub pop_multisignature_output :
    TransactionIndex
    → ℕ
    → ℕ
    → Map (List MultisignatureOutputUsage)
    → Map (List MultisignatureOutputUsage)
unfolding back? drop_last
pop_multisignature_output at n amount multi = elim (multi amount) [
  | none ↦ multi
  | some l ↦ elim (back? l) [
    | none ↦ multi
    | some e ↦
        if not e.is_used && same_index e.transaction_index at && e.output_index == n
        then drop_last multi amount l
        else multi
  ]
]

unfoldable pub pop_output :
    TransactionIndex → ℕ → ℕ → TransactionOutputTarget → OutputMaps → OutputMaps
unfolding pop_key_output pop_multisignature_output
pop_output at n amount (TransactionOutputTarget.to_key _) (outs, multi) =
    (pop_key_output at n amount outs, multi)
pop_output at n amount (TransactionOutputTarget.multisignature _) (outs, multi) =
    (outs, pop_multisignature_output at n amount multi)
pop_output at n amount TransactionOutputTarget.to_script maps = maps
pop_output at n amount TransactionOutputTarget.to_script_hash maps = maps

-- The loop over the outputs, the last one first.
unfoldable pub pop_outputs : TransactionIndex → ℕ → List TransactionOutput → OutputMaps → OutputMaps
unfolding pop_output
pop_outputs at n [] maps = maps
pop_outputs at n (o ∷ vout) maps =
    pop_output at n o.amount o.target (pop_outputs at (n + 1) vout maps)

-- The loop over the inputs; `none` is an access outside a vector.
unfoldable pub pop_inputs : Indices → List TransactionInput → Option Indices
unfolding set_usage
pop_inputs s [] = some s
pop_inputs s (TransactionInput.to_key i ∷ vin) =
    pop_inputs (record s { spent_keys = remove s.spent_keys i.key_image }) vin
pop_inputs s (TransactionInput.multisignature i ∷ vin) =
    elim (set_usage s.multisignature_outputs i.amount i.output_index false) [
      | none ↦ none
      | some multi ↦ pop_inputs (record s { multisignature_outputs = multi }) vin
    ]
pop_inputs s (TransactionInput.generate _ ∷ vin) = pop_inputs s vin
pop_inputs s (TransactionInput.to_script ∷ vin) = pop_inputs s vin
pop_inputs s (TransactionInput.to_script_hash ∷ vin) = pop_inputs s vin

-- `none` is the exception of `m_transactionMap.at`, or an access outside a vector.
unfoldable pub pop_transaction : Indices → Transaction → Hash → Option Indices
unfolding pop_outputs pop_inputs
pop_transaction s tx hash = elim (s.transaction_map hash) [
  | none ↦ none
  | some at ↦
      let maps = pop_outputs at 0 tx.vout (s.outputs, s.multisignature_outputs) in
      elim (pop_inputs (record s { outputs = maps.0; multisignature_outputs = maps.1 }) tx.vin) [
        | none ↦ none
        | some s' ↦ some (record s' { transaction_map = erase s'.transaction_map hash })
      ]
]

-- ===== src/Blocks/Inputs.antt =====
-- The checks of the inputs of a transaction in src/cryptonote_core/blockchain_storage.cpp and .h:
-- `check_tx_inputs`, `check_tx_input`, `scan_outputkeys_for_indexes` and `validateInput`, as they are
-- called without a place for the maximal height.
use bytecoin.Common.{
  ℕ, Bool, true, false, not, Option, none, some, List, [], ◌∷◌, ltb, leb, ◌==◌, if◌then◌else◌,
  length, get_elem?,
}
use bytecoin.Common.Word.{add64, sub64}
use bytecoin.Currency.{Currency}
use bytecoin.Transaction.{
  Hash, PublicKey, Signature, Transaction, TransactionInput, TransactionInputToKey,
  TransactionInputMultisignature, TransactionOutput, TransactionOutputTarget,
}
use bytecoin.Transaction.Offsets.{relative_output_offsets_to_absolute}
use bytecoin.Storage.{TransactionIndex, OutputEntry}
use bytecoin.Blocks.{BlockEntry, Blockchain, Environment}

-- `false`, an exception or an access outside a vector, or a value.
pub data Answer {ℓ} (A : Type ℓ) : Type ℓ where
  holds : A → Answer A
  denied : Answer A
  failure : Answer A

abbrev pub Verdict : Type 0
Verdict = Answer {0} (Unit {0})

unfoldable pub is_tx_spendtime_unlocked : Environment → Currency → Blockchain → ℕ → Bool
is_tx_spendtime_unlocked env c s unlock_time =
    if ltb unlock_time c.max_block_height
    then leb unlock_time (add64 (sub64 (length s.blocks) 1) c.locked_tx_allowed_delta_blocks)
    else leb unlock_time (add64 env.now c.locked_tx_allowed_delta_seconds)

unfoldable pub transaction_by_index : List BlockEntry → TransactionIndex → Option Transaction
transaction_by_index blocks at = elim (get_elem? blocks at.block) [
  | none ↦ none
  | some b ↦ elim (get_elem? b.transactions at.transaction) [ none ↦ none | some t ↦ some t.tx ]
]

-- `handle_output`: the key of an output, where it may be spent.
unfoldable pub handle_output :
    Environment → Currency → Blockchain → Transaction → TransactionOutput → Option PublicKey
unfolding is_tx_spendtime_unlocked
handle_output env c s tx out =
    if not (is_tx_spendtime_unlocked env c s tx.unlock_time)
    then none
    else elim out.target [ TransactionOutputTarget.to_key key ↦ some key | _ ↦ none ]

-- The key of one entry of the vector of an amount.
unfoldable pub key_of_entry : Environment → Currency → Blockchain → OutputEntry → Answer PublicKey
unfolding transaction_by_index handle_output
key_of_entry env c s e = elim (transaction_by_index s.blocks e.index) [
  | none ↦ failure
  | some tx ↦ elim (get_elem? tx.vout e.output) [
    | none ↦ denied
    | some out ↦ elim (handle_output env c s tx out) [ none ↦ denied | some key ↦ holds key ]
  ]
]

abbrev pub key_before : PublicKey → Answer (List PublicKey) → Answer (List PublicKey)
key_before key (holds keys) = holds (key ∷ keys)
key_before key denied = denied
key_before key failure = failure

-- The loop over the absolute offsets.
unfoldable pub scan_offsets :
    Environment → Currency → Blockchain → List OutputEntry → List ℕ → Answer (List PublicKey)
unfolding key_of_entry
scan_offsets env c s entries [] = holds []
scan_offsets env c s entries (i ∷ offsets) =
    let rest = scan_offsets env c s entries offsets in
    elim (get_elem? entries i) [
      | none ↦ denied
      | some e ↦ elim (key_of_entry env c s e) [
        | holds key ↦ key_before key rest
        | denied ↦ denied
        | failure ↦ failure
      ]
    ]

unfoldable pub scan_outputkeys_for_indexes :
    Environment → Currency → Blockchain → TransactionInputToKey → Answer (List PublicKey)
unfolding scan_offsets
scan_outputkeys_for_indexes env c s txin = elim (s.indices.outputs txin.amount) [
  | none ↦ denied
  | some entries ↦
      if length txin.key_offsets == 0
      then denied
      else scan_offsets env c s entries (relative_output_offsets_to_absolute txin.key_offsets)
]

abbrev pub passes : Bool → Verdict
passes true = holds tt
passes false = denied

-- What `check_tx_input` asks of the keys that it found.
unfoldable pub check_keys :
    Environment → Blockchain → TransactionInputToKey → Hash → List Signature → List PublicKey → Bool
check_keys env s txin prefix sig keys =
    if not (length txin.key_offsets == length keys)
    then false
    else if not (length sig == length keys)
    then false
    else if s.is_in_checkpoint_zone
    then true
    else env.check_ring_signature prefix txin.key_image keys sig

unfoldable pub check_tx_input :
    Environment → Currency → Blockchain → TransactionInputToKey → Hash → List Signature → Verdict
unfolding scan_outputkeys_for_indexes check_keys
check_tx_input env c s txin prefix sig = elim (scan_outputkeys_for_indexes env c s txin) [
  | holds keys ↦ passes (check_keys env s txin prefix sig keys)
  | denied ↦ denied
  | failure ↦ failure
]

-- The loop of `validateInput`: the signatures in the order of the keys, keys skipped where theirs is
-- not the next one.
unfoldable pub check_signatures : Environment → Hash → List PublicKey → List Signature → Bool
check_signatures env prefix keys [] = true
check_signatures env prefix [] (s ∷ sigs) = false
check_signatures env prefix (k ∷ keys) (s ∷ sigs) =
    check_signatures env prefix keys (if env.check_signature prefix k s then sigs else s ∷ sigs)

-- The part of `validateInput` from the transaction of the output on.
unfoldable pub validate_output :
    Environment
    → Currency
    → Blockchain
    → TransactionInputMultisignature
    → Hash
    → List Signature
    → Transaction
    → ℕ
    → Verdict
unfolding is_tx_spendtime_unlocked check_signatures
validate_output env c s input prefix sigs tx n =
    if not (is_tx_spendtime_unlocked env c s tx.unlock_time)
    then denied
    else elim (get_elem? tx.vout n) [
      | none ↦ failure
      | some out ↦ elim out.target [
        | TransactionOutputTarget.multisignature output ↦
            if not (input.signatures == output.required_signatures)
            then denied
            else passes (check_signatures env prefix output.keys sigs)
        | _ ↦ failure
      ]
    ]

-- The assertion `input.signatures == transactionSignatures.size()` lets the loop over the signatures
-- be the one over the vector.
unfoldable pub validate_input :
    Environment
    → Currency
    → Blockchain
    → TransactionInputMultisignature
    → Hash
    → List Signature
    → Verdict
unfolding transaction_by_index validate_output
validate_input env c s input prefix sigs = elim (s.indices.multisignature_outputs input.amount) [
  | none ↦ denied
  | some usages ↦ elim (get_elem? usages input.output_index) [
    | none ↦ denied
    | some usage ↦
        if usage.is_used
        then denied
        else elim (transaction_by_index s.blocks usage.transaction_index) [
          | none ↦ failure
          | some tx ↦ validate_output env c s input prefix sigs tx usage.output_index
        ]
  ]
]

-- One input with its signatures.
unfoldable pub check_input :
    Environment → Currency → Blockchain → Hash → TransactionInput → List Signature → Verdict
unfolding check_tx_input validate_input
check_input env c s prefix (TransactionInput.to_key i) sig =
    if length i.key_offsets == 0
    then denied
    else if s.indices.spent_keys i.key_image
    then denied
    else check_tx_input env c s i prefix sig
check_input env c s prefix (TransactionInput.multisignature i) sig =
    validate_input env c s i prefix sig
check_input env c s prefix (TransactionInput.generate _) sig = denied
check_input env c s prefix TransactionInput.to_script sig = denied
check_input env c s prefix TransactionInput.to_script_hash sig = denied

-- The loop over the inputs; `signatures[inputIndex]` is outside the vector when that has run out.
unfoldable pub check_inputs :
    Environment
    → Currency
    → Blockchain
    → Hash
    → List TransactionInput
    → List (List Signature)
    → Verdict
unfolding check_input
check_inputs env c s prefix [] sigs = holds tt
check_inputs env c s prefix (i ∷ vin) [] = failure
check_inputs env c s prefix (i ∷ vin) (sig ∷ sigs) =
    let rest = check_inputs env c s prefix vin sigs in
    elim (check_input env c s prefix i sig) [ holds _ ↦ rest | denied ↦ denied | failure ↦ failure ]

unfoldable pub check_tx_inputs : Environment → Currency → Blockchain → Transaction → Verdict
unfolding check_inputs
check_tx_inputs env c s tx = check_inputs env c s (env.prefix_hash tx) tx.vin tx.signatures

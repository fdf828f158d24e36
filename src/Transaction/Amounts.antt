-- ===== src/Transaction/Amounts.antt =====
-- src/cryptonote_core/cryptonote_format_utils.cpp: the amounts of a transaction and the checks on
-- its inputs and outputs.
use bytecoin.Common.{
  ℕ, ◌%◌, ◌^◌, Bool, true, false, ◌&&◌, ◌||◌, not, Option, none, some, List, [], ◌∷◌, ltb, leb,
  ◌==◌, if◌then◌else◌, length,
}
use bytecoin.Common.Word.{add64, sub64}
use bytecoin.Transaction.{
  PublicKey, TransactionInput, TransactionInputMultisignature, TransactionOutput,
  TransactionOutputTarget, Transaction,
}

-- The amount that an input brings: 0 for the kinds that carry none.
unfoldable pub input_amount : TransactionInput → ℕ
input_amount (TransactionInput.to_key i) = i.amount
input_amount (TransactionInput.multisignature i) = i.amount
input_amount (TransactionInput.generate _) = 0
input_amount TransactionInput.to_script = 0
input_amount TransactionInput.to_script_hash = 0

unfoldable pub add_inputs : ℕ → List TransactionInput → ℕ
unfolding input_amount
add_inputs money [] = money
add_inputs money (i ∷ vin) = add_inputs (add64 money (input_amount i)) vin

unfoldable pub get_inputs_money_amount : Transaction → ℕ
unfolding add_inputs
get_inputs_money_amount tx = add_inputs 0 tx.vin

unfoldable pub add_outs : ℕ → List TransactionOutput → ℕ
add_outs money [] = money
add_outs money (o ∷ vout) = add_outs (add64 money o.amount) vout

unfoldable pub get_outs_money_amount : Transaction → ℕ
unfolding add_outs
get_outs_money_amount tx = add_outs 0 tx.vout

-- `none` where the outputs are worth more than the inputs.
unfoldable pub get_tx_fee : Transaction → Option ℕ
unfolding add_inputs add_outs
get_tx_fee tx =
    let amount_in = add_inputs 0 tx.vin in
    let amount_out = add_outs 0 tx.vout in
    if leb amount_out amount_in then some (sub64 amount_in amount_out) else none

unfoldable pub inputs_fit : ℕ → List TransactionInput → Bool
unfolding input_amount
inputs_fit money [] = true
inputs_fit money (i ∷ vin) =
    let sum = add64 (input_amount i) money in
    let rest = inputs_fit sum vin in if ltb sum money then false else rest

unfoldable pub check_inputs_overflow : Transaction → Bool
unfolding inputs_fit
check_inputs_overflow tx = inputs_fit 0 tx.vin

unfoldable pub outs_fit : ℕ → List TransactionOutput → Bool
outs_fit money [] = true
outs_fit money (o ∷ vout) =
    let sum = add64 o.amount money in
    let rest = outs_fit sum vout in if ltb sum money then false else rest

unfoldable pub check_outs_overflow : Transaction → Bool
unfolding outs_fit
check_outs_overflow tx = outs_fit 0 tx.vout

unfoldable pub check_money_overflow : Transaction → Bool
unfolding check_inputs_overflow check_outs_overflow
check_money_overflow tx = check_inputs_overflow tx && check_outs_overflow tx

unfoldable pub supported_input : TransactionInput → Bool
supported_input (TransactionInput.to_key _) = true
supported_input (TransactionInput.multisignature _) = true
supported_input _ = false

unfoldable pub all_supported : List TransactionInput → Bool
unfolding supported_input
all_supported [] = true
all_supported (i ∷ vin) = supported_input i && all_supported vin

unfoldable pub check_inputs_types_supported : Transaction → Bool
unfolding all_supported
check_inputs_types_supported tx = all_supported tx.vin

-- `check_key` is the curve check of src/crypto, a parameter here.
module _ (check_key : PublicKey → Bool) where
  unfoldable pub all_keys_valid : List PublicKey → Bool
  all_keys_valid [] = true
  all_keys_valid (k ∷ ks) = check_key k && all_keys_valid ks

  unfoldable pub out_valid : ℕ → TransactionOutputTarget → Bool
  unfolding all_keys_valid
  out_valid amount (TransactionOutputTarget.to_key k) = not (amount == 0) && check_key k
  out_valid amount (TransactionOutputTarget.multisignature m) =
      leb m.required_signatures (length m.keys) && all_keys_valid m.keys
  out_valid amount TransactionOutputTarget.to_script = false
  out_valid amount TransactionOutputTarget.to_script_hash = false

  unfoldable pub outs_valid : List TransactionOutput → Bool
  unfolding out_valid
  outs_valid [] = true
  outs_valid (o ∷ vout) = out_valid o.amount o.target && outs_valid vout

  unfoldable pub check_outs_valid : Transaction → Bool
  unfolding outs_valid
  check_outs_valid tx = outs_valid tx.vout

-- `(amount, static_cast<uint32_t>(outputIndex))`, the key of `inputsUsage`.
abbrev pub usage_key : TransactionInputMultisignature → ℕ × ℕ
usage_key i = (i.amount, i.output_index % 2 ^ 32)

abbrev pub same_key : ℕ × ℕ → ℕ × ℕ → Bool
same_key (a, i) (b, j) = a == b && i == j

unfoldable pub key_in : ℕ × ℕ → List (ℕ × ℕ) → Bool
key_in k [] = false
key_in k (j ∷ used) = same_key k j || key_in k used

unfoldable pub inputs_differ : List (ℕ × ℕ) → List TransactionInput → Bool
unfolding key_in
inputs_differ used [] = true
inputs_differ used (TransactionInput.multisignature i ∷ vin) =
    let rest = inputs_differ (usage_key i ∷ used) vin in
    if key_in (usage_key i) used then false else rest
inputs_differ used (TransactionInput.to_key _ ∷ vin) = inputs_differ used vin
inputs_differ used (TransactionInput.generate _ ∷ vin) = inputs_differ used vin
inputs_differ used (TransactionInput.to_script ∷ vin) = inputs_differ used vin
inputs_differ used (TransactionInput.to_script_hash ∷ vin) = inputs_differ used vin

unfoldable pub check_multisignature_inputs_diff : Transaction → Bool
unfolding inputs_differ
check_multisignature_inputs_diff tx = inputs_differ [] tx.vin

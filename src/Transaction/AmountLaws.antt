-- ===== src/Transaction/AmountLaws.antt =====
-- The amounts of a transaction against exact sums: the overflow checks, the sums and the fee.
use bytecoin.Common.{
  ℕ, ◌+◌, ◌-◌, ◌≤◌, ◌<◌, ◌^◌, ◌≡◌, refl, ◌↔◌, true, none, some, List, [], ◌∷◌, arith, All,
}
use bytecoin.Common.Word.{IsU64, add64}
use bytecoin.Transaction.{TransactionInput, TransactionOutput, Transaction}
use bytecoin.Transaction.Amounts.{
  input_amount, add_inputs, get_inputs_money_amount, add_outs, get_outs_money_amount, get_tx_fee,
  inputs_fit, check_inputs_overflow, outs_fit, check_outs_overflow, check_money_overflow,
}

-- The exact sums.
abbrev pub inputs_total : List TransactionInput → ℕ
inputs_total [] = 0
inputs_total (i ∷ vin) = input_amount i + inputs_total vin

abbrev pub outs_total : List TransactionOutput → ℕ
outs_total [] = 0
outs_total (o ∷ vout) = o.amount + outs_total vout

abbrev pub InputsU64 : List TransactionInput → Type 0
InputsU64 = All (λ i. IsU64 (input_amount i))

abbrev pub OutsU64 : List TransactionOutput → Type 0
OutsU64 = All (λ o. IsU64 o.amount)

inputs_fit_lem :
    (vin : List TransactionInput) (money : ℕ)
    → IsU64 money
    → InputsU64 vin
    → (inputs_fit money vin ≡ true) ↔ (money + inputs_total vin < 2 ^ 64)
unfolding inputs_fit
inputs_fit_lem [] money h a = (λ _. omega arith, λ _. refl)
inputs_fit_lem (i ∷ vin) money h (u, a) =
    ground (arith, inputs_fit_lem vin (add64 (input_amount i) money) (omega arith) a)

outs_fit_lem :
    (vout : List TransactionOutput) (money : ℕ)
    → IsU64 money
    → OutsU64 vout
    → (outs_fit money vout ≡ true) ↔ (money + outs_total vout < 2 ^ 64)
unfolding outs_fit
outs_fit_lem [] money h a = (λ _. omega arith, λ _. refl)
outs_fit_lem (o ∷ vout) money h (u, a) =
    ground (arith, outs_fit_lem vout (add64 o.amount money) (omega arith) a)

add_inputs_lem :
    (vin : List TransactionInput) (money : ℕ)
    → money + inputs_total vin < 2 ^ 64
    → add_inputs money vin ≡ money + inputs_total vin
unfolding add_inputs
add_inputs_lem [] money h = omega arith
add_inputs_lem (i ∷ vin) money h =
    let sum : add64 money (input_amount i) ≡ money + input_amount i = omega arith in
    rw sum (omega (arith, add_inputs_lem vin (money + input_amount i) (omega arith)))

add_outs_lem :
    (vout : List TransactionOutput) (money : ℕ)
    → money + outs_total vout < 2 ^ 64
    → add_outs money vout ≡ money + outs_total vout
unfolding add_outs
add_outs_lem [] money h = omega arith
add_outs_lem (o ∷ vout) money h =
    let sum : add64 money o.amount ≡ money + o.amount = omega arith in
    rw sum (omega (arith, add_outs_lem vout (money + o.amount) (omega arith)))

-- For inputs and outputs with 64-bit amounts, the overflow check passes exactly when the exact sum
-- of the inputs and that of the outputs are both below 2 ^ 64.
pub check_money_overflow_lem :
    (tx : Transaction)
    → InputsU64 tx.vin
    → OutsU64 tx.vout
    → (check_money_overflow tx ≡ true)
      ↔ ((inputs_total tx.vin < 2 ^ 64) × (outs_total tx.vout < 2 ^ 64))
unfolding check_money_overflow check_inputs_overflow check_outs_overflow
check_money_overflow_lem tx a b =
    ground (arith, inputs_fit_lem tx.vin 0 (omega arith) a, outs_fit_lem tx.vout 0 (omega arith) b)

-- Of a transaction with 64-bit amounts that passes the overflow check, the two sums are exact, and
-- the fee is the difference of the sums, or refused where the outputs are worth more.
pub get_tx_fee_lem :
    (tx : Transaction)
    → InputsU64 tx.vin
    → OutsU64 tx.vout
    → check_money_overflow tx ≡ true
    → (get_inputs_money_amount tx ≡ inputs_total tx.vin)
      × (get_outs_money_amount tx ≡ outs_total tx.vout)
      × (outs_total tx.vout ≤ inputs_total tx.vin
          → get_tx_fee tx ≡ some (inputs_total tx.vin - outs_total tx.vout))
      × (inputs_total tx.vin < outs_total tx.vout → get_tx_fee tx ≡ none)
unfolding get_tx_fee get_inputs_money_amount get_outs_money_amount
get_tx_fee_lem tx a b ok =
    let (hi, ho) = (check_money_overflow_lem tx a b).0 ok in
    let ei = add_inputs_lem tx.vin 0 (omega arith) in
    let eo = add_outs_lem tx.vout 0 (omega arith) in
    (omega arith, omega arith, λ l. ground (arith, ei, eo), λ l. ground (arith, ei, eo))

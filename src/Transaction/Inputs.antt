-- ===== src/Transaction/Inputs.antt =====
-- What `checkMultisignatureInputsDiff` decides.
use bytecoin.Common.{
  ℕ, ◌≡◌, refl, sym, ◌≢◌, ◌↔◌, inl, inr, true, false, ◌||◌, List, [], ◌∷◌, arith, All, Bool-cases,
  if◌then◌else◌, Bool,
}
use bytecoin.Transaction.{TransactionInput, Transaction}
use bytecoin.Transaction.Amounts.{
  usage_key, same_key, key_in, inputs_differ, check_multisignature_inputs_diff,
}

-- The keys of the multisignature inputs, in order.
abbrev pub usage_keys : List TransactionInput → List (ℕ × ℕ)
usage_keys [] = []
usage_keys (TransactionInput.multisignature i ∷ vin) = usage_key i ∷ usage_keys vin
usage_keys (TransactionInput.to_key _ ∷ vin) = usage_keys vin
usage_keys (TransactionInput.generate _ ∷ vin) = usage_keys vin
usage_keys (TransactionInput.to_script ∷ vin) = usage_keys vin
usage_keys (TransactionInput.to_script_hash ∷ vin) = usage_keys vin

abbrev pub IsFresh : ℕ × ℕ → List (ℕ × ℕ) → Type 0
IsFresh k = All (λ j. k ≢ j)

-- No two of the keys are equal.
abbrev pub AreDistinct : List (ℕ × ℕ) → Type 0
AreDistinct [] = Unit
AreDistinct (k ∷ ks) = IsFresh k ks × AreDistinct ks

same_key_lem : (k j : ℕ × ℕ) → (same_key k j ≡ true) ↔ (k ≡ j)
same_key_lem (a, i) (b, j) = ground arith

either_test : (a b : Bool) → a ≡ true → (a || b) ≡ false → ⊥
either_test a b e h = ground arith

stops : (b c : Bool) → b ≡ true → (if b then false else c) ≡ true → ⊥
stops b c e h = ground arith

key_in-false : (k : ℕ × ℕ) (used : List (ℕ × ℕ)) → (key_in k used ≡ false) ↔ IsFresh k used
unfolding key_in
key_in-false k [] = (λ _. tt, λ _. refl)
key_in-false k (j ∷ used) = elim (Bool-cases (same_key k j)) [
  | inl e ↦ (
    λ h. absurd (either_test (same_key k j) (key_in k used) e h),
    λ f. absurd (f.0 ((same_key_lem k j).0 e)),
  )
  | inr e ↦ (
    λ h. (λ p. cc ((same_key_lem k j).1 p, e), (key_in-false k used).0 (rw e at h)),
    λ f. rw e ((key_in-false k used).1 f.1),
  )
]

IsFresh-before :
    (k : ℕ × ℕ) (used ks : List (ℕ × ℕ))
    → All (λ j. IsFresh j (k ∷ used)) ks
    → IsFresh k ks × All (λ j. IsFresh j used) ks
IsFresh-before k used [] a = (tt, tt)
IsFresh-before k used (j ∷ ks) (f, a) =
    let (l, r) = IsFresh-before k used ks a in ((λ p. f.0 (sym p), l), (f.1, r))

IsFresh-after :
    (k : ℕ × ℕ) (used ks : List (ℕ × ℕ))
    → IsFresh k ks
    → All (λ j. IsFresh j used) ks
    → All (λ j. IsFresh j (k ∷ used)) ks
IsFresh-after k used [] a b = tt
IsFresh-after k used (j ∷ ks) (f, a) (g, b) = ((λ p. f (sym p), g), IsFresh-after k used ks a b)

inputs_differ_lem :
    (vin : List TransactionInput) (used : List (ℕ × ℕ))
    → (inputs_differ used vin ≡ true)
      ↔ (AreDistinct (usage_keys vin) × All (λ k. IsFresh k used) (usage_keys vin))
unfolding inputs_differ
inputs_differ_lem [] used = (λ _. (tt, tt), λ _. refl)
inputs_differ_lem (TransactionInput.multisignature i ∷ vin) used =
    elim (Bool-cases (key_in (usage_key i) used)) [
      | inl e ↦ (
        λ h. absurd (stops (key_in (usage_key i) used) _ e h),
        λ (d, f). cc (e, (key_in-false (usage_key i) used).1 f.0),
      )
      | inr e ↦
          let (there, back) = inputs_differ_lem vin (usage_key i ∷ used) in
          (
            λ h.
                let (d, a) = there (rw e at h) in
                let (f, g) = IsFresh-before (usage_key i) used (usage_keys vin) a in
                ((f, d), ((key_in-false (usage_key i) used).0 e, g)),
            λ (d, f). rw e (back (d.1, IsFresh-after (usage_key i) used (usage_keys vin) d.0 f.1)),
          )
    ]
inputs_differ_lem (TransactionInput.to_key _ ∷ vin) used = inputs_differ_lem vin used
inputs_differ_lem (TransactionInput.generate _ ∷ vin) used = inputs_differ_lem vin used
inputs_differ_lem (TransactionInput.to_script ∷ vin) used = inputs_differ_lem vin used
inputs_differ_lem (TransactionInput.to_script_hash ∷ vin) used = inputs_differ_lem vin used

IsFresh-of_none : (ks : List (ℕ × ℕ)) → All (λ k. IsFresh k []) ks
IsFresh-of_none [] = tt
IsFresh-of_none (k ∷ ks) = (tt, IsFresh-of_none ks)

-- The check passes exactly when no two multisignature inputs name the same amount and, as a
-- uint32_t, the same output index.
pub check_multisignature_inputs_diff_lem :
    (tx : Transaction)
    → (check_multisignature_inputs_diff tx ≡ true) ↔ AreDistinct (usage_keys tx.vin)
unfolding check_multisignature_inputs_diff
check_multisignature_inputs_diff_lem tx =
    let (there, back) = inputs_differ_lem tx.vin [] in
    (λ h. (there h).0, λ d. back (d, IsFresh-of_none (usage_keys tx.vin)))

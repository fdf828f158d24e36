-- ===== src/Storage/Outs.antt =====
-- The output maps: popping the outputs of a transaction undoes pushing them.
use bytecoin.Common.{
  ℕ, ◌+◌, ◌≡◌, refl, ap, ◌∙◌, ◌≢◌, inl, inr, true, false, Option, none, some, List, [], ◌∷◌, ◌++◌,
  arith, ◌==◌, ==_self, Bool-cases,
}
use bytecoin.Common.Map.{Map, put, put_self, put-same, put-put, erase-put}
use bytecoin.Transaction.{TransactionOutput, TransactionOutputTarget}
use bytecoin.Storage.{TransactionIndex, OutputEntry, MultisignatureOutputUsage}
use bytecoin.Storage.Push.{OutputMaps, or_empty, vector_at, push_output, push_outputs}
use bytecoin.Storage.Pop.{
  back?, pop_back, put_or_erase, drop_last, pop_key_output, pop_multisignature_output, pop_output,
  pop_outputs, same_index,
}

module _ {ℓ} {V : Type ℓ} where
  back?-append : (l : List V) (x : V) → back? (l ++ x ∷ []) ≡ some x
  unfolding back?
  back?-append [] x = refl
  back?-append (y ∷ []) x = refl
  back?-append (y ∷ z ∷ l) x = back?-append (z ∷ l) x

  pop_back-append : (l : List V) (x : V) → pop_back (l ++ x ∷ []) ≡ l
  unfolding pop_back
  pop_back-append [] x = refl
  pop_back-append (y ∷ []) x = refl
  pop_back-append (y ∷ z ∷ l) x = λ i. y ∷ pop_back-append (z ∷ l) x i

  -- No amount has an empty vector, as `pop` erases the amount with its last output.
  abbrev pub HasNoEmpty : Map (List V) → Type ℓ
  HasNoEmpty m = (a : ℕ) → m a ≢ some []

  drop_last-put :
      (m : Map (List V)) (a : ℕ) (x : V)
      → HasNoEmpty m
      → drop_last (put m a (vector_at m a ++ x ∷ [])) a (vector_at m a ++ x ∷ []) ≡ m
  unfolding drop_last
  drop_last-put m a x h = go (m a) refl
    where
      go :
          (o : Option (List V))
          → m a ≡ o
          → drop_last (put m a (or_empty o ++ x ∷ [])) a (or_empty o ++ x ∷ []) ≡ m
      go none e = erase-put m a (x ∷ []) e
      go (some []) e = absurd (h a e)
      go (some (y ∷ l)) e =
          ap (put_or_erase (put m a ((y ∷ l) ++ x ∷ [])) a) (pop_back-append (y ∷ l) x)
          ∙ put-put m a ((y ∷ l) ++ x ∷ []) (y ∷ l)
          ∙ put-same m a (y ∷ l) e

  HasNoEmpty-put :
      (m : Map (List V)) (a : ℕ) (l : List V) (x : V)
      → HasNoEmpty m
      → HasNoEmpty (put m a (l ++ x ∷ []))
  unfolding put
  HasNoEmpty-put m a l x h c = elim (Bool-cases (c == a)) [
    | inl e ↦ rw e (filled l)
    | inr e ↦ rw e (h c)
  ]
    where
      filled : (k : List V) → some (k ++ x ∷ []) ≢ some []
      filled [] e = cc
      filled (y ∷ k) e = cc

same_index_self : (at : TransactionIndex) → same_index at at ≡ true
same_index_self at = ground arith

pop_key_output-put :
    (at : TransactionIndex) (n a : ℕ) (outs : Map (List OutputEntry))
    → HasNoEmpty outs
    → pop_key_output at n a
        (put outs a (vector_at outs a ++ record { index = at; output = n } ∷ []))
      ≡ outs
unfolding pop_key_output
pop_key_output-put at n a outs h =
    let e : OutputEntry = record { index = at; output = n } in
    rw (put_self outs a (vector_at outs a ++ e ∷ []), pop_key_output)
      (rw (back?-append (vector_at outs a) e, pop_key_output)
        (rw (same_index_self at, ==_self n) (drop_last-put outs a e h)))

pop_multisignature_output-put :
    (at : TransactionIndex) (n a : ℕ) (multi : Map (List MultisignatureOutputUsage))
    → HasNoEmpty multi
    → pop_multisignature_output at n a (
        put multi a (
          vector_at multi a
          ++ record { transaction_index = at; output_index = n; is_used = false } ∷ []))
      ≡ multi
unfolding pop_multisignature_output
pop_multisignature_output-put at n a multi h =
    let e : MultisignatureOutputUsage = record {
      transaction_index = at;
      output_index = n;
      is_used = false;
    } in
    rw (put_self multi a (vector_at multi a ++ e ∷ []), pop_multisignature_output)
      (rw (back?-append (vector_at multi a) e, pop_multisignature_output)
        (rw (same_index_self at, ==_self n) (drop_last-put multi a e h)))

-- Neither output map has an amount with an empty vector.
abbrev pub AreFilled : OutputMaps → Type 0
AreFilled maps = HasNoEmpty maps.0 × HasNoEmpty maps.1

push_output-AreFilled :
    (at : TransactionIndex) (n a : ℕ) (t : TransactionOutputTarget) (maps : OutputMaps)
    → AreFilled maps
    → AreFilled (push_output at n a t maps)
unfolding push_output
push_output-AreFilled at n a (TransactionOutputTarget.to_key _) maps (h, k) =
    (HasNoEmpty-put maps.0 a (vector_at maps.0 a) _ h, k)
push_output-AreFilled at n a (TransactionOutputTarget.multisignature _) maps (h, k) =
    (h, HasNoEmpty-put maps.1 a (vector_at maps.1 a) _ k)
push_output-AreFilled at n a TransactionOutputTarget.to_script maps h = h
push_output-AreFilled at n a TransactionOutputTarget.to_script_hash maps h = h

pop_output-push_output :
    (at : TransactionIndex) (n a : ℕ) (t : TransactionOutputTarget) (maps : OutputMaps)
    → AreFilled maps
    → pop_output at n a t (push_output at n a t maps) ≡ maps
unfolding push_output pop_output
pop_output-push_output at n a (TransactionOutputTarget.to_key _) maps (h, k) =
    λ i. (pop_key_output-put at n a maps.0 h i, maps.1)
pop_output-push_output at n a (TransactionOutputTarget.multisignature _) maps (h, k) =
    λ i. (maps.0, pop_multisignature_output-put at n a maps.1 k i)
pop_output-push_output at n a TransactionOutputTarget.to_script maps h = refl
pop_output-push_output at n a TransactionOutputTarget.to_script_hash maps h = refl

pub pop_outputs-push_outputs :
    (vout : List TransactionOutput) (at : TransactionIndex) (n : ℕ) (maps : OutputMaps)
    → AreFilled maps
    → pop_outputs at n vout (push_outputs at n vout maps) ≡ maps
unfolding push_outputs pop_outputs
pop_outputs-push_outputs [] at n maps h = refl
pop_outputs-push_outputs (o ∷ vout) at n maps h =
    ap (pop_output at n o.amount o.target) (
      pop_outputs-push_outputs vout at (n + 1) (push_output at n o.amount o.target maps)
        (push_output-AreFilled at n o.amount o.target maps h))
    ∙ pop_output-push_output at n o.amount o.target maps h

pub push_outputs-AreFilled :
    (vout : List TransactionOutput) (at : TransactionIndex) (n : ℕ) (maps : OutputMaps)
    → AreFilled maps
    → AreFilled (push_outputs at n vout maps)
unfolding push_outputs
push_outputs-AreFilled [] at n maps h = h
push_outputs-AreFilled (o ∷ vout) at n maps h =
    push_outputs-AreFilled vout at (n + 1) (push_output at n o.amount o.target maps)
      (push_output-AreFilled at n o.amount o.target maps h)

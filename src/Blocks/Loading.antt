-- ===== src/Blocks/Loading.antt =====
-- One round of the loop of `pushBlock` over the hashes of the block.
use bytecoin.Common.{
  ℕ, ◌+◌, ◌%◌, ◌^◌, ◌≡◌, refl, ◌⊎◌, inl, inr, some, List, ◌∷◌, Option-cases, length,
}
use bytecoin.Common.Word.{add64}
use bytecoin.Currency.{Currency}
use bytecoin.Transaction.{Hash, Transaction}
use bytecoin.Storage.{Indices, TransactionIndex}
use bytecoin.Blocks.{Blockchain, TransactionEntry, Environment, TakenTransaction, PoolOperations}
use bytecoin.Blocks.Header.{exception}
use bytecoin.Blocks.Inputs.{Verdict, holds, denied, failure, check_tx_inputs}
use bytecoin.Blocks.PushBlock.{
  Moved, push_entry, give_up, LoadResult, ended, ended_by, load_transactions,
}

abbrev pub next_index : Blockchain → ℕ → TransactionIndex
next_index s n = record { block = length s.blocks % 2 ^ 32; transaction = (n + 1) % 2 ^ 16 }

pub Verdict-cases : (v : Verdict) → (v ≡ holds tt) ⊎ ((v ≡ denied) ⊎ (v ≡ failure))
Verdict-cases (holds _) = inl refl
Verdict-cases denied = inr (inl refl)
Verdict-cases failure = inr (inr refl)

module _ {P : Type 0} (pool : PoolOperations P) (env : Environment) (c : Currency) (s : Blockchain)
    (p : P) (tx : Transaction) (hash : Hash) (n : ℕ) (moved : List Moved) (size fee : ℕ) (id : Hash)
    (ids : List Hash) where
  abbrev round : LoadResult pool
  round = load_transactions pool env c s p tx hash n moved size fee (id ∷ ids)

  -- The round gives up, throws, or moves a transaction whose inputs pass and goes on.
  abbrev pub RoundCases : Type 0
  RoundCases =
      ((q : P) × (round ≡ ended_by pool (give_up pool s q moved tx hash)))
      ⊎ (((i : Indices) × ((q : P) × (round ≡ ended (record s { indices = i }) q exception)))
          ⊎ ((t : TakenTransaction) × ((q : P) × ((e : TransactionEntry) × ((i : Indices)
                    × ((pool.take_tx p id ≡ some (t, q))
                        × (check_tx_inputs env c s t.tx ≡ holds tt)
                        × (push_entry s.indices t.tx id (next_index s n) ≡ (i, some e))
                        × (round
                            ≡ load_transactions pool env c (record s { indices = i }) q tx hash
                                ((n + 1) % 2 ^ 16) ((id, e) ∷ moved) (add64 size t.blob_size)
                                (add64 fee t.fee) ids)))))))

  pub load_transactions-cases : RoundCases
  unfolding load_transactions
  load_transactions-cases = elim (Option-cases (pool.take_tx p id)) [
    | inl e ↦ inl (p, rw (e, load_transactions))
    | inr ((t, q), e) ↦ elim (Verdict-cases (check_tx_inputs env c s t.tx)) [
      | inr (inl v) ↦ inl ((pool.add_tx q t.tx).0, rw (e, load_transactions) (rw v))
      | inr (inr v) ↦ inr (inl (s.indices, (q, rw (e, load_transactions) (rw v))))
      | inl v ↦
          let r = push_entry s.indices t.tx id (next_index s n) in
          elim (Option-cases r.1) [
            | inl w ↦ inr (inl (r.0, (q, rw (e, load_transactions) (rw v (rw w)))))
            | inr (entry, w) ↦ inr (
                inr (
                  t,
                  (
                    q,
                    (
                      entry,
                      (r.0, (e, v, (λ i. (r.0, w i)), rw (e, load_transactions) (rw v (rw w)))),
                    ),
                  ),
                ))
          ]
    ]
  ]

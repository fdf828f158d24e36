-- ===== src/Blocks/Taking.antt =====
-- What `pushBlock` takes from the pool: the transactions of the block, one call of `take_tx` for every
-- hash, with their sizes and fees.
use bytecoin.Common.{
  ℕ, ◌+◌, ◌%◌, ◌^◌, ◌<◌, ◌≡◌, refl, sym, ap, ◌∙◌, subst, inl, inr, some, List, [], ◌∷◌, ◌++◌, arith,
  append_assoc, append-nil,
}
use bytecoin.Common.Word.{add64}
use bytecoin.Currency.{Currency}
use bytecoin.Transaction.{Hash, Transaction}
use bytecoin.Blocks.{Blockchain, TransactionEntry, Environment, PoolOperations, TakenTransaction}
use bytecoin.Blocks.Loading.{load_transactions-cases, next_index}
use bytecoin.Blocks.PoolKeeping.{push_entry-tx}
use bytecoin.Blocks.PushBlock.{
  Moved, entries, give_up, LoadResult, loaded, ended, ended_by, load_transactions,
}

-- The calls of `take_tx` for the hashes, in their order: what they give and the pool after them.
pub data Taken {P : Type 0} (pool : PoolOperations P)
    : P → List Hash → List TakenTransaction → P → Type 0 where
  nothing : (p : P) → Taken pool p [] [] p
  one :
      (p q : P) (id : Hash) (t : TakenTransaction) {ids : List Hash} {ts : List TakenTransaction}
      {r : P}
      → pool.take_tx p id ≡ some (t, q)
      → Taken pool q ids ts r
      → Taken pool p (id ∷ ids) (t ∷ ts) r

abbrev pub total_size : List TakenTransaction → ℕ
total_size [] = 0
total_size (t ∷ ts) = t.blob_size + total_size ts

abbrev pub total_fee : List TakenTransaction → ℕ
total_fee [] = 0
total_fee (t ∷ ts) = t.fee + total_fee ts

abbrev pub taken_txs : List TakenTransaction → List Transaction
taken_txs [] = []
taken_txs (t ∷ ts) = t.tx ∷ taken_txs ts

abbrev pub entry_txs : List TransactionEntry → List Transaction
entry_txs [] = []
entry_txs (e ∷ es) = e.tx ∷ entry_txs es

entry_txs-snoc :
    (es : List TransactionEntry) (e : TransactionEntry)
    → entry_txs (es ++ e ∷ []) ≡ entry_txs es ++ e.tx ∷ []
entry_txs-snoc [] e = refl
entry_txs-snoc (x ∷ es) e = ap (λ l. x.tx ∷ l) (entry_txs-snoc es e)

module _ {P : Type 0} (pool : PoolOperations P) where
  abbrev pub AreTaken : P → List Hash → List Moved → ℕ → ℕ → LoadResult pool → Type 0
  AreTaken p ids moved size fee (loaded s q moved' size' fee') =
      (ts : List TakenTransaction) × Taken pool p ids ts q
      × (entry_txs (entries moved') ≡ entry_txs (entries moved) ++ taken_txs ts)
      × (size' % 2 ^ 64 ≡ (size + total_size ts) % 2 ^ 64)
      × (fee' ≡ (fee + total_fee ts) % 2 ^ 64)
  AreTaken p ids moved size fee (ended s q r) = Unit

  more-AreTaken :
      (p q : P) (id : Hash) (ids : List Hash) (t : TakenTransaction) (entry : TransactionEntry)
      (moved : List Moved) (size fee : ℕ) (r : LoadResult pool)
      → pool.take_tx p id ≡ some (t, q)
      → entry.tx ≡ t.tx
      → AreTaken q ids ((id, entry) ∷ moved) (add64 size t.blob_size) (add64 fee t.fee) r
      → AreTaken p (id ∷ ids) moved size fee r
  more-AreTaken p q id ids t entry moved size fee (ended s q' r) take same k = tt
  more-AreTaken p q id ids t entry moved size fee (loaded s q' moved' size' fee') take same
        (ts, calls, txs, sizes, fees) =
      (
        t ∷ ts,
        one p q id t take calls,
        txs
            ∙ rw (entry_txs-snoc (entries moved) entry, same)
                (append_assoc (entry_txs (entries moved)) (t.tx ∷ []) (taken_txs ts)),
        omega (arith, sizes),
        omega (arith, fees),
      )

  ended_by-AreTaken :
      (p : P) (ids : List Hash) (moved : List Moved) (size fee : ℕ) (s : Blockchain) (q : P)
      (tx : Transaction) (hash : Hash)
      → AreTaken p ids moved size fee (ended_by pool (give_up pool s q moved tx hash))
  ended_by-AreTaken p ids moved size fee s q tx hash = tt

  pub load_transactions-AreTaken :
      (env : Environment) (c : Currency) (tx : Transaction) (hash : Hash) (ids : List Hash)
      (s : Blockchain) (p : P) (n : ℕ) (moved : List Moved) (size fee : ℕ)
      → fee < 2 ^ 64
      → AreTaken p ids moved size fee
          (load_transactions pool env c s p tx hash n moved size fee ids)
  unfolding load_transactions
  load_transactions-AreTaken env c tx hash [] s p n moved size fee h =
      ([], nothing p, sym (append-nil _), omega arith, omega arith)
  load_transactions-AreTaken env c tx hash (id ∷ ids) s p n moved size fee h =
      elim (load_transactions-cases pool env c s p tx hash n moved size fee id ids) [
        | inl (q, e) ↦
            subst (AreTaken p (id ∷ ids) moved size fee) (sym e)
              (ended_by-AreTaken p (id ∷ ids) moved size fee s q tx hash)
        | inr (inl (i, (q, e))) ↦ subst (AreTaken p (id ∷ ids) moved size fee) (sym e) tt
        | inr (inr (t, (q, (entry, (i, (take, _, pushed, e)))))) ↦
            let rest =
              load_transactions-AreTaken env c tx hash ids (record s { indices = i }) q
                ((n + 1) % 2 ^ 16) ((id, entry) ∷ moved) (add64 size t.blob_size) (add64 fee t.fee)
                (omega arith) in
            let same =
              push_entry-tx s.indices t.tx id (next_index s n) entry (ap (λ r. r.1) pushed) in
            subst (AreTaken p (id ∷ ids) moved size fee) (sym e)
              (more-AreTaken p q id ids t entry moved size fee _ take same rest)
      ]

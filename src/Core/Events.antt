-- ===== src/Core/Events.antt =====
-- The node as a sequence of events: transactions and blocks from the network, the expiry of the pool,
-- and proposals of blocks, at the times that the clock shows.
use bytecoin.Common.{
  ℕ, ◌≡◌, refl, sym, ap, subst, ◌∙◌, Bool, inl, inr, Option, none, some, List, [], ◌∷◌, Bool-cases,
  ltb,
}
use bytecoin.Currency.{Currency}
use bytecoin.Transaction.{Hash, PublicKey, Transaction}
use bytecoin.Blocks.{Block, BlockEntry, Environment}
use bytecoin.Pool.{Pool, TransactionValidator}
use bytecoin.Pool.Calls.{on_idle}
use bytecoin.Pool.ChainPool.{chain_pool}
use bytecoin.Pool.Consistency.{IsConsistent, HasDistinctInputs}
use bytecoin.Pool.Expiry.{on_idle-IsConsistent}
use bytecoin.Pool.Invariant.{fill_block_template-IsConsistent}
use bytecoin.Pool.Template.{fill_block_template}
use bytecoin.Core.{handle_incoming_tx, handle_incoming_block}
use bytecoin.Core.Semantics.{handle_incoming_tx_lem}
use bytecoin.Reorganisation.{Chains, BlockContext}
use bytecoin.Reorganisation.Endings.{Outcome-cases}
use bytecoin.Reorganisation.Linked.{hashes_of, AreLinked, IsChain}
use bytecoin.Reorganisation.Soundness.{find_tx, IsSound, add_new_block-IsSound}
use bytecoin.Reorganisation.Switch.{add_new_block}
use bytecoin.Validation.{chain_validator}

-- The environment at a time.
abbrev pub at : Environment → ℕ → Environment
at env now = record env { now = now }

-- One event. The state is that of the main chain, the alternative blocks and the pool.
pub data Event (env : Environment) (c : Currency) (check_key : PublicKey → Bool) (s : Chains Pool)
    : Chains Pool → Type 0 where
  receives_tx :
      (now blob_size : ℕ) (parsed : Option (Transaction × Hash)) (kept : Bool)
      → Event env c check_key s
          (handle_incoming_tx (at env now) c check_key s blob_size parsed kept).0
  receives_block :
      (now : ℕ) (v : TransactionValidator) (depth : ℕ) (b : Block) (bvc : BlockContext)
      → Event env c check_key s (handle_incoming_block (at env now) c v depth s b bvc).0
  idles : (now later : ℕ) → Event env c check_key s (record s { pool = on_idle c now later s.pool })
  proposes :
      (now median_size max_cumulative_size : ℕ)
      → Event env c check_key s (record s {
        pool =
            (fill_block_template
              (chain_validator (at env now) c s.main)
              c
              s.pool
              median_size
              max_cumulative_size).0;
      })

pub data Follows (env : Environment) (c : Currency) (check_key : PublicKey → Bool) (s : Chains Pool)
    : Chains Pool → Type 0 where
  start : Follows env c check_key s s
  next :
      {t u : Chains Pool}
      → Follows env c check_key s t
      → Event env c check_key t u
      → Follows env c check_key s u

hashes_of-at :
    (env : Environment) (now : ℕ) (l : List BlockEntry) → hashes_of (at env now) l ≡ hashes_of env l
hashes_of-at env now [] = refl
hashes_of-at env now (e ∷ l) = ap (λ r. env.block_hash e.bl ∷ r) (hashes_of-at env now l)

AreLinked-at :
    (env : Environment) (now : ℕ) (l : List BlockEntry) → AreLinked env l → AreLinked (at env now) l
AreLinked-at env now [] k = tt
AreLinked-at env now (e ∷ []) k = tt
AreLinked-at env now (e ∷ f ∷ l) (h, k) = (h, AreLinked-at env now (f ∷ l) k)

at-AreLinked :
    (env : Environment) (now : ℕ) (l : List BlockEntry) → AreLinked (at env now) l → AreLinked env l
at-AreLinked env now [] k = tt
at-AreLinked env now (e ∷ []) k = tt
at-AreLinked env now (e ∷ f ∷ l) (h, k) = (h, at-AreLinked env now (f ∷ l) k)

module _ (env : Environment) (c : Currency) (check_key : PublicKey → Bool) (g : BlockEntry) where
  abbrev IsGood : Chains Pool → Type 0
  IsGood s = IsSound env g s.main s.pool

  with_pool :
      (s : Chains Pool) (p : Pool) → IsGood s → IsConsistent p → IsGood (record s { pool = p })
  with_pool s p ok good = record { chain = ok.chain; pool = good }

  into : (now : ℕ) (s : Chains Pool) → IsGood s → IsSound (at env now) g s.main s.pool
  into now s ok = record {
    chain = record {
      genesis = ok.chain.genesis;
      index = ok.chain.index ∙ sym (hashes_of-at env now s.main.blocks);
      distinct = ok.chain.distinct;
      linked = AreLinked-at env now s.main.blocks ok.chain.linked;
      kind = ok.chain.kind;
    };
    pool = ok.pool;
  }

  out_of : (now : ℕ) (s : Chains Pool) → IsSound (at env now) g s.main s.pool → IsGood s
  out_of now s ok = record {
    chain = record {
      genesis = ok.chain.genesis;
      index = ok.chain.index ∙ hashes_of-at env now s.main.blocks;
      distinct = ok.chain.distinct;
      linked = at-AreLinked env now s.main.blocks ok.chain.linked;
      kind = ok.chain.kind;
    };
    pool = ok.pool;
  }

  handle_incoming_block-IsGood :
      (now : ℕ) (v : TransactionValidator) (depth : ℕ) (s : Chains Pool) (b : Block)
      (bvc : BlockContext)
      → IsGood s
      → IsGood (handle_incoming_block (at env now) c v depth s b bvc).0
  unfolding handle_incoming_block
  handle_incoming_block-IsGood now v depth s b bvc ok =
      let r = add_new_block (chain_pool c v (at env now)) (at env now) c find_tx depth s b bvc in
      let good =
        out_of now r.0 (add_new_block-IsSound c v (at env now) g depth s b bvc (into now s ok)) in
      elim (Outcome-cases r.2) [
        | inl (_, e) ↦ rw (e, handle_incoming_block) good
        | inr (inl e) ↦ rw (e, handle_incoming_block) good
        | inr (inr e) ↦ rw (e, handle_incoming_block) good
      ]

  handle_incoming_tx-IsGood :
      (now blob_size : ℕ) (s : Chains Pool) (parsed : Option (Transaction × Hash)) (kept : Bool)
      → IsGood s
      → IsGood (handle_incoming_tx (at env now) c check_key s blob_size parsed kept).0
  unfolding handle_incoming_tx
  handle_incoming_tx-IsGood now blob_size s none kept ok =
      elim (Bool-cases (ltb c.max_tx_size blob_size)) [ inl h ↦ rw h ok | inr h ↦ rw h ok ]
  handle_incoming_tx-IsGood now blob_size s (some (tx, tx_hash)) kept ok =
      let (main, _, good, _) =
        handle_incoming_tx_lem (at env now) c check_key s blob_size tx tx_hash kept ok.pool in
      record {
        chain = subst (λ m. IsChain env (λ t. HasDistinctInputs t) g m) (sym main) ok.chain;
        pool = good;
      }

  Event-IsGood : {s t : Chains Pool} → IsGood s → Event env c check_key s t → IsGood t
  Event-IsGood {s} ok (receives_tx now blob_size parsed kept) =
      handle_incoming_tx-IsGood now blob_size s parsed kept ok
  Event-IsGood {s} ok (receives_block now v depth b bvc) =
      handle_incoming_block-IsGood now v depth s b bvc ok
  Event-IsGood {s} ok (idles now later) =
      with_pool s (on_idle c now later s.pool) ok (on_idle-IsConsistent c now later s.pool ok.pool)
  Event-IsGood {s} ok (proposes now median_size max_cumulative_size) =
      let v = chain_validator (at env now) c s.main in
      with_pool s (fill_block_template v c s.pool median_size max_cumulative_size).0 ok
        (fill_block_template-IsConsistent v c s.pool median_size max_cumulative_size ok.pool)

  -- Whatever follows, at any times, on a node whose state is sound, transactions and blocks from
  -- the network, the expiry of the pool and proposals of blocks, its state is sound: the main
  -- chain has the same genesis block and is linked by hashes, no hash stands twice, the index
  -- holds the hashes of the blocks, the transactions of its blocks but the coinbase ones have
  -- distinct inputs, and the pool is consistent.
  pub Follows-IsSound :
      (s t : Chains Pool)
      → IsSound env g s.main s.pool
      → Follows env c check_key s t
      → IsSound env g t.main t.pool
  Follows-IsSound s t ok start = ok
  Follows-IsSound s t ok (next {t = u} path event) =
      Event-IsGood (Follows-IsSound s u ok path) event

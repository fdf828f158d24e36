-- ===== src/Reorganisation/Soundness.antt =====
-- `add_new_block` with the pool of class tx_memory_pool: the main chain stays a chain and the pool
-- consistent.
use bytecoin.Common.{ℕ, ◌≡◌, sym, subst, ◌<◌, Option, none, some, length}
use bytecoin.Currency.{Currency}
use bytecoin.Transaction.{Hash, Transaction}
use bytecoin.Storage.{Indices}
use bytecoin.Storage.Pop.{back?, pop_back}
use bytecoin.Blocks.{Block, Blockchain, BlockEntry, Environment}
use bytecoin.Blocks.KindKeeping.{push_block-kind, pop_block_lem, pop_block_progress_lem}
use bytecoin.Blocks.PushBlock.{push_block, pop_block, pop_block_progress}
use bytecoin.Pool.{Pool, TransactionValidator}
use bytecoin.Pool.ChainPool.{chain_pool, push_block-IsConsistent, returned-IsConsistent}
use bytecoin.Pool.Consistency.{HasDistinctInputs, IsConsistent}
use bytecoin.Pool.Order.{find_transaction}
use bytecoin.Pool.Steps.{take_tx-IsConsistent}
use bytecoin.Reorganisation.{Chains, BlockContext}
use bytecoin.Reorganisation.Keeping.{add_new_block-Holds}
use bytecoin.Reorganisation.Linked.{IsChain, push_block-IsChain, popped-IsChain}
use bytecoin.Reorganisation.Switch.{add_new_block}

-- What the pool's `getTransactions` finds by a hash.
unfoldable pub find_tx : Pool → Hash → Option Transaction
unfolding find_transaction
find_tx p id = elim (find_transaction id p.transactions) [ none ↦ none | some d ↦ some d.tx ]

-- The main chain is a chain behind the genesis block, its transactions have distinct inputs, and the
-- pool is consistent.
pub record IsSound (env : Environment) (g : BlockEntry) (s : Blockchain) (p : Pool) : Type 0 where
  pub chain : IsChain env (λ tx. HasDistinctInputs tx) g s
  pub pool : IsConsistent p

module _ (c : Currency) (v : TransactionValidator) (env : Environment) (g : BlockEntry) where
  pushed-IsSound :
      (s : Blockchain) (p : Pool) (b : Block)
      → IsSound env g s p
      → IsSound env g
          (push_block (chain_pool c v env) env c s p b).0
          (push_block (chain_pool c v env) env c s p b).1
  pushed-IsSound s p b ok = record {
    chain =
        push_block-IsChain (chain_pool c v env) env c (λ tx. HasDistinctInputs tx) g s p b ok.chain
          (push_block-kind (chain_pool c v env) IsConsistent (λ tx. HasDistinctInputs tx)
            (λ p h t q good e. take_tx-IsConsistent p q h t good e) (returned-IsConsistent c v env)
            env c s p b ok.pool ok.chain.kind);
    pool = push_block-IsConsistent c v env s p b ok.pool;
  }

  popped-IsSound :
      (s s' : Blockchain) (p p' : Pool) (x : BlockEntry)
      → IsSound env g s p
      → 1 < length s.blocks
      → back? s.blocks ≡ some x
      → pop_block (chain_pool c v env) env s p ≡ some (s', p')
      → IsSound env g s' p' × (s'.blocks ≡ pop_back s.blocks)
  popped-IsSound s s' p p' x ok l f e =
      let (pool, blocks, index) =
        pop_block_lem (chain_pool c v env) IsConsistent (λ tx. HasDistinctInputs tx)
          (λ p h t q good e. take_tx-IsConsistent p q h t good e) (returned-IsConsistent c v env)
          env c s s' p p' x ok.pool ok.chain.kind f e in
      (
        record {
          chain = popped-IsChain env (λ tx. HasDistinctInputs tx) g s s' ok.chain l blocks index;
          pool = pool;
        },
        blocks,
      )

  with_indices :
      (s : Blockchain) (p : Pool) (i : Indices)
      → IsSound env g s p
      → IsSound env g (record s { indices = i }) p
  with_indices s p i ok = record {
    chain = record {
      genesis = ok.chain.genesis;
      index = ok.chain.index;
      distinct = ok.chain.distinct;
      linked = ok.chain.linked;
      kind = ok.chain.kind;
    };
    pool = ok.pool;
  }

  halted-IsSound :
      (s : Blockchain) (p : Pool) (x : BlockEntry)
      → IsSound env g s p
      → back? s.blocks ≡ some x
      → IsSound env g
          (pop_block_progress (chain_pool c v env) s p).0
          (pop_block_progress (chain_pool c v env) s p).1
  halted-IsSound s p x ok f =
      let r = pop_block_progress (chain_pool c v env) s p in
      let (good, same) =
        pop_block_progress_lem (chain_pool c v env) IsConsistent (λ tx. HasDistinctInputs tx)
          (λ p h t q good e. take_tx-IsConsistent p q h t good e) (returned-IsConsistent c v env)
          env c s p x ok.pool ok.chain.kind f in
      subst (λ m. IsSound env g m r.1) (sym same)
        (with_indices s r.1 r.0.indices (record { chain = ok.chain; pool = good }))

  -- Whatever add_new_block does with a block, a switch to an alternative chain and its rollback
  -- included, and however it ends, it keeps the following: the main chain has the same genesis
  -- block, every block but the first names the hash of the one before it, no hash stands twice,
  -- the index holds the hashes of the blocks in their order, and the transactions of the blocks
  -- but the coinbase ones have distinct inputs; and the pool is consistent.
  pub add_new_block-IsSound :
      (depth : ℕ) (s : Chains Pool) (b : Block) (bvc : BlockContext)
      → IsSound env g s.main s.pool
      → let t = (add_new_block (chain_pool c v env) env c find_tx depth s b bvc).0 in
        IsSound env g t.main t.pool
  add_new_block-IsSound depth s b bvc ok =
      add_new_block-Holds (chain_pool c v env) env c (λ s p. IsSound env g s p) pushed-IsSound
        popped-IsSound halted-IsSound
        (λ s p good. record {
          chain = record {
            genesis = good.chain.genesis;
            index = good.chain.index;
            distinct = good.chain.distinct;
            linked = good.chain.linked;
            kind = good.chain.kind;
          };
          pool = good.pool;
        })
        find_tx depth s b bvc ok

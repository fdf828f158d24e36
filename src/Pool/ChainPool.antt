-- ===== src/Pool/ChainPool.antt =====
-- The pool as the main chain uses it: the calls of `m_tx_pool` in
-- src/cryptonote_core/blockchain_storage.cpp.
use bytecoin.Common.{Bool, true, false}
use bytecoin.Currency.{Currency}
use bytecoin.Transaction.{Transaction}
use bytecoin.Blocks.{Block, Blockchain, Environment, PoolOperations}
use bytecoin.Blocks.PushBlock.{push_block}
use bytecoin.Blocks.PoolKeeping.{push_block-keeps}
use bytecoin.Pool.{Pool, VerificationContext, TransactionValidator}
use bytecoin.Pool.Calls.{add_tx, take_tx}
use bytecoin.Pool.Consistency.{HasDistinctInputs, IsConsistent}
use bytecoin.Pool.Steps.{add_tx-IsConsistent, take_tx-IsConsistent}

-- A value-initialized tx_verification_context.
abbrev pub fresh_context : VerificationContext
fresh_context = record {
  should_be_relayed = false;
  verifivation_failed = false;
  verifivation_impossible = false;
  added_to_pool = false;
  tx_fee_too_small = false;
}

module _ (c : Currency) (v : TransactionValidator) (env : Environment) where
  -- `add_tx` without the hash, which it computes with the size.
  unfoldable pub add_tx_hashed :
      Pool → Transaction → VerificationContext → Bool → Pool × VerificationContext × Bool
  unfolding add_tx
  add_tx_hashed p tx tvc kept_by_block =
      add_tx c v p tx (env.transaction_hash tx) (env.blob_size tx) tvc kept_by_block env.now

  abbrev pub chain_pool : PoolOperations Pool
  chain_pool = record {
    take_tx = take_tx;
    add_tx = λ p tx. let (q, _, added) = add_tx_hashed p tx fresh_context true in (q, added);
  }

  pub returned-IsConsistent :
      (p : Pool) (tx : Transaction)
      → IsConsistent p
      → HasDistinctInputs tx
      → IsConsistent (chain_pool.add_tx p tx).0
  unfolding add_tx_hashed
  returned-IsConsistent p tx ok distinct =
      add_tx-IsConsistent c v p tx (env.transaction_hash tx) (env.blob_size tx) fresh_context true
        env.now ok distinct

  -- Pushing a block, whether it is added or not, leaves a consistent pool consistent: what the
  -- block takes out of the pool is gone with its marks, and what is returned is marked again.
  pub push_block-IsConsistent :
      (s : Blockchain) (p : Pool) (b : Block)
      → IsConsistent p
      → IsConsistent (push_block chain_pool env c s p b).1
  push_block-IsConsistent s p b ok =
      push_block-keeps chain_pool IsConsistent (λ tx. HasDistinctInputs tx)
        (λ p h t q good e. take_tx-IsConsistent p q h t good e) returned-IsConsistent env c s p b ok

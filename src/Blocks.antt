-- ===== src/Blocks.antt =====
-- src/cryptonote_core/blockchain_storage.h and .cpp: the main chain of class blockchain_storage, and
-- what it uses of the rest of the program.
pub mod Rules
pub mod RuleLaws
pub mod Inputs
pub mod InputLaws
pub mod Header
pub mod PushBlock
pub mod Loading
pub mod Ending
pub mod Unchanged
pub mod Moving
pub mod Restore
pub mod Undone
pub mod PoolKeeping
pub mod KindKeeping
pub mod Taking
pub mod PushLaws
use bytecoin.Common.{ℕ, Bool, List, Option}
use bytecoin.Transaction.{Hash, PublicKey, KeyImage, Signature, Transaction}
use bytecoin.Storage.{Indices}
use bytecoin.Checkpoints.{Points}
use bytecoin.Upgrade.{Detector}
use bytecoin.BlockIndex.{BlockIndex}

-- BlockHeader and Block of cryptonote_basic.h, without the parent block of a merge-mined one.
pub record Block : Type 0 where
  pub major_version : ℕ
  pub minor_version : ℕ
  pub nonce : ℕ
  pub timestamp : ℕ
  pub prev_id : Hash
  pub miner_tx : Transaction
  pub tx_hashes : List Hash

pub record TransactionEntry : Type 0 where
  pub tx : Transaction
  pub global_output_indexes : List ℕ

pub record BlockEntry : Type 0 where
  pub bl : Block
  pub height : ℕ
  pub block_cumulative_size : ℕ
  pub cumulative_difficulty : ℕ
  pub already_generated_coins : ℕ
  pub transactions : List TransactionEntry

-- The members of blockchain_storage that the main chain is kept in.
pub record Blockchain : Type 0 where
  pub blocks : List BlockEntry
  pub block_index : BlockIndex
  pub indices : Indices
  pub checkpoints : Points
  pub is_in_checkpoint_zone : Bool
  pub upgrade_detector : Detector
  pub current_block_cumul_sz_limit : ℕ

-- The hashes, sizes and cryptographic tests that the chain asks for, and the clock. The tests of
-- signatures take the prefix hash first; `parent_block_size` is `none` where serialising fails.
pub record Environment : Type 0 where
  pub block_hash : Block → Hash
  pub transaction_hash : Transaction → Hash
  pub prefix_hash : Transaction → Hash
  pub blob_size : Transaction → ℕ
  pub parent_block_size : Block → Option ℕ
  pub check_proof_of_work : Block → ℕ → Bool
  pub check_ring_signature : Hash → KeyImage → List PublicKey → List Signature → Bool
  pub check_signature : Hash → PublicKey → Signature → Bool
  pub now : ℕ

-- What `take_tx` hands over.
pub record TakenTransaction : Type 0 where
  pub tx : Transaction
  pub blob_size : ℕ
  pub fee : ℕ

-- The operations of the pool that the chain calls; `add_tx` is the call with `keptByBlock`.
pub record PoolOperations (P : Type 0) : Type 0 where
  pub take_tx : P → Hash → Option (TakenTransaction × P)
  pub add_tx : P → Transaction → P × Bool

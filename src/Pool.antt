-- ===== src/Pool.antt =====
-- src/cryptonote_core/tx_pool.h: the members of class tx_memory_pool, and the interfaces that it uses
-- (ITransactionValidator.h, verification_context.h). The mutex, the observers, the log and the file of
-- the pool are left out; times are seconds since the epoch and not negative.
pub mod Inputs
pub mod Order
pub mod Calls
pub mod Template
pub mod Totals
pub mod Marking
pub mod Adding
pub mod Removing
pub mod Consistency
pub mod Insertion
pub mod Removal
pub mod Expiry
pub mod Entering
pub mod Entry
pub mod Priority
pub mod TemplateInputs
pub mod TemplateLaws
pub mod Filling
pub mod Steps
pub mod Invariant
pub mod ChainPool
use bytecoin.Common.{ℕ, Bool, List}
use bytecoin.Common.Map.{Map}
use bytecoin.Transaction.{Hash, Transaction}

pub record BlockInfo : Type 0 where
  pub height : ℕ
  pub id : Hash

-- `BlockInfo::clear`, with the null hash.
abbrev pub no_block : BlockInfo
no_block = record { height = 0; id = 0 }

-- TransactionCheckInfo and TransactionDetails.
pub record TransactionDetails : Type 0 where
  pub max_used_block : BlockInfo
  pub last_failed_block : BlockInfo
  pub id : Hash
  pub tx : Transaction
  pub blob_size : ℕ
  pub fee : ℕ
  pub kept_by_block : Bool
  pub receive_time : ℕ

-- A std::set of pairs, as its characteristic function.
abbrev pub OutputSet : Type 0
OutputSet = ℕ → ℕ → Bool

-- m_transactions in the order of its index by fee, m_spent_key_images, whose sets are lists,
-- m_spentOutputs, and m_lastWorkedTime of m_txCheckInterval.
pub record Pool : Type 0 where
  pub transactions : List TransactionDetails
  pub spent_key_images : Map (List Hash)
  pub spent_outputs : OutputSet
  pub last_worked_time : ℕ

-- tx_verification_context.
pub record VerificationContext : Type 0 where
  pub should_be_relayed : Bool
  pub verifivation_failed : Bool
  pub verifivation_impossible : Bool
  pub added_to_pool : Bool
  pub tx_fee_too_small : Bool

-- ITransactionValidator. The second call is given the two blocks of the details and may change them.
pub record TransactionValidator : Type 0 where
  pub check_transaction_inputs : Transaction → Bool × BlockInfo
  pub check_transaction_inputs_again :
      Transaction → BlockInfo → BlockInfo → Bool × BlockInfo × BlockInfo
  pub have_spent_key_images : Transaction → Bool

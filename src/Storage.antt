-- ===== src/Storage.antt =====
-- src/cryptonote_core/blockchain_storage.h and .cpp: the indices that class blockchain_storage keeps
-- of its blocks, and the operations that push and pop transactions.
pub mod Push
pub mod Pop
pub mod Keys
pub mod Usage
pub mod Marks
pub mod Outs
pub mod Refusal
pub mod Undo
pub mod Spending
use bytecoin.Common.{ℕ, Bool, List}
use bytecoin.Common.Map.{Map, NumberSet}

pub record TransactionIndex : Type 0 where
  pub block : ℕ
  pub transaction : ℕ

-- An entry of a vector of m_outputs: the transaction and the number of its output.
pub record OutputEntry : Type 0 where
  pub index : TransactionIndex
  pub output : ℕ

pub record MultisignatureOutputUsage : Type 0 where
  pub transaction_index : TransactionIndex
  pub output_index : ℕ
  pub is_used : Bool

-- m_spent_keys, m_outputs, m_transactionMap and m_multisignatureOutputs.
pub record Indices : Type 0 where
  pub spent_keys : NumberSet
  pub outputs : Map (List OutputEntry)
  pub transaction_map : Map TransactionIndex
  pub multisignature_outputs : Map (List MultisignatureOutputUsage)

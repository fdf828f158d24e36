-- ===== src/Transaction.antt =====
-- src/cryptonote_core/cryptonote_basic.h: the data of a transaction. Hashes, keys and key images are
-- 32-byte strings that are only compared, and stand as numbers.
pub mod Amounts
pub mod AmountLaws
pub mod Inputs
pub mod Offsets
pub mod Decompose
use bytecoin.Common.{ℕ, List}

abbrev pub Hash : Type 0
Hash = ℕ

abbrev pub PublicKey : Type 0
PublicKey = ℕ

abbrev pub KeyImage : Type 0
KeyImage = ℕ

abbrev pub Signature : Type 0
Signature = ℕ

pub record TransactionInputToKey : Type 0 where
  pub amount : ℕ
  pub key_offsets : List ℕ
  pub key_image : KeyImage

pub record TransactionInputMultisignature : Type 0 where
  pub amount : ℕ
  pub signatures : ℕ
  pub output_index : ℕ

-- The boost::variant TransactionInput; `generate` carries the height of TransactionInputGenerate.
pub data TransactionInput : Type 0 where
  generate : ℕ → TransactionInput
  to_script : TransactionInput
  to_script_hash : TransactionInput
  to_key : TransactionInputToKey → TransactionInput
  multisignature : TransactionInputMultisignature → TransactionInput

pub record TransactionOutputMultisignature : Type 0 where
  pub keys : List PublicKey
  pub required_signatures : ℕ

pub data TransactionOutputTarget : Type 0 where
  to_script : TransactionOutputTarget
  to_script_hash : TransactionOutputTarget
  to_key : PublicKey → TransactionOutputTarget
  multisignature : TransactionOutputMultisignature → TransactionOutputTarget

pub record TransactionOutput : Type 0 where
  pub amount : ℕ
  pub target : TransactionOutputTarget

-- TransactionPrefix with the signatures of Transaction.
pub record Transaction : Type 0 where
  pub version : ℕ
  pub unlock_time : ℕ
  pub vin : List TransactionInput
  pub vout : List TransactionOutput
  pub extra : List ℕ
  pub signatures : List (List Signature)

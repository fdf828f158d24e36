-- ===== src/Tests/World.antt =====
-- A chain of one block, the world around it, and blocks to add.
use bytecoin.Common.{ℕ, ◌+◌, true, false, none, some, [], ◌∷◌}
use bytecoin.Transaction.{Transaction, TransactionInput, TransactionOutputTarget}
use bytecoin.Storage.{Indices}
use bytecoin.Upgrade.{undef_height}
use bytecoin.Blocks.{Block, Blockchain, Environment, PoolOperations}

abbrev pub coinbase : ℕ → ℕ → Transaction
coinbase height amount = record {
  version = 1;
  unlock_time = height + 10;
  vin = TransactionInput.generate height ∷ [];
  vout = record { amount = amount; target = TransactionOutputTarget.to_key 21 } ∷ [];
  extra = [];
  signatures = [];
}

abbrev pub genesis : Block
genesis = record {
  major_version = 1;
  minor_version = 0;
  nonce = 0;
  timestamp = 0;
  prev_id = 0;
  miner_tx = coinbase 0 5;
  tx_hashes = [];
}

abbrev pub second : ℕ → Block
second amount = record genesis {
  nonce = 1;
  timestamp = 100;
  prev_id = 1_000;
  miner_tx = coinbase 1 amount;
}

-- Every signature and every proof of work passes; the size of a transaction is given.
abbrev pub world : ℕ → Environment
world size = record {
  block_hash = λ b. 1_000 + b.nonce;
  transaction_hash = λ tx. 50 + tx.unlock_time;
  prefix_hash = λ tx. tx.unlock_time;
  blob_size = λ tx. size;
  parent_block_size = λ b. some 100;
  check_proof_of_work = λ b d. true;
  check_ring_signature = λ p k keys sig. true;
  check_signature = λ p k sig. true;
  now = 1_000;
}

abbrev pub empty_indices : Indices
empty_indices = record {
  spent_keys = λ k. false;
  outputs = λ a. none;
  transaction_map = λ h. none;
  multisignature_outputs = λ a. none;
}

abbrev pub one_block : Blockchain
one_block = record {
  blocks =
      record {
        bl = genesis;
        height = 0;
        block_cumulative_size = 100;
        cumulative_difficulty = 1;
        already_generated_coins = 0;
        transactions = [];
      }
      ∷ [];
  block_index = 1_000 ∷ [];
  indices = empty_indices;
  checkpoints = [];
  is_in_checkpoint_zone = false;
  upgrade_detector = record { target_version = 2; voting_complete_height = undef_height };
  current_block_cumul_sz_limit = 20_000;
}

-- A pool with nothing in it, that keeps the number of the transactions returned to it.
abbrev pub no_pool : PoolOperations ℕ
no_pool = record { take_tx = λ p h. none; add_tx = λ p tx. (p + 1, true) }

abbrev pub full_reward : ℕ
full_reward = 70_368_744_177_663

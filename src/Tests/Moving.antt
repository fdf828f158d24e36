-- ===== src/Tests/Moving.antt =====
-- The inputs of a transaction, and a block with one transaction that is moved and taken back.
use bytecoin.Common.{subst, ◌⊎◌, ℕ, ◌+◌, ◌≡◌, refl, ◌≢◌, true, false, some, [], ◌∷◌}
use bytecoin.Transaction.{Transaction, TransactionInput, TransactionOutputTarget}
use bytecoin.Currency.{default_currency}
use bytecoin.Currency.Reward.{get_block_reward, get_penalized_amount}
use bytecoin.Transaction.Amounts.{check_multisignature_inputs_diff}
use bytecoin.Currency.Retarget.{within_window}
use bytecoin.Common.Map.{put, erase}
use bytecoin.Storage.Push.{pushed, refused, push_transaction}
use bytecoin.Storage.Outs.{AreFilled}
use bytecoin.Storage.Pop.{pop_transaction}
use bytecoin.Storage.Usage.{AreUnused, multisignature_inputs}
use bytecoin.Storage.Spending.{key_images, AreUnspent}
use bytecoin.Blocks.Restore.{miner_index}
use bytecoin.Blocks.Ending.{push_miner}
use bytecoin.Blocks.Loading.{next_index}
use bytecoin.Blocks.Moving.{NoneRefused}
use bytecoin.Blocks.Undone.{IsTooBig, push_block-undone}
use bytecoin.Blocks.Inputs.{holds, check_tx_inputs}
use bytecoin.Blocks.InputLaws.{check_tx_inputs-unspent}
use bytecoin.Blocks.{TakenTransaction, Block, Blockchain, PoolOperations}
use bytecoin.Blocks.Header.{rejected}
use bytecoin.Blocks.PushBlock.{push_entry, push_block}
use bytecoin.Tests.World.{coinbase, genesis, second, world, empty_indices, one_block, full_reward}

-- A multisignature input that spends an output of the genesis block.
abbrev two_of_two : Transaction
two_of_two = record (coinbase 0 5) {
  unlock_time = 0;
  vout =
      record {
        amount = 5;
        target =
            TransactionOutputTarget.multisignature
              (record { keys = 8 ∷ 9 ∷ []; required_signatures = 2 });
      }
      ∷ [];
}

abbrev shared_chain : Blockchain
shared_chain = record one_block {
  blocks =
      record {
        bl = genesis;
        height = 0;
        block_cumulative_size = 100;
        cumulative_difficulty = 1;
        already_generated_coins = 0;
        transactions = record { tx = two_of_two; global_output_indexes = 0 ∷ [] } ∷ [];
      }
      ∷ [];
  indices = record empty_indices {
    multisignature_outputs = λ a. some (
        record {
          transaction_index = record { block = 0; transaction = 0 };
          output_index = 0;
          is_used = false;
        }
        ∷ []);
  };
}

abbrev spending : Transaction
spending = record (coinbase 0 4) {
  vin =
      TransactionInput.multisignature (record { amount = 5; signatures = 2; output_index = 0 })
      ∷ [];
  signatures = (3 ∷ 4 ∷ []) ∷ [];
}

spending_passes : check_tx_inputs (world 100) default_currency shared_chain spending ≡ holds tt
unfolding check_tx_inputs
spending_passes = refl

inputs_example :
    AreUnused shared_chain.indices.multisignature_outputs (multisignature_inputs spending.vin)
    × AreUnspent shared_chain.indices.spent_keys (key_images spending.vin)
inputs_example =
    check_tx_inputs-unspent (world 100) default_currency shared_chain spending spending_passes

-- A block with one transaction, that has no inputs and one output, and a greedy coinbase.
abbrev gift : Transaction
gift = record (coinbase 0 6) { vin = [] }

abbrev taken_gift : TakenTransaction
taken_gift = record { tx = gift; blob_size = 70; fee = 0 }

abbrev gift_pool : PoolOperations ℕ
gift_pool = record { take_tx = λ p h. some (taken_gift, p); add_tx = λ p tx. (p + 1, true) }

abbrev greedy : Block
greedy = record (second (full_reward + 1)) { tx_hashes = 77 ∷ [] }

abbrev midway : Blockchain
midway = record one_block {
  indices = (push_miner gift_pool (world 100) default_currency one_block greedy).0;
}

greedy_undone : (push_block gift_pool (world 100) default_currency one_block 0 greedy).2 ≡ rejected
unfolding push_block within_window check_multisignature_inputs_diff get_block_reward
    get_penalized_amount pop_transaction put erase
greedy_undone = refl

greedy_miner_pushed :
    (push_transaction empty_indices greedy.miner_tx 61 (miner_index one_block)).1 ≡ pushed (0 ∷ [])
unfolding push_transaction check_multisignature_inputs_diff put
greedy_miner_pushed = refl

greedy_miner_accepted :
    (push_transaction empty_indices greedy.miner_tx 61 (miner_index one_block)).1 ≢ refused
greedy_miner_accepted e = cc (e, greedy_miner_pushed)

gift_pushed : (push_transaction midway.indices gift 77 (next_index midway 0)).1 ≡ pushed (0 ∷ [])
unfolding push_transaction push_entry check_multisignature_inputs_diff put
gift_pushed = refl

gift_accepted :
    NoneRefused gift_pool greedy.miner_tx 61 (world 100) default_currency midway 0 0 (77 ∷ [])
gift_accepted t q e v = (
  subst
      (λ (x : TakenTransaction).
        (push_transaction midway.indices x.tx 77 (next_index midway 0)).1 ≢ refused)
      (same t q e) accepted,
  tt,
)
  where
    same : (t : TakenTransaction) (q : ℕ) → gift_pool.take_tx 0 77 ≡ some (t, q) → taken_gift ≡ t
    same t q e = cc e

    accepted : (push_transaction midway.indices gift 77 (next_index midway 0)).1 ≢ refused
    accepted e = cc (e, gift_pushed)

no_outputs-AreFilled : AreFilled (empty_indices.outputs, empty_indices.multisignature_outputs)
no_outputs-AreFilled = (λ a e. cc e, λ a e. cc e)

undone_example :
    ((push_block gift_pool (world 100) default_currency one_block 0 greedy).0 ≡ one_block)
    ⊎ IsTooBig gift_pool (world 100) default_currency one_block 0 greedy
undone_example =
    push_block-undone gift_pool (world 100) default_currency one_block 0 greedy 1
      no_outputs-AreFilled refl greedy_miner_accepted gift_accepted greedy_undone

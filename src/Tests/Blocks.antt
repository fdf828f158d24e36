-- ===== src/Tests/Blocks.antt =====
-- A second block that is added to a chain of one block, or refused.
use bytecoin.Common.{◌+◌, ◌≡◌, refl, ◌≢◌, true, false, none, some, [], ◌∷◌}
use bytecoin.Currency.{default_currency}
use bytecoin.Currency.Reward.{BlockReward, get_block_reward, get_penalized_amount}
use bytecoin.Storage.{Indices}
use bytecoin.Transaction.Amounts.{check_multisignature_inputs_diff}
use bytecoin.Currency.Retarget.{within_window}
use bytecoin.Common.Map.{put}
use bytecoin.Storage.Push.{pushed, push_transaction}
use bytecoin.Storage.Outs.{AreFilled}
use bytecoin.Storage.Pop.{pop_transaction}
use bytecoin.Blocks.Restore.{miner_index, push_block-refused}
use bytecoin.Blocks.Rules.{check_cumulative_block_size}
use bytecoin.Blocks.Ending.{judge}
use bytecoin.Blocks.{BlockEntry}
use bytecoin.Blocks.Header.{added, rejected, check_header}
use bytecoin.Blocks.RuleLaws.{IsAcceptable}
use bytecoin.Blocks.PushBlock.{push_block}
use bytecoin.Blocks.PushLaws.{HasEntry, push_block-added}
use bytecoin.Blocks.Unchanged.{push_block-unchanged}
use bytecoin.Tests.World.{coinbase, second, world, empty_indices, one_block, no_pool, full_reward}

second_added :
    (push_block no_pool (world 100) default_currency one_block 0 (second full_reward)).2 ≡ added
unfolding push_block within_window check_multisignature_inputs_diff get_block_reward
    get_penalized_amount
second_added = refl

added_example :
    IsAcceptable (world 100) default_currency one_block (second full_reward)
    × ((e : BlockEntry) × HasEntry no_pool
          (world 100)
          default_currency
          one_block
          0
          (second full_reward)
          (push_block no_pool (world 100) default_currency one_block 0 (second full_reward)).0
          (push_block no_pool (world 100) default_currency one_block 0 (second full_reward)).1
          e)
added_example =
    push_block-added no_pool (world 100) default_currency one_block 0 (second full_reward)
      second_added

-- One unit too much for the miner.
greedy_rejected :
    (push_block no_pool (world 100) default_currency one_block 0 (second (full_reward + 1))).2
    ≡ rejected
unfolding push_block within_window check_multisignature_inputs_diff get_block_reward
    get_penalized_amount pop_transaction put
greedy_rejected = refl

greedy_not_added :
    (push_block no_pool (world 100) default_currency one_block 0 (second (full_reward + 1))).2
    ≢ added
greedy_not_added e = cc (e, greedy_rejected)

unchanged_example :
    (push_block no_pool (world 100) default_currency one_block 0 (second (full_reward + 1))).0
    ≡ record one_block {
      indices =
          (push_block no_pool
            (world 100)
            default_currency
            one_block
            0
            (second (full_reward + 1))).0.indices;
    }
unchanged_example =
    push_block-unchanged no_pool (world 100) default_currency one_block 0 (second (full_reward + 1))
      greedy_not_added

abbrev exact_reward : BlockReward
exact_reward = record { reward = full_reward; emission_change = full_reward }

-- A coinbase transaction of 30000 bytes, where 20480 are allowed.
abbrev with_coinbase : Indices
with_coinbase =
    (push_transaction empty_indices (coinbase 1 full_reward) 61 (miner_index one_block)).0

coinbase_pushed :
    push_transaction empty_indices (coinbase 1 full_reward) 61 (miner_index one_block)
    ≡ (with_coinbase, pushed (0 ∷ []))
unfolding push_transaction check_multisignature_inputs_diff put
coinbase_pushed = refl

big_header : check_header (world 30_000) default_currency one_block (second full_reward) ≡ none
unfolding check_header within_window
big_header = refl

empty-AreFilled : AreFilled (empty_indices.outputs, empty_indices.multisignature_outputs)
empty-AreFilled = (λ a e. cc e, λ a e. cc e)

stays_example :
    (check_cumulative_block_size default_currency 30_000 1 ≡ true
      → judge no_pool (world 30_000) default_currency one_block (second full_reward) 30_000 0 ≡ none
      → push_block no_pool (world 30_000) default_currency one_block 0 (second full_reward)
        ≡ (one_block, 0, rejected))
    × (check_cumulative_block_size default_currency 30_000 1 ≡ false
        → (push_block no_pool (world 30_000) default_currency one_block 0 (second full_reward)
            ≡ (record one_block { indices = with_coinbase }, 0, rejected))
          × (with_coinbase.transaction_map 61 ≡ some (miner_index one_block)))
stays_example =
    push_block-refused no_pool (world 30_000) default_currency one_block 0 (second full_reward)
      with_coinbase (0 ∷ []) 1 empty-AreFilled refl big_header refl coinbase_pushed

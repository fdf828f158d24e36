-- ===== src/Tests/Reorganisation.antt =====
-- A block on top of the chain of one block, and a switch of a chain of two blocks.
use bytecoin.Common.{ℕ, ◌+◌, ◌<◌, ◌≡◌, refl, inl, true, false, [], ◌∷◌, ◌++◌, length, take, arith}
use bytecoin.Common.Map.{put, erase}
use bytecoin.Currency.{default_currency}
use bytecoin.Currency.Retarget.{within_window}
use bytecoin.Currency.Reward.{get_block_reward, get_penalized_amount}
use bytecoin.Transaction.Amounts.{check_multisignature_inputs_diff}
use bytecoin.Storage.Pop.{pop_transaction}
use bytecoin.BlockIndex.{has_block}
use bytecoin.Blocks.{BlockEntry}
use bytecoin.Blocks.PushBlock.{push_block}
use bytecoin.Pool.{Pool}
use bytecoin.Pool.ChainPool.{chain_pool}
use bytecoin.Reorganisation.{Chains, Outcome, returned}
use bytecoin.Reorganisation.Result.{bodies}
use bytecoin.Reorganisation.Soundness.{IsSound, find_tx, add_new_block-IsSound}
use bytecoin.Reorganisation.Switch.{
  HandleBlock, fresh_context, add_new_block, switch_to_alternative_blockchain,
}
use bytecoin.Reorganisation.SwitchLaws.{switch_to_alternative_blockchain_lem}
use bytecoin.Tests.Pool.{all_valid, one_payment, one-IsConsistent}
use bytecoin.Tests.World.{genesis, second, world, one_block, full_reward}

abbrev pub first_entry : BlockEntry
first_entry = record {
  bl = genesis;
  height = 0;
  block_cumulative_size = 100;
  cumulative_difficulty = 1;
  already_generated_coins = 0;
  transactions = [];
}

pub one_block-IsSound : IsSound (world 100) first_entry one_block one_payment
unfolding has_block
one_block-IsSound = record {
  chain = record {
    genesis = refl;
    index = refl;
    distinct = (refl, tt);
    linked = tt;
    kind = (tt, tt);
  };
  pool = one-IsConsistent;
}

abbrev pub chains : Chains Pool
chains = record { main = one_block; pool = one_payment; alternatives = [] }

add_new_block_example :
    let t =
      (add_new_block
        (chain_pool default_currency all_valid (world 100))
        (world 100)
        default_currency
        find_tx
        3
        chains
        (second full_reward)
        fresh_context).0 in
    IsSound (world 100) first_entry t.main t.pool
add_new_block_example =
    add_new_block-IsSound default_currency all_valid (world 100) first_entry 3 chains
      (second full_reward) fresh_context one_block-IsSound

-- The block on top, and an alternative to it.
abbrev second_entry : ℕ → BlockEntry
second_entry nonce = record first_entry {
  bl = record (second full_reward) { nonce = nonce };
  height = 1;
  cumulative_difficulty = 2;
}

abbrev handles_nothing : HandleBlock Pool
handles_nothing s b id bvc = (s, bvc, returned false)

-- The chain of two blocks, the second of them pushed, with an alternative to the second.
abbrev two_chains : Chains Pool
two_chains =
    let r =
      push_block (chain_pool default_currency all_valid (world 100)) (world 100) default_currency
        one_block one_payment (second full_reward) in
    record { main = r.0; pool = r.1; alternatives = (1_002, second_entry 2) ∷ [] }

abbrev switched : Chains Pool × Outcome
switched =
    switch_to_alternative_blockchain (chain_pool default_currency all_valid (world 100)) (world 100)
      default_currency handles_nothing two_chains ((1_002, second_entry 2) ∷ []) true

switched_result : switched.1 ≡ returned true
unfolding switch_to_alternative_blockchain push_block within_window check_multisignature_inputs_diff
    get_block_reward get_penalized_amount pop_transaction put erase
switched_result = refl

switched_above : 1 < length two_chains.main.blocks
unfolding push_block within_window check_multisignature_inputs_diff get_block_reward
    get_penalized_amount pop_transaction put erase
switched_above = omega arith

-- The run returns `true`, so that the conclusion is the equation of the blocks.
switch_example :
    bodies switched.0.main.blocks
    ≡ take 1 (bodies two_chains.main.blocks) ++ (second_entry 2).bl ∷ []
unfolding switch_to_alternative_blockchain push_block within_window check_multisignature_inputs_diff
    get_block_reward get_penalized_amount pop_transaction put erase
switch_example =
    switch_to_alternative_blockchain_lem (chain_pool default_currency all_valid (world 100))
      (world 100) default_currency handles_nothing two_chains 1_002 (second_entry 2) [] true
      (inl refl) switched_above

-- An alternative whose miner takes one unit too much: the old chain is put back.
abbrev greedy_entry : BlockEntry
greedy_entry = record (second_entry 2) { bl = record (second (full_reward + 1)) { nonce = 2 } }

abbrev failed : Chains Pool × Outcome
failed =
    switch_to_alternative_blockchain (chain_pool default_currency all_valid (world 100)) (world 100)
      default_currency handles_nothing two_chains ((1_002, greedy_entry) ∷ []) false

failed_result :
    (failed.1 ≡ returned false) × (bodies failed.0.main.blocks ≡ bodies two_chains.main.blocks)
unfolding switch_to_alternative_blockchain push_block within_window check_multisignature_inputs_diff
    get_block_reward get_penalized_amount pop_transaction put erase
failed_result = (refl, refl)

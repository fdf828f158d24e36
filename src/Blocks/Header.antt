-- ===== src/Blocks/Header.antt =====
-- `blockchain_storage::pushBlock` up to the block's transactions.
use bytecoin.Common.{not, Option, none, some, ◌==◌, if◌then◌else◌, length}
use bytecoin.Currency.{Currency}
use bytecoin.Checkpoints.{is_in_checkpoint_zone, check_block}
use bytecoin.BlockIndex.{has_block, get_tail_id}
use bytecoin.Blocks.{Block, Blockchain, Environment}
use bytecoin.Blocks.Rules.{
  get_difficulty_for_next_block, check_block_timestamp_main, check_block_version,
  check_parent_block_size, prevalidate_miner_transaction,
}

-- How `pushBlock` ends: `true`; `false` with `m_verifivation_failed`; `false` without it, for want of a
-- difficulty; an exception of a call.
pub data BlockResult : Type 0 where
  added : BlockResult
  rejected : BlockResult
  no_difficulty : BlockResult
  exception : BlockResult

-- The tests before the block's transactions are touched; `none` where they all pass.
unfoldable pub check_header : Environment → Currency → Blockchain → Block → Option BlockResult
unfolding has_block check_block_version check_parent_block_size get_tail_id
    check_block_timestamp_main get_difficulty_for_next_block is_in_checkpoint_zone check_block
    prevalidate_miner_transaction
check_header env c s b =
    let hash = env.block_hash b in
    let height = length s.blocks in
    let difficulty = get_difficulty_for_next_block c s.blocks in
    if has_block s.block_index hash
    then some rejected
    else if not (check_block_version c s.upgrade_detector b)
    then some rejected
    else if not (check_parent_block_size env b)
    then some rejected
    else if not (b.prev_id == get_tail_id s.block_index)
    then some rejected
    else if not (check_block_timestamp_main env c s.blocks b)
    then some rejected
    else if difficulty == 0
    then some no_difficulty
    else if not (
        if is_in_checkpoint_zone s.checkpoints height
        then (check_block s.checkpoints height hash).passed
        else env.check_proof_of_work b difficulty)
    then some rejected
    else if not (prevalidate_miner_transaction c b height)
    then some rejected
    else none

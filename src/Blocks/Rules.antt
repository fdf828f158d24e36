-- ===== src/Blocks/Rules.antt =====
-- The consensus rules of src/cryptonote_core/blockchain_storage.cpp that read only the blocks.
use bytecoin.Common.{
  ℕ, ◌+◌, ◌-◌, ◌*◌, ◌/◌, ◌%◌, min, Bool, true, false, not, Option, none, some, List, [], ◌∷◌, map,
  ltb, leb, ◌==◌, if◌then◌else◌, length, get_or, take, drop,
}
use bytecoin.Common.Word.{add64, mul64}
use bytecoin.Common.Sort.{sort}
use bytecoin.Currency.{Currency, max_block_cumulative_size, block_granted_full_reward_zone_v1}
use bytecoin.Currency.Reward.{BlockReward, get_block_reward}
use bytecoin.Currency.Retarget.{next_difficulty}
use bytecoin.Transaction.{TransactionInput}
use bytecoin.Transaction.Amounts.{check_outs_overflow, add_outs}
use bytecoin.Upgrade.{Detector, upgrade_height}
use bytecoin.Blocks.{Block, BlockEntry, Blockchain, Environment}

unfoldable pub median_value : List ℕ → ℕ
median_value [] = 0
median_value (x ∷ []) = x
median_value (x ∷ y ∷ l) =
    let v = sort (x ∷ y ∷ l) in
    let n = length v / 2 in
    if length v % 2 == 0 then add64 (get_or v (n - 1) 0) (get_or v n 0) / 2 else get_or v n 0

unfoldable pub get_block_major_version_for_height : Currency → Detector → ℕ → ℕ
unfolding upgrade_height
get_block_major_version_for_height c d height =
    if ltb (upgrade_height c d) height then d.target_version else 1

-- `none` is `return false`.
unfoldable pub get_backward_blocks_sizes : List BlockEntry → ℕ → ℕ → Option (List ℕ)
get_backward_blocks_sizes blocks from_height count =
    let start_offset = from_height + 1 - min (from_height + 1) count in
    if not (ltb from_height (length blocks))
    then none
    else some (
        take (from_height + 1 - start_offset)
          (drop start_offset (map (λ (e : BlockEntry). e.block_cumulative_size) blocks)))

-- The vector that `get_last_n_blocks_sizes` leaves; its result is ignored by the callers.
unfoldable pub get_last_n_blocks_sizes : List BlockEntry → ℕ → List ℕ
unfolding get_backward_blocks_sizes
get_last_n_blocks_sizes [] count = []
get_last_n_blocks_sizes (b ∷ blocks) count =
    elim (get_backward_blocks_sizes (b ∷ blocks) (length (b ∷ blocks) - 1) count) [
      | none ↦ []
      | some sizes ↦ sizes
    ]

unfoldable pub get_difficulty_for_next_block : Currency → List BlockEntry → ℕ
unfolding next_difficulty
get_difficulty_for_next_block c blocks =
    let count = c.difficulty_window + c.difficulty_lag in
    let offset = length blocks - min (length blocks) count in
    let used = drop (if offset == 0 then 1 else offset) blocks in
    next_difficulty c (map (λ (e : BlockEntry). e.bl.timestamp) used)
      (map (λ (e : BlockEntry). e.cumulative_difficulty) used)

unfoldable pub check_block_timestamp : Currency → List ℕ → Block → Bool
unfolding median_value
check_block_timestamp c timestamps b =
    if ltb (length timestamps) c.timestamp_check_window
    then true
    else if ltb b.timestamp (median_value timestamps)
    then false
    else true

unfoldable pub check_block_timestamp_main : Environment → Currency → List BlockEntry → Block → Bool
unfolding check_block_timestamp
check_block_timestamp_main env c blocks b =
    let offset =
      if leb (length blocks) c.timestamp_check_window
      then 0
      else length blocks - c.timestamp_check_window in
    if ltb (add64 env.now c.block_future_time_limit) b.timestamp
    then false
    else check_block_timestamp c (map (λ (e : BlockEntry). e.bl.timestamp) (drop offset blocks)) b

-- `get_block_height` of cryptonote_format_utils.cpp.
unfoldable pub get_block_height : Block → ℕ
get_block_height b = elim b.miner_tx.vin [
  | [] ↦ 0
  | input ∷ others ↦ elim others [
    | [] ↦ elim input [ TransactionInput.generate height ↦ height | _ ↦ 0 ]
    | _ ∷ _ ↦ 0
  ]
]

unfoldable pub check_block_version : Currency → Detector → Block → Bool
unfolding get_block_height get_block_major_version_for_height
check_block_version c d b =
    b.major_version == get_block_major_version_for_height c d (get_block_height b)

unfoldable pub check_parent_block_size : Environment → Block → Bool
check_parent_block_size env b =
    if 2 == b.major_version
    then elim (env.parent_block_size b) [ none ↦ false | some size ↦ leb size (2 * 1024) ]
    else true

unfoldable pub check_cumulative_block_size : Currency → ℕ → ℕ → Bool
unfolding max_block_cumulative_size
check_cumulative_block_size c cumulative_block_size height =
    leb cumulative_block_size (max_block_cumulative_size c height)

-- The one input of a coinbase transaction: the height that it generates at, if it is of that kind.
unfoldable pub generated_height : List TransactionInput → Option ℕ
generated_height (TransactionInput.generate height ∷ []) = some height
generated_height _ = none

unfoldable pub prevalidate_miner_transaction : Currency → Block → ℕ → Bool
unfolding generated_height check_outs_overflow
prevalidate_miner_transaction c b height = elim (generated_height b.miner_tx.vin) [
  | none ↦ false
  | some at ↦
      if not (at == height)
      then false
      else if not (b.miner_tx.unlock_time == add64 height c.mined_money_unlock_window)
      then false
      else check_outs_overflow b.miner_tx
]

-- The reward and the emission change, `none` for `return false`.
unfoldable pub validate_miner_transaction :
    Currency → Blockchain → Block → ℕ → ℕ → ℕ → ℕ → Option BlockReward
unfolding add_outs get_last_n_blocks_sizes median_value get_block_major_version_for_height
validate_miner_transaction c s b height cumulative_block_size already_generated_coins fee =
    let miner_reward = add_outs 0 b.miner_tx.vout in
    let median = median_value (get_last_n_blocks_sizes s.blocks c.reward_blocks_window) in
    let penalize_fee = ltb 1 (get_block_major_version_for_height c s.upgrade_detector height) in
    elim (get_block_reward c median cumulative_block_size already_generated_coins fee
      penalize_fee) [
        | none ↦ none
        | some r ↦
            if ltb r.reward miner_reward
            then none
            else if ltb miner_reward r.reward
            then none
            else some r
      ]

unfoldable pub update_next_comulative_size_limit : Currency → Blockchain → Blockchain
unfolding get_last_n_blocks_sizes median_value get_block_major_version_for_height
update_next_comulative_size_limit c s =
    let next = get_block_major_version_for_height c s.upgrade_detector (length s.blocks) in
    let zone =
      if next == 1 then block_granted_full_reward_zone_v1 else c.block_granted_full_reward_zone in
    let median = median_value (get_last_n_blocks_sizes s.blocks c.reward_blocks_window) in
    record s { current_block_cumul_sz_limit = mul64 (if leb median zone then zone else median) 2 }

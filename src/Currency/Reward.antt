-- ===== src/Currency/Reward.antt =====
-- `getPenalizedAmount` (src/cryptonote_core/cryptonote_basic_impl.cpp) and
-- `Currency::getBlockReward` (src/cryptonote_core/Currency.cpp).
use bytecoin.Common.{ℕ, ◌/◌, ◌%◌, ◌^◌, max, Bool, Option, none, some, ltb, leb, ◌==◌, if◌then◌else◌}
use bytecoin.Common.Word.{add64, sub64, mul64}
use bytecoin.IntUtil.{mul128, div128_32}
use bytecoin.Currency.{Currency, block_granted_full_reward_zone_v1}

-- The product amount * size * (2 * median - size), divided by the median twice, on 128 bits.
unfoldable pub penalize : ℕ → ℕ → ℕ → ℕ
penalize amount median_size current_block_size =
    let (product_lo, product_hi) =
      mul128 amount (mul64 current_block_size (sub64 (mul64 2 median_size) current_block_size)) in
    let first = div128_32 product_hi product_lo (median_size % 2 ^ 32) in
    let second = div128_32 first.quotient_hi first.quotient_lo (median_size % 2 ^ 32) in
    second.quotient_lo

unfoldable pub get_penalized_amount : ℕ → ℕ → ℕ → ℕ
get_penalized_amount amount median_size current_block_size =
    if amount == 0
    then 0
    else if leb current_block_size median_size
    then amount
    else penalize amount median_size current_block_size

-- The two results of `getBlockReward`. `emission_change` is the bit pattern of the int64_t.
pub record BlockReward : Type 0 where
  pub reward : ℕ
  pub emission_change : ℕ

-- `none` is the `return false` for a block that is too big.
unfoldable pub get_block_reward : Currency → ℕ → ℕ → ℕ → ℕ → Bool → Option BlockReward
get_block_reward c median current_block_size already_generated_coins fee penalize_fee =
    let base_reward = sub64 c.money_supply already_generated_coins / 2 ^ c.emission_speed_factor in
    let zone =
      if penalize_fee
      then c.block_granted_full_reward_zone
      else block_granted_full_reward_zone_v1 in
    let median_size = max median zone in
    let penalized_base_reward = get_penalized_amount base_reward median_size current_block_size in
    let penalized_fee =
      if penalize_fee then get_penalized_amount fee median_size current_block_size else fee in
    if ltb (mul64 2 median_size) current_block_size
    then none
    else some (record {
      reward = add64 penalized_base_reward penalized_fee;
      emission_change = sub64 penalized_base_reward (sub64 fee penalized_fee);
    })

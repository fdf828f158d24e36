-- ===== src/Currency.antt =====
-- src/cryptonote_core/Currency.h, Currency.cpp and the constants of src/cryptonote_config.h: the
-- parameters of the coin and the builder that sets them.
pub mod Reward
pub mod RewardLaws
pub mod Retarget
pub mod RetargetLaws
use bytecoin.Common.{
  ℕ, zero, suc, ◌+◌, ◌-◌, ◌*◌, ◌/◌, ◌%◌, ◌^◌, Bool, true, false, ◌||◌, Option, none, some, ltb, leb,
  if◌then◌else◌,
}
use bytecoin.Common.Word.{add64, mul64}

-- The numeric members of class Currency. The file names and the genesis block are not part of it.
pub record Currency : Type 0 where
  pub max_block_height : ℕ
  pub max_block_blob_size : ℕ
  pub max_tx_size : ℕ
  pub public_address_base58_prefix : ℕ
  pub mined_money_unlock_window : ℕ
  pub timestamp_check_window : ℕ
  pub block_future_time_limit : ℕ
  pub money_supply : ℕ
  pub emission_speed_factor : ℕ
  pub reward_blocks_window : ℕ
  pub block_granted_full_reward_zone : ℕ
  pub miner_tx_blob_reserved_size : ℕ
  pub number_of_decimal_places : ℕ
  pub coin : ℕ
  pub minimum_fee : ℕ
  pub default_dust_threshold : ℕ
  pub difficulty_target : ℕ
  pub difficulty_window : ℕ
  pub difficulty_lag : ℕ
  pub difficulty_cut : ℕ
  pub max_block_size_initial : ℕ
  pub max_block_size_growth_speed_numerator : ℕ
  pub max_block_size_growth_speed_denominator : ℕ
  pub locked_tx_allowed_delta_seconds : ℕ
  pub locked_tx_allowed_delta_blocks : ℕ
  pub mempool_tx_live_time : ℕ
  pub mempool_tx_from_alt_block_live_time : ℕ
  pub upgrade_height : ℕ
  pub upgrade_voting_threshold : ℕ
  pub upgrade_voting_window : ℕ
  pub upgrade_window : ℕ
  pub is_testnet : Bool

abbrev pub block_granted_full_reward_zone_v1 : ℕ
block_granted_full_reward_zone_v1 = 10_000

-- The loop of `numberOfDecimalPlaces`: `coin *= 10`, `places` times, on a uint64_t.
unfoldable pub coin_of_places : ℕ → ℕ
coin_of_places zero = 1
coin_of_places (suc n) = mul64 (coin_of_places n) 10

-- What the constructor of CurrencyBuilder sets.
abbrev pub default_currency : Currency
default_currency = record {
  max_block_height = 500_000_000;
  max_block_blob_size = 500_000_000;
  max_tx_size = 1_000_000_000;
  public_address_base58_prefix = 6;
  mined_money_unlock_window = 10;
  timestamp_check_window = 60;
  block_future_time_limit = 60 * 60 * 2;
  money_supply = 2 ^ 64 - 1;
  emission_speed_factor = 18;
  reward_blocks_window = 100;
  block_granted_full_reward_zone = 20_000;
  miner_tx_blob_reserved_size = 600;
  number_of_decimal_places = 8;
  coin = 100_000_000;
  minimum_fee = 1_000_000;
  default_dust_threshold = 1_000_000;
  difficulty_target = 120;
  difficulty_window = 24 * 60 * 60 / 120;
  difficulty_lag = 15;
  difficulty_cut = 60;
  max_block_size_initial = 20 * 1024;
  max_block_size_growth_speed_numerator = 100 * 1024;
  max_block_size_growth_speed_denominator = 365 * 24 * 60 * 60 / 120;
  locked_tx_allowed_delta_seconds = 120 * 1;
  locked_tx_allowed_delta_blocks = 1;
  mempool_tx_live_time = 60 * 60 * 24;
  mempool_tx_from_alt_block_live_time = 60 * 60 * 24 * 7;
  upgrade_height = 546_602;
  upgrade_voting_threshold = 90;
  upgrade_voting_window = 24 * 60 * 60 / 120;
  upgrade_window = 24 * 60 * 60 / 120;
  is_testnet = false;
}

-- The builder's checked setters; `none` is the std::invalid_argument that they throw.
unfoldable pub set_emission_speed_factor : ℕ → Currency → Option Currency
set_emission_speed_factor val c =
    if leb val 0 || ltb (8 * 8) val then none else some (record c { emission_speed_factor = val })

unfoldable pub set_number_of_decimal_places : ℕ → Currency → Currency
unfolding coin_of_places
set_number_of_decimal_places val c = record c {
  number_of_decimal_places = val;
  coin = coin_of_places val;
}

unfoldable pub set_difficulty_window : ℕ → Currency → Option Currency
set_difficulty_window val c =
    if ltb val 2 then none else some (record c { difficulty_window = val })

unfoldable pub set_upgrade_voting_threshold : ℕ → Currency → Option Currency
set_upgrade_voting_threshold val c =
    if leb val 0 || ltb 100 val then none else some (record c { upgrade_voting_threshold = val })

unfoldable pub set_upgrade_window : ℕ → Currency → Option Currency
set_upgrade_window val c = if leb val 0 then none else some (record c { upgrade_window = val })

unfoldable pub max_upgrade_distance : Currency → ℕ
max_upgrade_distance c = c.upgrade_window

unfoldable pub calculate_upgrade_height : Currency → ℕ → ℕ
calculate_upgrade_height c vote_complete_height = add64 vote_complete_height c.upgrade_window

-- `Currency::maxBlockCumulativeSize`
unfoldable pub max_block_cumulative_size : Currency → ℕ → ℕ
max_block_cumulative_size c height = add64 c.max_block_size_initial (
    mul64 height c.max_block_size_growth_speed_numerator
    / c.max_block_size_growth_speed_denominator)

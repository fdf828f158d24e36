-- ===== src/Tests/Numbers.antt =====
-- The arithmetic of rewards, difficulties and hashes at concrete numbers.
use bytecoin.Common.{
  ℕ, ◌+◌, ◌-◌, ◌*◌, ◌/◌, ◌^◌, ◌≤◌, ◌<◌, ◌≡◌, refl, ◌↔◌, ◌⊎◌, max, true, some, List, [], ◌∷◌, arith,
  length, get_or,
}
use bytecoin.Common.Word.{IsU64, add64}
use bytecoin.Common.Sort.{sort}
use bytecoin.IntUtil.{mul128, div128_32}
use bytecoin.IntUtil.Mul.{mul128_lem}
use bytecoin.IntUtil.Div.{div128_32_lem}
use bytecoin.Difficulty.{HashWords, check_hash, hash_value}
use bytecoin.Difficulty.CheckHash.{check_hash_lem}
use bytecoin.Currency.{default_currency}
use bytecoin.Transaction.Decompose.{
  pieces_total, decompose_amount_into_digits, decompose_amount_into_digits_lem,
}
use bytecoin.Currency.Reward.{BlockReward, penalize, get_penalized_amount, get_block_reward}
use bytecoin.Currency.RewardLaws.{get_penalized_amount_lem, emission_within_supply}
use bytecoin.Currency.Retarget.{next_difficulty, cut_begin, cut_end}
use bytecoin.Currency.RetargetLaws.{IsRetargetable, next_difficulty_lem}

mul128_example :
    let (lo, hi) = mul128 0xffff_ffff_ffff_ffff 0xffff_ffff_0000_0001 in
    (hi * 2 ^ 64 + lo ≡ 0xffff_ffff_ffff_ffff * 0xffff_ffff_0000_0001) × IsU64 lo × IsU64 hi
mul128_example = mul128_lem 0xffff_ffff_ffff_ffff 0xffff_ffff_0000_0001 (omega arith) (omega arith)

div128_example :
    let r = div128_32 77 0xffff_ffff_ffff_ffff 10_007 in
    ((r.quotient_hi * 2 ^ 64 + r.quotient_lo) * 10_007 + r.remainder
      ≡ 77 * 2 ^ 64 + 0xffff_ffff_ffff_ffff)
    × (r.remainder < 10_007)
    × IsU64 r.quotient_hi
    × IsU64 r.quotient_lo
div128_example =
    div128_32_lem 77 0xffff_ffff_ffff_ffff 10_007 (omega arith) (omega arith) (omega arith)
      (omega arith)

-- A hash of which the top word is 3: a quarter of the range is passed only up to 2 ^ 62.
abbrev small_hash : HashWords
small_hash = record {
  word0 = 0xffff_ffff_ffff_ffff;
  word1 = 0xffff_ffff_ffff_ffff;
  word2 = 5;
  word3 = 3;
}

check_hash_example :
    (check_hash small_hash 0x3fff_ffff_ffff_ffff ≡ true)
    ↔ (hash_value small_hash * 0x3fff_ffff_ffff_ffff < 2 ^ 256)
check_hash_example =
    check_hash_lem small_hash 0x3fff_ffff_ffff_ffff (omega arith) (omega arith) (omega arith)
      (omega arith) (omega arith)

penalty_example :
    (30_000 ≤ 20_000 → get_penalized_amount 1_000_000_000 20_000 30_000 ≡ 1_000_000_000)
    × (20_000 < 30_000
        → get_penalized_amount 1_000_000_000 20_000 30_000
          ≡ 1_000_000_000 * (30_000 * (2 * 20_000 - 30_000)) / (20_000 * 20_000))
    × (20_000 < 30_000
        → 0 < 1_000_000_000
        → get_penalized_amount 1_000_000_000 20_000 30_000 < 1_000_000_000)
penalty_example =
    get_penalized_amount_lem 1_000_000_000 20_000 30_000 (omega arith) (omega arith) (omega arith)

abbrev some_reward : BlockReward
some_reward = record { reward = 52_773_697_110_304; emission_change = 52_773_697_110_295 }

reward_computed :
    get_block_reward default_currency 15_000 30_000 1_000_000_000_000_000 9 true ≡ some some_reward
unfolding get_block_reward get_penalized_amount penalize div128_32 mul128
reward_computed = refl

emission_example :
    (add64 1_000_000_000_000_000 some_reward.emission_change ≤ default_currency.money_supply)
    × (add64 1_000_000_000_000_000 some_reward.emission_change + 9
        ≡ 1_000_000_000_000_000 + some_reward.reward)
emission_example =
    emission_within_supply default_currency 15_000 30_000 1_000_000_000_000_000 9 true some_reward
      (omega arith) (omega arith) (omega arith) (omega arith) (omega arith) reward_computed

default-IsRetargetable : IsRetargetable default_currency
default-IsRetargetable = record { window = omega arith; cut = omega arith }

abbrev times : List ℕ
times = 1_000 ∷ 1_130 ∷ 1_100 ∷ 1_400 ∷ []

abbrev works : List ℕ
works = 50 ∷ 90 ∷ 160 ∷ 200 ∷ []

difficulty_example :
    let n = length times in
    let ts = sort times in
    let span =
      max 1 (
        get_or ts (cut_end default_currency n - 1) 0
        - get_or ts (cut_begin default_currency n) 0) in
    let work =
      get_or works (cut_end default_currency n - 1) 0
      - get_or works (cut_begin default_currency n) 0 in
    let d = next_difficulty default_currency times works in
    ((d ≡ 0) × (2 ^ 64 ≤ work * default_currency.difficulty_target + span - 1))
    ⊎ ((work * default_currency.difficulty_target ≤ d * span)
        × (d * span < work * default_currency.difficulty_target + span))
difficulty_example =
    next_difficulty_lem default_currency times works default-IsRetargetable (omega arith)
      (omega arith) (omega arith) refl
      (omega arith, (omega arith, (omega arith, (omega arith, tt))))
      (omega arith, (omega arith, (omega arith, (omega arith, tt))))
      (
        (omega arith, (omega arith, (omega arith, tt))),
        ((omega arith, (omega arith, tt)), ((omega arith, tt), (tt, tt))),
      )

-- The amount of the comment on the function.
digits_example :
    pieces_total (decompose_amount_into_digits 62_387_455_827 1_000_000) ≡ 62_387_455_827
digits_example = decompose_amount_into_digits_lem 62_387_455_827 1_000_000 (omega arith)

-- ===== src/Currency/RewardLaws.antt =====
-- What the block reward and its penalty are, against exact arithmetic.
use bytecoin.Common.{
  ℕ, zero, suc, ◌+◌, ◌-◌, ◌*◌, ◌/◌, ◌%◌, ◌^◌, ◌≤◌, ◌<◌, ◌≡◌, refl, sym, ap, ◌↔◌, max, Bool, true,
  false, none, some, arith, if◌then◌else◌,
}
use bytecoin.Common.Word.{IsU64, IsU32, add64, sub64, mul64}
use bytecoin.IntUtil.{mul128, div128_32}
use bytecoin.IntUtil.Mul.{mul128_lem, mul-le}
use bytecoin.IntUtil.Div.{div128_32_lem}
use bytecoin.Currency.{Currency, block_granted_full_reward_zone_v1}
use bytecoin.Currency.Reward.{penalize, get_penalized_amount, BlockReward, get_block_reward}
use native.Mathlib.Nat.{div-div-eq-div-mul, div-lt_iff_lt-mul, div-eq_of_lt-le, div-le_self}

quotient_unique : (n d q r : ℕ) → q * d + r ≡ n → r < d → n / d ≡ q
quotient_unique n d q r e h = div-eq_of_lt-le {k = q} d (omega arith) (omega arith)

-- The 128-bit quotient as one number.
div128_value :
    (hi lo d : ℕ)
    → IsU64 hi
    → IsU64 lo
    → 0 < d
    → IsU32 d
    → let r = div128_32 hi lo d in r.quotient_hi * 2 ^ 64 + r.quotient_lo ≡ (hi * 2 ^ 64 + lo) / d
div128_value hi lo d hh hl hd hd' =
    let (e, l, _, _) = div128_32_lem hi lo d hh hl hd hd' in
    sym (quotient_unique (hi * 2 ^ 64 + lo) d _ _ e l)

square_gap : (m s t e : ℕ) → s ≡ t + 2 * e → m ≡ t + e → 0 < e → s * t < m * m
square_gap m s t e p q h = rw (p, q) (grind arith)

-- A size s above the median m and up to twice it gives a factor s * (2 * m - s) below m * m.
size_factor-lt : (m s : ℕ) → m < s → s ≤ 2 * m → s * (2 * m - s) < m * m
size_factor-lt m s h k =
    square_gap m s (2 * m - s) (s - m) (omega arith) (omega arith) (omega arith)

median_square : (m : ℕ) → IsU32 m → m * m < 2 ^ 64
median_square m h = omega (arith, mul-le m m 0xffff_ffff 0xffff_ffff (omega arith) (omega arith))

scaled-lt : (a f q : ℕ) → 0 < a → f < q → a * f < a * q
scaled-lt a f q h k = grind arith

-- Dividing by the median twice divides by its square, and the result is below the amount.
pub penalty-lt :
    (amount m s : ℕ)
    → 0 < amount
    → m < s
    → s ≤ 2 * m
    → amount * (s * (2 * m - s)) / (m * m) < amount
penalty-lt amount m s ha h k =
    let f = size_factor-lt m s h k in
    (div-lt_iff_lt-mul {k = m * m} (omega arith)).1
      (omega (arith, scaled-lt amount (s * (2 * m - s)) (m * m) ha f))

twice_divided :
    (hi lo m : ℕ)
    → IsU64 hi
    → IsU64 lo
    → 0 < m
    → IsU32 m
    → (hi * 2 ^ 64 + lo) / (m * m) < 2 ^ 64
    → let first = div128_32 hi lo m in
      (div128_32 first.quotient_hi first.quotient_lo m).quotient_lo ≡ (hi * 2 ^ 64 + lo) / (m * m)
twice_divided hi lo m hh hl hm hm' small =
    let first = div128_32 hi lo m in
    let (_, _, h1, l1) = div128_32_lem hi lo m hh hl hm hm' in
    let v1 = div128_value hi lo m hh hl hm hm' in
    let v2 = div128_value first.quotient_hi first.quotient_lo m h1 l1 hm hm' in
    let v3 = ap (λ (t : ℕ). t / m) v1 in
    omega (arith, v2, v3, div-div-eq-div-mul (hi * 2 ^ 64 + lo) m m)

size_factor :
    (m s : ℕ) → IsU32 m → m < s → s ≤ 2 * m → mul64 s (sub64 (mul64 2 m) s) ≡ s * (2 * m - s)
size_factor m s hm h k =
    let inner : sub64 (mul64 2 m) s ≡ 2 * m - s = omega arith in
    rw inner (omega (arith, size_factor-lt m s h k, median_square m hm))

-- The 128-bit computation is exact: no word of it wraps, and the high word of the quotient is 0.
pub penalize_lem :
    (amount m s : ℕ)
    → 0 < amount
    → IsU64 amount
    → IsU32 m
    → m < s
    → s ≤ 2 * m
    → penalize amount m s ≡ amount * (s * (2 * m - s)) / (m * m)
unfolding penalize div128_32
penalize_lem amount m s ha hu hm h k =
    let f = s * (2 * m - s) in
    let small = size_factor-lt m s h k in
    let (e, l, u) = mul128_lem amount f hu (omega (arith, median_square m hm)) in
    let m32 : m % 2 ^ 32 ≡ m = omega arith in
    rw (size_factor m s hm h k, m32)
      (rw e at (
        twice_divided (mul128 amount f).1 (mul128 amount f).0 m u l (omega arith) hm
          (rw e (omega (arith, penalty-lt amount m s ha h k)))))

-- For an amount of 64 bits, a median of 32 bits and a size of at most twice the median: the amount
-- is kept up to the median, and above it the result is the quotient of amount * size * (2 * median
-- - size) by the squared median, which is less than an amount that is not 0.
pub get_penalized_amount_lem :
    (amount m s : ℕ)
    → IsU64 amount
    → IsU32 m
    → s ≤ 2 * m
    → (s ≤ m → get_penalized_amount amount m s ≡ amount)
      × (m < s → get_penalized_amount amount m s ≡ amount * (s * (2 * m - s)) / (m * m))
      × (m < s → 0 < amount → get_penalized_amount amount m s < amount)
unfolding get_penalized_amount
get_penalized_amount_lem zero m s hu hm k =
    (λ h. refl, λ h. grind arith, λ h a. absurd (omega arith))
get_penalized_amount_lem (suc a) m s hu hm k =
    let exact = penalize_lem (suc a) m s (omega arith) hu hm in
    let less = penalty-lt (suc a) m s (omega arith) in
    (λ h. ground arith, λ h. ground (arith, exact h k), λ h _. ground (arith, exact h k, less h k))

pub get_penalized_amount-le :
    (amount m s : ℕ) → IsU64 amount → IsU32 m → s ≤ 2 * m → get_penalized_amount amount m s ≤ amount
unfolding get_penalized_amount
get_penalized_amount-le zero m s hu hm k = omega arith
get_penalized_amount-le (suc a) m s hu hm k =
    let (_, _, less) = get_penalized_amount_lem (suc a) m s hu hm k in ground (arith, less)

-- With a median and a reward zone of 32 bits, a block is refused a reward exactly when its size is
-- more than twice the greater of the median and the zone of its version.
pub get_block_reward-eq_none :
    (c : Currency) (median size already fee : ℕ) (penalize_fee : Bool)
    → IsU32 median
    → IsU32 c.block_granted_full_reward_zone
    → let zone =
        if penalize_fee
        then c.block_granted_full_reward_zone
        else block_granted_full_reward_zone_v1 in
      (get_block_reward c median size already fee penalize_fee ≡ none)
      ↔ (2 * max median zone < size)
unfolding get_block_reward
get_block_reward-eq_none c median size already fee true hm hz = ground arith
get_block_reward-eq_none c median size already fee false hm hz = ground arith

settled :
    (supply already fee base pb pf : ℕ)
    → supply < 2 ^ 64
    → already ≤ supply
    → fee ≤ already
    → base ≤ supply - already
    → pb ≤ base
    → pf ≤ fee
    → (add64 already (sub64 pb (sub64 fee pf)) ≤ supply)
      × (add64 already (sub64 pb (sub64 fee pf)) + fee ≡ already + add64 pb pf)
settled supply already fee base pb pf h1 h2 h3 h4 h5 h6 = omega arith

base_reward-le :
    (c : Currency) (already : ℕ)
    → IsU64 c.money_supply
    → already ≤ c.money_supply
    → sub64 c.money_supply already / 2 ^ c.emission_speed_factor ≤ c.money_supply - already
base_reward-le c already hs ha =
    omega (arith, div-le_self (sub64 c.money_supply already) (2 ^ c.emission_speed_factor))

-- With a median and a reward zone of 32 bits, a supply of 64 bits, no more coins than the supply
-- and a fee no greater than the coins there are: when a reward is granted, the new total of coins
-- does not pass the supply, and the new total with the fee is the old total with the reward.
pub emission_within_supply :
    (c : Currency) (median size already fee : ℕ) (penalize_fee : Bool) (r : BlockReward)
    → IsU32 median
    → IsU32 c.block_granted_full_reward_zone
    → IsU64 c.money_supply
    → already ≤ c.money_supply
    → fee ≤ already
    → get_block_reward c median size already fee penalize_fee ≡ some r
    → (add64 already r.emission_change ≤ c.money_supply)
      × (add64 already r.emission_change + fee ≡ already + r.reward)
unfolding get_block_reward
emission_within_supply c median size already fee true r hm hz hs ha hf e =
    let m = max median c.block_granted_full_reward_zone in
    let base = sub64 c.money_supply already / 2 ^ c.emission_speed_factor in
    let base_le = base_reward-le c already hs ha in
    let pb = get_penalized_amount base m size in
    let pf = get_penalized_amount fee m size in
    ground (
      arith,
      get_penalized_amount-le base m size (omega arith) (omega arith),
      get_penalized_amount-le fee m size (omega arith) (omega arith),
      settled c.money_supply already fee base pb pf,
    )
emission_within_supply c median size already fee false r hm hz hs ha hf e =
    let m = max median block_granted_full_reward_zone_v1 in
    let base = sub64 c.money_supply already / 2 ^ c.emission_speed_factor in
    let base_le = base_reward-le c already hs ha in
    let pb = get_penalized_amount base m size in
    ground (
      arith,
      get_penalized_amount-le base m size (omega arith) (omega arith),
      settled c.money_supply already fee base pb fee,
    )

-- ===== src/Currency/RetargetLaws.antt =====
-- `nextDifficulty` against exact arithmetic, and the conditions that its code asserts.
use bytecoin.Common.{
  ℕ, zero, suc, ◌+◌, ◌-◌, ◌*◌, ◌/◌, ◌^◌, ◌≤◌, ◌<◌, ◌≡◌, ◌⊎◌, inl, inr, arith, List, [], ◌∷◌, length,
  get_or, ◌==◌, ltb, if◌then◌else◌, length-take, max, All, ◌%◌, ◌||◌, not, dec_lt,
}
use bytecoin.Common.Word.{IsU64, add64, sub64}
use bytecoin.Common.Sort.{sort, sort-IsSorted, length-sort, All-sort, IsSorted, IsSorted-get_or}
use bytecoin.IntUtil.Mul.{mul128_lem}
use bytecoin.Currency.{Currency}
use native.Mathlib.Nat.{mod-lt, div-add-mod'}
use bytecoin.Currency.Retarget.{
  within_window, cut_begin, cut_end, time_span, total_work, work_rate, next_difficulty,
}

-- The assertions of `nextDifficulty` on the parameters.
pub record IsRetargetable (c : Currency) : Type 0 where
  pub window : 2 ≤ c.difficulty_window
  pub cut : 2 * c.difficulty_cut ≤ c.difficulty_window - 2

-- The cut leaves at least two blocks and stays inside the vector.
pub cut_range :
    (c : Currency) (n : ℕ)
    → IsRetargetable c
    → 2 ≤ n
    → n ≤ c.difficulty_window
    → (cut_begin c n + 2 ≤ cut_end c n) × (cut_end c n ≤ n)
unfolding cut_begin cut_end
cut_range c n w h k = ground arith

pub length-within_window :
    (c : Currency) (l : List ℕ) → length (within_window c l) ≤ c.difficulty_window
unfolding within_window
length-within_window c l = ground (arith, length-take c.difficulty_window l)

round_up : (n s : ℕ) → 0 < s → (n ≤ (n + s - 1) / s * s) × ((n + s - 1) / s * s < n + s)
round_up n s h =
    let m : (n + s - 1) % s < s = mod-lt (n + s - 1) h in omega (arith, div-add-mod' (n + s - 1) s)

-- The two outcomes over the words of the product.
rate_of_words :
    (n lo hi span : ℕ)
    → hi * 2 ^ 64 + lo ≡ n
    → lo < 2 ^ 64
    → 0 < span
    → span < 2 ^ 64
    → let rounded = sub64 (add64 lo span) 1 in
      let rate : ℕ = if not (hi == 0) || ltb rounded lo then 0 else rounded / span in
      ((rate ≡ 0) × (2 ^ 64 ≤ n + span - 1))
      ⊎ ((n + span - 1 < 2 ^ 64) × (rate ≡ (n + span - 1) / span))
rate_of_words n lo hi span e h hs hu = elim (dec_lt (n + span - 1) (2 ^ 64)) [
  | yes fits ↦
      let none_high : hi ≡ 0 = omega arith in
      let exact : sub64 (add64 lo span) 1 ≡ n + span - 1 = omega arith in
      inr (fits, ground (arith, none_high, exact))
  | no large ↦ inl (ground arith, omega arith)
]

-- A rate of 0 means that the work in a target interval does not fit 64 bits; every other rate is the
-- work in a target interval, divided by the time span and rounded up.
pub work_rate_lem :
    (work target span : ℕ)
    → IsU64 work
    → IsU64 target
    → 0 < span
    → IsU64 span
    → ((work_rate work target span ≡ 0) × (2 ^ 64 ≤ work * target + span - 1))
      ⊎ ((work * target ≤ work_rate work target span * span)
          × (work_rate work target span * span < work * target + span))
unfolding work_rate
work_rate_lem work target span hw ht hs hu =
    let (e, l, h) = mul128_lem work target hw ht in
    elim (rate_of_words (work * target) _ _ span e l hs hu) [
      | inl p ↦ inl p
      | inr (fits, exact) ↦ inr (rw exact (round_up (work * target) span hs))
    ]

get_or-U64 : (l : List ℕ) (i : ℕ) → All IsU64 l → IsU64 (get_or l i 0)
get_or-U64 [] i a = omega arith
get_or-U64 (x ∷ l) zero a = a.0
get_or-U64 (x ∷ l) (suc i) a = get_or-U64 l i a.1

-- Between the cut ends of a sorted list the difference does not wrap.
cut_difference :
    (c : Currency) (l : List ℕ)
    → IsRetargetable c
    → 2 ≤ length l
    → length l ≤ c.difficulty_window
    → All IsU64 l
    → IsSorted l
    → let first = get_or l (cut_begin c (length l)) 0 in
      let last = get_or l (cut_end c (length l) - 1) 0 in
      (sub64 last first ≡ last - first) × IsU64 (last - first)
cut_difference c l w h k a s =
    let (lo, hi) = cut_range c (length l) w h k in
    let first = get_or l (cut_begin c (length l)) 0 in
    let last = get_or l (cut_end c (length l) - 1) 0 in
    let below : first ≤ last = IsSorted-get_or l _ _ 0 s (omega arith) (omega arith) in
    let u = get_or-U64 l (cut_end c (length l) - 1) a in (omega (arith, below, u), omega (arith, u))

pub time_span_lem :
    (c : Currency) (l : List ℕ)
    → IsRetargetable c
    → 2 ≤ length l
    → length l ≤ c.difficulty_window
    → All IsU64 l
    → IsSorted l
    → let n = length l in
      (time_span c l ≡ max 1 (get_or l (cut_end c n - 1) 0 - get_or l (cut_begin c n) 0))
      × (0 < time_span c l)
      × IsU64 (time_span c l)
unfolding time_span
time_span_lem c l w h k a s = let (e, u) = cut_difference c l w h k a s in ground (arith, e, u)

pub total_work_lem :
    (c : Currency) (l : List ℕ)
    → IsRetargetable c
    → 2 ≤ length l
    → length l ≤ c.difficulty_window
    → All IsU64 l
    → IsSorted l
    → let n = length l in
      (total_work c l ≡ get_or l (cut_end c n - 1) 0 - get_or l (cut_begin c n) 0)
      × IsU64 (total_work c l)
unfolding total_work
total_work_lem c l w h k a s = let (e, u) = cut_difference c l w h k a s in (e, rw e u)

in_window :
    (c : Currency) (timestamps cumulative : List ℕ)
    → 2 ≤ length timestamps
    → length timestamps ≤ c.difficulty_window
    → length cumulative ≡ length timestamps
    → next_difficulty c timestamps cumulative
      ≡ work_rate (total_work c cumulative) c.difficulty_target (time_span c (sort timestamps))
unfolding next_difficulty within_window
in_window c ts cds h k e = ground arith

-- For parameters that satisfy the assertions, at least two and at most a window of 64-bit
-- timestamps, and as many 64-bit cumulative difficulties that do not fall, the next difficulty is
-- the work of the kept blocks in a target interval, divided by the span of their timestamps, at
-- least 1, and rounded up, or it is 0 and the sum to be divided does not fit 64 bits.
pub next_difficulty_lem :
    (c : Currency) (timestamps cumulative : List ℕ)
    → IsRetargetable c
    → IsU64 c.difficulty_target
    → 2 ≤ length timestamps
    → length timestamps ≤ c.difficulty_window
    → length cumulative ≡ length timestamps
    → All IsU64 timestamps
    → All IsU64 cumulative
    → IsSorted cumulative
    → let n = length timestamps in
      let ts = sort timestamps in
      let span = max 1 (get_or ts (cut_end c n - 1) 0 - get_or ts (cut_begin c n) 0) in
      let work = get_or cumulative (cut_end c n - 1) 0 - get_or cumulative (cut_begin c n) 0 in
      let d = next_difficulty c timestamps cumulative in
      ((d ≡ 0) × (2 ^ 64 ≤ work * c.difficulty_target + span - 1))
      ⊎ ((work * c.difficulty_target ≤ d * span) × (d * span < work * c.difficulty_target + span))
next_difficulty_lem c ts cds w ht h k e at ac sc =
    let n = length-sort ts in
    let (span, pos, su) =
      time_span_lem c (sort ts) w (omega (arith, n)) (omega (arith, n)) (All-sort IsU64 ts at)
        (sort-IsSorted ts) in
    let (work, wu) = total_work_lem c cds w (omega arith) (omega arith) ac sc in
    let span' = rw n at span in
    let work' = rw e at work in
    let r =
      work_rate_lem (total_work c cds) c.difficulty_target (time_span c (sort ts)) wu ht pos su in
    rw (in_window c ts cds h k e, work', span') (rw (work', span') at r)

-- ===== src/TreeHash/Leaves.antt =====
-- The bit trick of `tree_hash` against what it computes.
use bytecoin.Common.{
  subst, ◌-◌, ℕ, zero, suc, ◌+◌, ◌*◌, ◌≤◌, ◌<◌, ◌≡◌, refl, sym, Bool, true, ◌&&◌, arith, ltb, ◌==◌,
  if◌then◌else◌, ==_iff, and-eq_true, Bool-cases, inl, inr, ltb→lt, ◌^◌,
}
use native.Mathlib.Nat.{two-pow-succ}
use bytecoin.Common.Bits.{twice_multiple}
use bytecoin.TreeHash.{leaf_count}

-- The greatest power of two below `count`, from `x` on.
unfoldable pub power_from : ℕ → ℕ → ℕ → ℕ
power_from zero x count = x
power_from (suc fuel) x count =
    let rest = power_from fuel (2 * x) count in if ltb (2 * x) count then rest else x

abbrev pub power_below : ℕ → ℕ
power_below count = power_from 10 1 count

-- Every count from 3 to `2 + n` agrees.
unfoldable agree : ℕ → Bool
unfolding leaf_count power_from
agree zero = true
agree (suc n) = (leaf_count (3 + n) == power_below (3 + n)) && agree n

all_agree : agree 510 ≡ true
unfolding agree
all_agree = refl

agrees : (n k : ℕ) → agree n ≡ true → k < n → leaf_count (3 + k) ≡ power_below (3 + k)
unfolding agree
agrees zero k e l = absurd (omega arith)
agrees (suc n) k e l =
    let (here, rest) = and-eq_true (leaf_count (3 + n) == power_below (3 + n)) (agree n) e in
    elim (native.Mathlib.Decide.ℕ_discrete k n) [
      | yes same ↦ rw same ((==_iff (leaf_count (3 + n)) (power_below (3 + n))).0 here)
      | no differ ↦ agrees n k rest (omega arith)
    ]

-- A power of two below the count, whose double is not.
abbrev pub IsHalf : ℕ → ℕ → Type 0
IsHalf count r = (r < count) × (count ≤ 2 * r) × ((k : ℕ) × (r ≡ 2 ^ k))

power_from-IsHalf :
    (fuel x count k : ℕ)
    → x ≡ 2 ^ k
    → x < count
    → count ≤ x * 2 ^ (suc fuel)
    → IsHalf count (power_from fuel x count)
unfolding power_from
power_from-IsHalf zero x count k e l m = (l, omega arith, (k, e))
power_from-IsHalf (suc fuel) x count k e l m = elim (Bool-cases (ltb (2 * x) count)) [
  | inl t ↦
      let double : 2 * x ≡ 2 ^ suc k = omega (arith, two-pow-succ k) in
      let room : count ≤ 2 * x * 2 ^ suc fuel = omega (arith, twice_multiple x (suc fuel)) in
      rw t (power_from-IsHalf fuel (2 * x) count (suc k) double (ltb→lt (2 * x) count t) room)
  | inr t ↦ rw t (l, ground arith, (k, e))
]

-- For 3 to 512 hashes the bit trick gives the power of two below their number whose double is not below.
pub leaf_count_lem : (count : ℕ) → 2 < count → count ≤ 512 → IsHalf count (leaf_count count)
leaf_count_lem count l m =
    let whole : 3 + (count - 3) ≡ count = omega arith in
    let same = agrees 510 (count - 3) all_agree (omega arith) in
    let here : leaf_count count ≡ power_below count =
      subst (λ n. leaf_count n ≡ power_below n) whole same in
    subst (IsHalf count) (sym here)
      (power_from-IsHalf 10 1 count 0 refl (omega arith) (omega arith))

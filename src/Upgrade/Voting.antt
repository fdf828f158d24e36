-- ===== src/Upgrade/Voting.antt =====
-- The vote at a height depends on the blocks up to it, and the search finds the first height.
use bytecoin.Common.{
  ℕ, zero, suc, ◌+◌, ◌-◌, ◌^◌, ◌≤◌, ◌<◌, ◌≡◌, refl, ◌⊎◌, inl, inr, true, false, List, [], ◌∷◌, ◌++◌,
  arith, ltb, Bool-cases, length, get_elem?, ltb→lt,
}
use bytecoin.Common.Word.{sub64}
use bytecoin.Currency.{Currency, max_upgrade_distance}
use bytecoin.Upgrade.{
  Chain, undef_height, count_votes, is_voting_complete, first_complete, find_voting_complete_height,
}

get_elem?-append {ℓ} :
    {A : Type ℓ} (xs ys : List A) (i : ℕ) → i < length xs → get_elem? (xs ++ ys) i ≡ get_elem? xs i
get_elem?-append [] ys i h = absurd (omega arith)
get_elem?-append (x ∷ xs) ys zero h = refl
get_elem?-append (x ∷ xs) ys (suc i) h = get_elem?-append xs ys i (omega arith)

count_votes-append :
    (chain later : Chain) (target i n : ℕ)
    → i + n ≤ length chain
    → count_votes (chain ++ later) target i n ≡ count_votes chain target i n
unfolding count_votes
count_votes-append chain later target i zero h = refl
count_votes-append chain later target i (suc n) h = rw (
  get_elem?-append chain later i (omega arith),
  count_votes-append chain later target (suc i) n (omega arith),
)

-- Later blocks do not change whether the voting was complete at a height.
pub is_voting_complete-append :
    (c : Currency) (chain later : Chain) (target height : ℕ)
    → c.upgrade_voting_window < 2 ^ 64
    → height < length chain
    → is_voting_complete c (chain ++ later) target height ≡ is_voting_complete c chain target height
unfolding is_voting_complete
is_voting_complete-append c chain later target height w h =
    elim (Bool-cases (ltb height (sub64 c.upgrade_voting_window 1))) [
      | inl e ↦ rw e
      | inr e ↦ rw (
          count_votes-append chain later target (height + 1 - c.upgrade_voting_window)
            c.upgrade_voting_window (ground arith))
    ]

-- `r` is the first height from `i` on and below `j` where the voting is complete, or undefined.
abbrev pub IsFirstIn : Currency → Chain → ℕ → ℕ → ℕ → ℕ → Type 0
IsFirstIn c chain target i j r =
    ((r ≡ undef_height) × ((h : ℕ) → i ≤ h → h < j → is_voting_complete c chain target h ≡ false))
    ⊎ ((i ≤ r)
        × (r < j)
        × (is_voting_complete c chain target r ≡ true)
        × ((h : ℕ) → i ≤ h → h < r → is_voting_complete c chain target h ≡ false))

extend :
    (c : Currency) (chain : Chain) (target i j : ℕ)
    → is_voting_complete c chain target i ≡ false
    → ((h : ℕ) → suc i ≤ h → h < j → is_voting_complete c chain target h ≡ false)
    → (h : ℕ) → i ≤ h
    → h < j
    → is_voting_complete c chain target h ≡ false
extend c chain target i j e f h l m = elim (native.Mathlib.Decide.ℕ_discrete i h) [
  | yes same ↦ rw (← same) e
  | no differ ↦ f h (omega arith) m
]

first_complete_lem :
    (c : Currency) (chain : Chain) (target i n : ℕ)
    → IsFirstIn c chain target i (i + n) (first_complete c chain target i n)
unfolding first_complete
first_complete_lem c chain target i zero = inl (refl, λ h l m. absurd (omega arith))
first_complete_lem c chain target i (suc n) =
    elim (Bool-cases (is_voting_complete c chain target i)) [
      | inl e ↦ rw e (inr (omega arith, omega arith, e, λ h l m. absurd (omega arith)))
      | inr e ↦ rw e (elim (first_complete_lem c chain target (suc i) n) [
        | inl (u, f) ↦
            inl (
              u,
              λ h l m. extend c chain target i (i + suc n) e (λ k p q. f k p (omega arith)) h l m,
            )
        | inr (l, m, t, f) ↦ inr (
          omega arith,
          omega arith,
          t,
          extend c chain target i (first_complete c chain target (suc i) n) e f,
        )
      ])
    ]

first_complete-upto :
    (c : Currency) (chain : Chain) (target i j n : ℕ)
    → i + n ≡ j
    → IsFirstIn c chain target i j (first_complete c chain target i n)
first_complete-upto c chain target i j n e = rw (← e) (first_complete_lem c chain target i n)

-- The search finds the first height, of those at most the upgrade window below the probable height
-- and up to it, where the voting is complete, and is undefined when there is none.
pub find_voting_complete_height_lem :
    (c : Currency) (chain : Chain) (target probable : ℕ)
    → IsFirstIn c chain target
        (probable - max_upgrade_distance c)
        (probable + 1)
        (find_voting_complete_height c chain target probable)
unfolding find_voting_complete_height
find_voting_complete_height_lem c chain target probable =
    let d = max_upgrade_distance c in
    elim (Bool-cases (ltb d probable)) [
      | inl e ↦ rw e (
          let l = ltb→lt d probable e in
          first_complete-upto c chain target (probable - d) (probable + 1)
            (probable + 1 - (probable - d)) (omega arith))
      | inr e ↦ rw e (
          let z : probable - d ≡ 0 = ground arith in
          rw z
            (first_complete-upto c chain target 0 (probable + 1) (probable + 1 - 0) (omega arith)))
    ]

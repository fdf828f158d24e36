-- ===== src/Checkpoints/Laws.antt =====
-- What the checkpoints guarantee: hashes that are fixed, and no reorganisation below them.
use bytecoin.Common.{
  ℕ, zero, suc, ltb→lt, lt→ltb, ◌≤◌, ◌<◌, ◌≡◌, refl, sym, ◌∙◌, ◌≢◌, ◌↔◌, inl, inr, true, false,
  none, some, [], ◌∷◌, arith, ltb, ◌==◌, if◌then◌else◌, Bool-cases, Option-cases, All, ==_self,
}
use bytecoin.Transaction.{Hash}
use bytecoin.Checkpoints.{
  Points, find_point, insert_point, add_checkpoint, last_height, is_in_checkpoint_zone, check_block,
  checkpoint_before, is_alternative_block_allowed,
}

abbrev pub Above : ℕ → Points → Type 0
Above h = All (λ p. h < p.0)

-- The heights ascend strictly, as a std::map keeps them.
abbrev pub IsAscending : Points → Type 0
IsAscending [] = Unit
IsAscending ((h, _) ∷ points) = Above h points × IsAscending points

Above-insert :
    (b : ℕ) (points : Points) (h : ℕ) (id : Hash)
    → b < h
    → Above b points
    → Above b (insert_point points h id)
unfolding insert_point
Above-insert b [] h id l a = (l, tt)
Above-insert b ((k, i) ∷ points) h id l (m, a) = elim (Bool-cases (ltb h k)) [
  | inl e ↦ rw e (l, (m, a))
  | inr e ↦ rw e (m, Above-insert b points h id l a)
]

Above-weaken : (a b : ℕ) (points : Points) → a < b → Above b points → Above a points
Above-weaken a b [] l h = tt
Above-weaken a b (p ∷ points) l (m, h) = (omega arith, Above-weaken a b points l h)

insert_point-IsAscending :
    (points : Points) (h : ℕ) (id : Hash)
    → IsAscending points
    → find_point points h ≡ none
    → IsAscending (insert_point points h id)
unfolding insert_point find_point
insert_point-IsAscending [] h id s n = (tt, tt)
insert_point-IsAscending ((k, i) ∷ points) h id (a, s) n = elim (Bool-cases (ltb h k)) [
  | inl e ↦ rw e ((ground arith, Above-weaken h k points (ground arith) a), (a, s))
  | inr e ↦ rw e (
    Above-insert k points h id (ground arith) a,
    insert_point-IsAscending points h id s (ground arith),
  )
]

find_point-insert :
    (points : Points) (h : ℕ) (id : Hash) (j : ℕ)
    → find_point points h ≡ none
    → find_point (insert_point points h id) j ≡ (if h == j then some id else find_point points j)
unfolding insert_point find_point
find_point-insert [] h id j n = refl
find_point-insert ((k, i) ∷ points) h id j n = ground (arith, find_point-insert points h id j)

check_block-passes :
    (points : Points) (h : ℕ) (id x : Hash)
    → find_point points h ≡ some id
    → ((check_block points h x).passed ≡ true) ↔ (x ≡ id)
unfolding check_block
check_block-passes points h id x e = rw (e, check_block) (ground arith)

-- A checkpoint that is added to points in ascending order keeps the order of the heights, is the
-- one found at its height, and leaves what is found at every other height; from then on the block
-- at that height passes exactly when it has the given hash.
pub add_checkpoint_lem :
    (points points' : Points) (h : ℕ) (id : Hash)
    → IsAscending points
    → add_checkpoint points h (some id) ≡ some points'
    → IsAscending points'
      × ((j : ℕ) → find_point points' j ≡ (if h == j then some id else find_point points j))
      × ((x : Hash) → ((check_block points' h x).passed ≡ true) ↔ (x ≡ id))
unfolding add_checkpoint
add_checkpoint_lem points points' h id s e = elim (Option-cases (find_point points h)) [
  | inr (old, n) ↦ let e' = rw (n, add_checkpoint) at e in cc e'
  | inl n ↦
      let e' = rw (n, add_checkpoint) at e in
      let same : insert_point points h id ≡ points' = cc e' in
      let found = λ (j : ℕ). find_point-insert points h id j n in
      rw (← same) (
        insert_point-IsAscending points h id s n,
        found,
        λ x. check_block-passes (insert_point points h id) h id x (found h ∙ (rw (==_self h))),
      )
]

All-weaken {ℓ κ} :
    (P : ℕ → Type ℓ) (Q : ℕ → Type κ)
    → ((n : ℕ) → P n → Q n)
    → (points : Points) → All (λ p. P p.0) points
    → All (λ p. Q p.0) points
All-weaken P Q f [] a = tt
All-weaken P Q f (p ∷ points) (h, a) = (f p.0 h, All-weaken P Q f points a)

before-none :
    (points : Points) (top : ℕ)
    → IsAscending points
    → checkpoint_before points top ≡ none
    → All (λ p. top < p.0) points
unfolding checkpoint_before
before-none [] top s e = tt
before-none ((h, i) ∷ points) top (a, s) e = elim (Bool-cases (ltb top h)) [
  | inl t ↦
      let l = ltb→lt top h t in
      (l, All-weaken (λ n. h < n) (λ n. top < n) (λ n q. omega arith) points a)
  | inr f ↦ elim (Option-cases (checkpoint_before points top)) [
    | inl n ↦ let e' = rw n at (rw f at e) in cc e'
    | inr (k, n) ↦ let e' = rw n at (rw f at e) in cc e'
  ]
]

-- The checkpoint before a height: it is one of the points, and the last that the height reaches.
before-some :
    (points : Points) (top k : ℕ)
    → IsAscending points
    → checkpoint_before points top ≡ some k
    → (k ≤ top)
      × All (λ p. p.0 ≤ top → p.0 ≤ k) points
      × ((Q : ℕ → Type 0) → All (λ p. Q p.0) points → Q k)
unfolding checkpoint_before
before-some [] top k s e = cc
before-some ((h, i) ∷ points) top k (a, s) e = elim (Bool-cases (ltb top h)) [
  | inl t ↦ let e' = rw t at e in cc e'
  | inr f ↦ elim (Option-cases (checkpoint_before points top)) [
    | inl n ↦
        let e' = rw n at (rw f at e) in
        let same : h ≡ k = cc e' in
        let above = before-none points top s n in
        (
          ground arith,
          (
            λ l. omega arith,
            All-weaken (λ n. top < n) (λ n. n ≤ top → n ≤ k) (λ n q l. omega arith) points above,
          ),
          λ Q q. rw same at q.0,
        )
    | inr (j, n) ↦
        let e' = rw n at (rw f at e) in
        let same : j ≡ k = cc e' in
        let (le, all, mem) = before-some points top j s n in
        let over : h < j = mem (λ n. h < n) a in
        (
          ground arith,
          (
            λ l. ground arith,
            All-weaken (λ n. n ≤ top → n ≤ j) (λ n. n ≤ top → n ≤ k) (λ n q l. rw same at q l)
                points all,
          ),
          λ Q q. rw same at mem Q q.1,
        )
  ]
]

-- With points in ascending order, an alternative block is allowed exactly above every checkpoint
-- that the blockchain has reached, and never at height 0.
pub is_alternative_block_allowed_lem :
    (points : Points) (blockchain_height block_height : ℕ)
    → IsAscending points
    → (is_alternative_block_allowed points blockchain_height block_height ≡ true)
      ↔ ((block_height ≢ 0) × All (λ p. p.0 ≤ blockchain_height → p.0 < block_height) points)
unfolding is_alternative_block_allowed
is_alternative_block_allowed_lem points top zero s = (λ e. cc, λ (n, _). absurd (n refl))
is_alternative_block_allowed_lem points top (suc h) s =
    elim (Option-cases (checkpoint_before points top)) [
      | inl n ↦ (
        λ _. (
          λ z. absurd (omega arith),
          All-weaken (λ n. top < n) (λ n. n ≤ top → n < suc h) (λ n q l. absurd (omega arith))
              points (before-none points top s n),
        ),
        λ _. rw (n, is_alternative_block_allowed) (ground arith),
      )
      | inr (k, n) ↦
          let (le, all, mem) = before-some points top k s n in
          let allowed : is_alternative_block_allowed points top (suc h) ≡ ltb k (suc h) =
            rw (n, is_alternative_block_allowed) (ground arith) in
          (
            λ e.
                let l = ltb→lt k (suc h) (sym allowed ∙ e) in
                (
                  λ z. absurd (omega arith),
                  All-weaken (λ n. n ≤ top → n ≤ k) (λ n. n ≤ top → n < suc h)
                      (λ n q r. omega (arith, q r)) points all,
                ),
            λ (_, a). allowed ∙ lt→ltb k (suc h) (mem (λ n. n ≤ top → n < suc h) a le),
          )
    ]

last_height_lem :
    (p : ℕ × Hash) (points : Points)
    → IsAscending (p ∷ points)
    → All (λ q. q.0 ≤ last_height (p ∷ points)) (p ∷ points)
      × ((Q : ℕ → Type 0) → All (λ q. Q q.0) (p ∷ points) → Q (last_height (p ∷ points)))
unfolding last_height
last_height_lem (h, i) [] s = ((omega arith, tt), λ Q q. q.0)
last_height_lem (h, i) (p ∷ points) (a, s) =
    let (le, mem) = last_height_lem p points s in
    let over : h < last_height (p ∷ points) = mem (λ n. h < n) a in
    ((omega arith, le), λ Q q. mem Q q.1)

-- With points in ascending order, a height is outside the checkpoint zone exactly when it is above
-- every checkpoint.
pub is_in_checkpoint_zone_lem :
    (points : Points) (h : ℕ)
    → IsAscending points
    → (is_in_checkpoint_zone points h ≡ false) ↔ All (λ p. p.0 < h) points
unfolding is_in_checkpoint_zone
is_in_checkpoint_zone_lem [] h s = (λ _. tt, λ _. refl)
is_in_checkpoint_zone_lem (p ∷ points) h s =
    let (le, mem) = last_height_lem p points s in
    (
      λ e.
          All-weaken (λ n. n ≤ last_height (p ∷ points)) (λ n. n < h) (λ n q. ground arith)
            (p ∷ points) le,
      λ a. let l = mem (λ n. n < h) a in ground arith,
    )

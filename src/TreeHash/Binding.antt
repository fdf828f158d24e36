-- ===== src/TreeHash/Binding.antt =====
-- A branch of src/crypto/tree-hash.c binds its leaf.
use bytecoin.Common.{
  ℕ, zero, suc, ◌≡◌, ◌≢◌, ◌⊎◌, inl, inr, Bool, List, if◌then◌else◌, get_or, Bool-cases,
}
use bytecoin.Transaction.{Hash}
use bytecoin.TreeHash.Branch.{tree_hash_from_branch}

module _ (fast : Hash → Hash → Hash) where
  -- Two different pairs with one hash.
  abbrev pub Collides : Type 0
  Collides =
      (a : Hash) × (b : Hash) × (s : Hash) × (t : Hash) × (fast a b ≡ fast s t)
      × ((a ≢ s) ⊎ (b ≢ t))

  same_or_collides : (a b s t : Hash) → fast a b ≡ fast s t → ((a ≡ s) × (b ≡ t)) ⊎ Collides
  same_or_collides a b s t e = elim (native.Mathlib.Decide.ℕ_discrete a s) [
    | no n ↦ inr (a, b, s, t, e, inl n)
    | yes p ↦ elim (native.Mathlib.Decide.ℕ_discrete b t) [
      | no n ↦ inr (a, b, s, t, e, inr n)
      | yes q ↦ inl (p, q)
    ]
  ]

  -- Where two branches of the same depth and with the same path lead from two leaves to one root,
  -- the leaves are equal or there are two different pairs with one hash.
  pub tree_hash_from_branch-binds :
      (xs ys : List Hash) (depth : ℕ) (leaf other : Hash) (on_right : ℕ → Bool)
      → tree_hash_from_branch fast xs depth leaf on_right
        ≡ tree_hash_from_branch fast ys depth other on_right
      → (leaf ≡ other) ⊎ Collides
  unfolding tree_hash_from_branch
  tree_hash_from_branch-binds xs ys zero leaf other on_right e = inl e
  tree_hash_from_branch-binds xs ys (suc depth) leaf other on_right e =
      let a = get_or xs depth 0 in
      let b = get_or ys depth 0 in
      elim (tree_hash_from_branch-binds xs ys depth
        (if on_right depth then fast a leaf else fast leaf a)
        (if on_right depth then fast b other else fast other b) on_right e) [
          | inr found ↦ inr found
          | inl same ↦ elim (Bool-cases (on_right depth)) [
            | inl r ↦ elim (same_or_collides a leaf b other (rw r at same)) [
              | inl (_, q) ↦ inl q
              | inr found ↦ inr found
            ]
            | inr r ↦ elim (same_or_collides leaf a other b (rw r at same)) [
              | inl (q, _) ↦ inl q
              | inr found ↦ inr found
            ]
          ]
        ]

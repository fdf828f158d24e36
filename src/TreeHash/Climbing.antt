-- ===== src/TreeHash/Climbing.antt =====
-- The loop of `tree_branch` against `tree_hash_from_branch`, over the leaves of a full tree.
use bytecoin.Common.{
  ℕ, zero, suc, ◌-◌, ◌/◌, ◌^◌, ◌≤◌, ◌<◌, ◌≡◌, refl, ap, ◌∙◌, subst, Bool, false, List, [], ◌∷◌,
  ◌++◌, length, get_or, take, drop, arith, length-append,
}
use native.Mathlib.Nat.{two-pow-succ}
use bytecoin.Transaction.{Hash}
use bytecoin.TreeHash.{pairs}
use bytecoin.TreeHash.Branch.{branch_loop, tree_hash_from_branch}
use bytecoin.TreeHash.Merkle.{merkle, take_all, positive, merkle-pairs, length-pairs}

get_or-below : (xs ys : List Hash) (i : ℕ) → i < length xs → get_or (xs ++ ys) i 0 ≡ get_or xs i 0
get_or-below [] ys i h = absurd (omega arith)
get_or-below (x ∷ xs) ys zero h = refl
get_or-below (x ∷ xs) ys (suc i) h = get_or-below xs ys i (omega arith)

get_or-last : (xs : List Hash) (y : Hash) → get_or (xs ++ y ∷ []) (length xs) 0 ≡ y
get_or-last [] y = refl
get_or-last (x ∷ xs) y = get_or-last xs y

abbrev pub no_path : ℕ → Bool
no_path i = false

module _ (fast : Hash → Hash → Hash) where
  pub length-branch_loop :
      (depth cnt : ℕ) (ints : List Hash) → length (branch_loop fast depth cnt ints) ≡ depth
  unfolding branch_loop
  length-branch_loop zero cnt ints = refl
  length-branch_loop (suc depth) cnt ints =
      let rest = take (cnt / 2 - 1) (pairs fast (drop 1 ints)) in
      length-append (branch_loop fast depth (cnt / 2) rest) (get_or ints 0 0 ∷ [])
      ∙ omega (arith, length-branch_loop depth (cnt / 2) rest)

  from_branch-append :
      (depth : ℕ) (xs ys : List Hash) (leaf : Hash)
      → depth ≤ length xs
      → tree_hash_from_branch fast (xs ++ ys) depth leaf no_path
        ≡ tree_hash_from_branch fast xs depth leaf no_path
  unfolding tree_hash_from_branch
  from_branch-append zero xs ys leaf h = refl
  from_branch-append (suc depth) xs ys leaf h =
      rw (get_or-below xs ys depth (omega arith))
        (from_branch-append depth xs ys (fast leaf (get_or xs depth 0)) (omega arith))

  -- One round, where `ints` has as many elements as are read.
  branch_round :
      (depth : ℕ) (y : Hash) (l : List Hash)
      → length (pairs fast l) < 2 ^ depth
      → branch_loop fast (suc depth) (2 ^ suc depth) (y ∷ l)
        ≡ branch_loop fast depth (2 ^ depth) (pairs fast l) ++ y ∷ []
  unfolding branch_loop
  branch_round depth y l h =
      let half : 2 ^ suc depth / 2 ≡ 2 ^ depth = omega (arith, two-pow-succ depth) in
      let whole : take (2 ^ depth - 1) (pairs fast l) ≡ pairs fast l =
        take_all (2 ^ depth - 1) (pairs fast l) (omega arith) in
      rw (half, whole) refl

  pub branch_loop_lem :
      (depth : ℕ) (l : List Hash)
      → length l ≡ 2 ^ depth
      → tree_hash_from_branch fast
          (branch_loop fast depth (2 ^ depth) (drop 1 l))
          depth
          (get_or l 0 0)
          no_path
        ≡ merkle fast depth l
  unfolding tree_hash_from_branch merkle pairs
  branch_loop_lem zero l e = refl
  branch_loop_lem (suc depth) [] e = absurd (omega (arith, positive (suc depth)))
  branch_loop_lem (suc depth) (x ∷ []) e =
      absurd (omega (arith, two-pow-succ depth, positive depth))
  branch_loop_lem (suc depth) (x ∷ y ∷ l) e =
      let double = two-pow-succ depth in
      let paired : length (pairs fast (x ∷ y ∷ l)) ≡ 2 ^ depth =
        length-pairs fast (2 ^ depth) (x ∷ y ∷ l) (omega (arith, double)) in
      let b = branch_loop fast depth (2 ^ depth) (pairs fast l) in
      let size = length-branch_loop depth (2 ^ depth) (pairs fast l) in
      let last : get_or (b ++ y ∷ []) depth 0 ≡ y =
        subst (λ n. get_or (b ++ y ∷ []) n 0 ≡ y) size (get_or-last b y) in
      ap (λ (r : List Hash). tree_hash_from_branch fast r (suc depth) x no_path)
        (branch_round depth y l (omega (arith, paired)))
      ∙ ap (λ h. tree_hash_from_branch fast (b ++ y ∷ []) depth (fast x h) no_path) last
      ∙ from_branch-append depth b (y ∷ []) (fast x y) (omega (arith, size))
      ∙ branch_loop_lem depth (pairs fast (x ∷ y ∷ l)) paired
      ∙ merkle-pairs fast depth (x ∷ y ∷ l) e

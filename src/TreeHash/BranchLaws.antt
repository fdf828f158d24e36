-- ===== src/TreeHash/BranchLaws.antt =====
-- The branch of the first leaf leads to the root of `tree_hash`.
use bytecoin.Common.{
  ℕ, zero, suc, ◌+◌, ◌-◌, ◌*◌, ◌^◌, ◌≤◌, ◌<◌, ◌≡◌, refl, sym, ap, ◌∙◌, subst, some, List, [], ◌∷◌,
  ◌++◌, length, get_or, take, drop, arith, append-nil,
}
use native.Mathlib.Nat.{two-pow-succ}
use bytecoin.Transaction.{Hash}
use bytecoin.TreeHash.{pairs, first_pass, tree_hash}
use bytecoin.TreeHash.Branch.{tree_depth, branch_loop, tree_branch, tree_hash_from_branch}
use bytecoin.TreeHash.Climbing.{no_path, length-branch_loop, branch_loop_lem}
use bytecoin.TreeHash.Depth.{IsDepth, size_loop_lem, depth_unique, tree_depth_lem}
use bytecoin.TreeHash.Merkle.{
  merkle, take_all, positive, merkle-pairs, length-first_pass, tree_hash_lem,
}

drop_all : (n : ℕ) (l : List Hash) → length l ≤ n → drop n l ≡ []
drop_all zero [] h = refl
drop_all zero (x ∷ l) h = absurd (omega arith)
drop_all (suc n) [] h = refl
drop_all (suc n) (x ∷ l) h = drop_all n l (omega arith)

module _ (fast : Hash → Hash → Hash) where
  first_leaf :
      (k : ℕ) (x : Hash) (l r : List Hash)
      → 0 < k
      → (take (k - 1) l ++ r ≡ drop 1 (take k (x ∷ l) ++ r))
        × (get_or (take k (x ∷ l) ++ r) 0 0 ≡ x)
  first_leaf zero x l r h = absurd (omega arith)
  first_leaf (suc k) x l r h =
      (ap (λ n. take n l ++ r) (let e : suc k - 1 ≡ k = omega arith in e), refl)

  -- The branch of the first hash leads to the root of the tree over the leaves of the first pass.
  pub tree_branch-merkle :
      (x : Hash) (l : List Hash)
      → length (x ∷ l) < 2 ^ 64
      → (d : ℕ) × IsDepth (length (x ∷ l)) d
        × ((branch : List Hash) × (tree_branch fast (x ∷ l) ≡ some branch)
            × (length branch ≡ d)
            × (tree_hash_from_branch fast branch d x no_path
                ≡ merkle fast d (first_pass fast (2 ^ d) (x ∷ l))))
  unfolding tree_branch first_pass
  tree_branch-merkle x l h =
      let hashes = x ∷ l in
      let (d, same, (low, high)) =
        size_loop_lem 6 (length hashes) 0 (omega arith) (omega arith) (omega arith) in
      let k = 2 * 2 ^ d - length hashes in
      let rest = pairs fast (drop k hashes) in
      let (ints, leaf) = first_leaf k x l rest (omega (arith, two-pow-succ d)) in
      let leaves = first_pass fast (2 ^ d) hashes in
      let branch = branch_loop fast d (2 ^ d) (drop 1 leaves) in
      let size : length leaves ≡ 2 ^ d =
        length-first_pass fast (2 ^ d) hashes low (omega (arith, two-pow-succ d)) in
      let root = branch_loop_lem fast d leaves size in
      (
        d,
        (low, high),
        (
          branch,
          rw same (ap (λ (i : List Hash). some (branch_loop fast d (2 ^ d) i)) ints),
          length-branch_loop fast d (2 ^ d) (drop 1 leaves),
          subst (λ y. tree_hash_from_branch fast branch d y no_path ≡ merkle fast d leaves) leaf
              root,
        ),
      )

  first_pass_all : (cnt : ℕ) (l : List Hash) → length l ≡ cnt → first_pass fast cnt l ≡ l
  unfolding first_pass pairs
  first_pass_all cnt l e =
      let k : 2 * cnt - length l ≡ cnt = omega (arith, e) in
      rw (k, take_all cnt l (omega arith), drop_all cnt l (omega arith)) (append-nil l)

  first_pass_none :
      (cnt : ℕ) (l : List Hash) → length l ≡ cnt + cnt → first_pass fast cnt l ≡ pairs fast l
  unfolding first_pass
  first_pass_none cnt l e = let k : 2 * cnt - length l ≡ 0 = omega (arith, e) in rw k refl

  tree_hash-merkle :
      (x : Hash) (l : List Hash) (d : ℕ)
      → length (x ∷ l) ≤ 512
      → IsDepth (length (x ∷ l)) d
      → tree_hash fast (x ∷ l) ≡ some (merkle fast d (first_pass fast (2 ^ d) (x ∷ l)))
  unfolding tree_hash merkle first_pass pairs
  tree_hash-merkle x [] d h is =
      let zero_deep : d ≡ 0 = omega (arith, depth_unique 1 d 0 is (omega arith, omega arith)) in
      rw zero_deep refl
  tree_hash-merkle x (y ∷ []) d h is =
      let one_deep : d ≡ 1 = omega (
        arith,
        depth_unique 2 d 1 is (omega arith, omega arith),
        depth_unique 2 1 d (omega arith, omega arith) is,
      ) in
      rw one_deep refl
  tree_hash-merkle x (y ∷ z ∷ l) d h is = deep (tree_hash_lem fast x y z l h)
    where
      hashes : List Hash
      hashes = x ∷ y ∷ z ∷ l

      same_depth : (e : ℕ) → IsDepth (length hashes) e → e ≡ d
      same_depth e at =
          omega
            (arith, depth_unique (length hashes) e d at is, depth_unique (length hashes) d e is at)

      deep :
          (k : ℕ) × ((2 ^ suc k < length hashes)
              × (length hashes ≤ 2 * 2 ^ suc k)
              × (tree_hash fast hashes
                  ≡ some (merkle fast (suc k) (first_pass fast (2 ^ suc k) hashes))))
          → tree_hash fast hashes ≡ some (merkle fast d (first_pass fast (2 ^ d) hashes))
      deep (k, (low, high, root)) =
          let double = two-pow-succ (suc k) in
          elim (native.Mathlib.Decide.dec_lt (length hashes) (2 ^ suc (suc k))) [
            | yes below ↦
                subst
                  (λ e.
                    tree_hash fast hashes ≡ some (merkle fast e (first_pass fast (2 ^ e) hashes)))
                  (same_depth (suc k) (omega arith, below)) root
            | no above ↦
                let full : length hashes ≡ 2 ^ suc (suc k) = omega (arith, double) in
                let next : length hashes < 2 ^ suc (suc (suc k)) =
                  omega (arith, full, two-pow-succ (suc (suc k)), positive (suc (suc k))) in
                let leaves = first_pass_all (2 ^ suc (suc k)) hashes full in
                let paired = first_pass_none (2 ^ suc k) hashes (full ∙ double) in
                let steps =
                  ap (merkle fast (suc k)) paired
                  ∙ merkle-pairs fast (suc k) hashes full
                  ∙ sym (ap (merkle fast (suc (suc k))) leaves) in
                subst
                  (λ e.
                    tree_hash fast hashes ≡ some (merkle fast e (first_pass fast (2 ^ e) hashes)))
                  (same_depth (suc (suc k)) (omega arith, next)) (root ∙ ap some steps)
          ]

  -- For 1 to 512 hashes the branch has as many elements as tree_depth gives for their number, and
  -- climbing it from the first hash, without a path, gives the root that tree_hash gives.
  pub tree_branch_lem :
      (x : Hash) (l : List Hash)
      → length (x ∷ l) ≤ 512
      → (branch : List Hash) × (tree_branch fast (x ∷ l) ≡ some branch)
        × (length branch ≡ tree_depth (length (x ∷ l)))
        × (tree_hash fast (x ∷ l)
            ≡ some (tree_hash_from_branch fast branch (length branch) x no_path))
  tree_branch_lem x l h =
      let (d, is, (branch, made, size, root)) = tree_branch-merkle x l (omega arith) in
      let e = tree_depth (length (x ∷ l)) in
      let deep = tree_depth_lem (length (x ∷ l)) (omega arith) (omega arith) in
      (
        branch,
        made,
        size
            ∙ omega (
              arith,
              depth_unique (length (x ∷ l)) d e is deep,
              depth_unique (length (x ∷ l)) e d deep is,
            ),
        tree_hash-merkle x l d h is
            ∙ ap some
                (sym root ∙ ap (λ n. tree_hash_from_branch fast branch n x no_path) (sym size)),
      )

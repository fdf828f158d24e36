-- ===== src/Tests/Branches.antt =====
-- Branches of small trees.
use bytecoin.Common.{ℕ, ◌+◌, ◌*◌, ◌≡◌, refl, ◌⊎◌, some, List, [], ◌∷◌, length, arith}
use bytecoin.Transaction.{Hash}
use bytecoin.TreeHash.{tree_hash}
use bytecoin.TreeHash.Binding.{Collides, tree_hash_from_branch-binds}
use bytecoin.TreeHash.Branch.{tree_branch, tree_depth, tree_hash_from_branch}
use bytecoin.TreeHash.BranchLaws.{tree_branch_lem}
use bytecoin.TreeHash.Climbing.{no_path}

abbrev blend : Hash → Hash → Hash
blend a b = 3 * a + b

branch_example :
    (branch : List Hash) × (tree_branch blend (1 ∷ 2 ∷ 3 ∷ 4 ∷ 5 ∷ []) ≡ some branch)
    × (length branch ≡ tree_depth 5)
    × (tree_hash blend (1 ∷ 2 ∷ 3 ∷ 4 ∷ 5 ∷ [])
        ≡ some (tree_hash_from_branch blend branch (length branch) 1 no_path))
branch_example = tree_branch_lem blend 1 (2 ∷ 3 ∷ 4 ∷ 5 ∷ []) (omega arith)

one_root :
    tree_hash_from_branch blend (1 ∷ []) 1 2 no_path
    ≡ tree_hash_from_branch blend (4 ∷ []) 1 1 no_path
unfolding tree_hash_from_branch
one_root = refl

binds_example : (◌≡◌ {A = ℕ} 2 1) ⊎ Collides blend
binds_example = tree_hash_from_branch-binds blend (1 ∷ []) (4 ∷ []) 1 2 1 no_path one_root

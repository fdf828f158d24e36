-- ===== src/TreeHash/Branch.antt =====
-- src/crypto/tree-hash.c: the branch from a leaf to the root. `fast` is `cn_fast_hash` on two hashes.
use bytecoin.Common.{
  ℕ, zero, suc, ◌+◌, ◌-◌, ◌*◌, ◌/◌, ◌^◌, Bool, Option, none, some, List, [], ◌∷◌, ◌++◌, ltb, leb,
  if◌then◌else◌, length, get_or, take, drop,
}
use bytecoin.Common.Word.{shl64}
use bytecoin.Transaction.{Hash}
use bytecoin.TreeHash.{pairs}

-- `for (i = sizeof(size_t) << 2; i > 0; i >>= 1)`, the rounds i = 2 ^ 5 to 2 ^ 0.
unfoldable pub depth_loop : ℕ → ℕ → ℕ → ℕ
depth_loop zero count depth = depth
depth_loop (suc n) count depth =
    let more = depth_loop n (count / 2 ^ (2 ^ n)) (depth + 2 ^ n) in
    let same = depth_loop n count depth in if ltb 0 (count / 2 ^ (2 ^ n)) then more else same

unfoldable pub tree_depth : ℕ → ℕ
unfolding depth_loop
tree_depth count = depth_loop 6 count 0

-- The loop of `tree_branch` with the same rounds: `cnt` and `depth`.
unfoldable pub size_loop : ℕ → ℕ → ℕ → ℕ → ℕ × ℕ
size_loop zero count cnt depth = (cnt, depth)
size_loop (suc n) count cnt depth =
    let more = size_loop n count (shl64 cnt (2 ^ n)) (depth + 2 ^ n) in
    let same = size_loop n count cnt depth in if leb (shl64 cnt (2 ^ n)) count then more else same

module _ (fast : Hash → Hash → Hash) where
  -- `while (depth > 0)`: the elements of `branch` from the last one back. `ints` is read up to `cnt - 1`.
  unfoldable pub branch_loop : ℕ → ℕ → List Hash → List Hash
  unfolding pairs
  branch_loop zero cnt ints = []
  branch_loop (suc depth) cnt ints =
      branch_loop depth (cnt / 2) (take (cnt / 2 - 1) (pairs fast (drop 1 ints)))
      ++ get_or ints 0 0 ∷ []

  -- `none` is the assertion that there is a hash.
  unfoldable pub tree_branch : List Hash → Option (List Hash)
  unfolding size_loop pairs branch_loop
  tree_branch [] = none
  tree_branch (x ∷ l) =
      let hashes = x ∷ l in
      let count = length hashes in
      let (cnt, depth) = size_loop 6 count 1 0 in
      let ints =
        take (2 * cnt - count - 1) (drop 1 hashes) ++ pairs fast (drop (2 * cnt - count) hashes) in
      some (branch_loop depth cnt ints)

  -- `on_right` is the test of a bit of `path`; without a path it is false everywhere.
  unfoldable pub tree_hash_from_branch : List Hash → ℕ → Hash → (ℕ → Bool) → Hash
  tree_hash_from_branch branch zero leaf on_right = leaf
  tree_hash_from_branch branch (suc depth) leaf on_right =
      tree_hash_from_branch branch depth
        (if on_right depth
          then fast (get_or branch depth 0) leaf
          else fast leaf (get_or branch depth 0))
        on_right

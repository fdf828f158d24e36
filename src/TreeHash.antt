-- ===== src/TreeHash.antt =====
-- src/crypto/tree-hash.c: the root hash of a list of hashes. `fast` is `cn_fast_hash` on two hashes.
pub mod Leaves
pub mod Merkle
pub mod Collision
pub mod Branch
pub mod Depth
pub mod Climbing
pub mod BranchLaws
pub mod Binding
use bytecoin.Common.{
  ℕ, zero, suc, ◌+◌, ◌-◌, ◌*◌, ◌/◌, ◌^◌, bit_and, bit_or, Bool, Option, none, some, List, [], ◌∷◌,
  ◌++◌, ltb, ◌==◌, if◌then◌else◌, length, get_or, take, drop,
}
use bytecoin.Common.Word.{u64_mod}
use bytecoin.Transaction.{Hash}

-- `for (i = 1; i < sizeof(size_t); i <<= 1) cnt |= cnt >> i`, where sizeof(size_t) is 8: the rounds
-- i = 1, 2 and 4, and a fourth in which the loop stops.
unfoldable pub smear : ℕ → ℕ → ℕ → ℕ
smear zero i cnt = cnt
smear (suc fuel) i cnt =
    let rest = smear fuel (i * 2) (bit_or cnt (cnt / 2 ^ i)) in if ltb i 8 then rest else cnt

-- The number of hashes that are left after the first pass over `count` of them.
unfoldable pub leaf_count : ℕ → ℕ
unfolding smear
leaf_count count = let cnt = smear 4 1 (count - 1) in bit_and cnt (u64_mod - 1 - cnt / 2)

module _ (fast : Hash → Hash → Hash) where
  unfoldable pub pairs : List Hash → List Hash
  pairs [] = []
  pairs (x ∷ []) = []
  pairs (x ∷ y ∷ l) = fast x y ∷ pairs l

  -- `ints` after the first pass.
  unfoldable pub first_pass : ℕ → List Hash → List Hash
  unfolding pairs
  first_pass cnt hashes =
      take (2 * cnt - length hashes) hashes ++ pairs (drop (2 * cnt - length hashes) hashes)

  -- `while (cnt > 2)`, then the hash of the first two. The elements behind the first `cnt` are read
  -- no more.
  unfoldable pub reduce : ℕ → ℕ → List Hash → Hash
  unfolding pairs
  reduce zero cnt ints = fast (get_or ints 0 0) (get_or ints 1 0)
  reduce (suc fuel) cnt ints =
      let rest = reduce fuel (cnt / 2) (pairs (take (2 * (cnt / 2)) ints)) in
      if ltb 2 cnt then rest else fast (get_or ints 0 0) (get_or ints 1 0)

  -- `none` is the assertion that there is a hash. Each round halves `cnt`, so 64 are enough.
  unfoldable pub tree_hash : List Hash → Option Hash
  unfolding leaf_count first_pass reduce
  tree_hash [] = none
  tree_hash (x ∷ []) = some x
  tree_hash (x ∷ y ∷ []) = some (fast x y)
  tree_hash (x ∷ y ∷ z ∷ l) =
      let hashes = x ∷ y ∷ z ∷ l in
      let cnt = leaf_count (length hashes) in some (reduce 64 cnt (first_pass cnt hashes))

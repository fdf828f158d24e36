-- ===== src/Tests/Chains.antt =====
-- Checkpoints, the block index, the vote on the version and the tree hash at concrete chains.
use bytecoin.Common.{
  ℕ, zero, suc, ◌+◌, ◌-◌, ◌*◌, ◌^◌, ◌≤◌, ◌<◌, ◌≡◌, refl, ◌↔◌, inl, inr, true, false, some, [], ◌∷◌,
  ◌++◌, arith, ◌==◌, if◌then◌else◌, All, length, replicate, length-replicate,
}
use bytecoin.Transaction.{Hash}
use bytecoin.Checkpoints.{Points, find_point, add_checkpoint, check_block}
use bytecoin.Checkpoints.Laws.{IsAscending, add_checkpoint_lem}
use bytecoin.BlockIndex.{
  BlockIndex, has_block, push, pop, get_block_height, history_loop, get_short_chain_history,
}
use bytecoin.BlockIndex.Laws.{IsDistinct, push-pop}
use bytecoin.BlockIndex.History.{get_short_chain_history_lem}
use bytecoin.Currency.{Currency, default_currency}
use bytecoin.Upgrade.{
  BlockVersion, Detector, undef_height, is_voting_complete, block_pushed, block_popped,
  find_voting_complete_height,
}
use bytecoin.Upgrade.Voting.{IsFirstIn, find_voting_complete_height_lem}
use bytecoin.Upgrade.Tracking.{
  IsTracking, Decides, block_pushed-IsTracking, block_popped-IsTracking,
}
use bytecoin.Currency.{max_upgrade_distance}
use bytecoin.TreeHash.{first_pass, tree_hash}
use bytecoin.TreeHash.Merkle.{merkle, tree_hash_lem}
use bytecoin.TreeHash.Collision.{tree_hash-collides}

abbrev two_points : Points
two_points = (10, 77) ∷ (30, 99) ∷ []

abbrev three_points : Points
three_points = (10, 77) ∷ (20, 88) ∷ (30, 99) ∷ []

two_points-IsAscending : IsAscending two_points
two_points-IsAscending = ((omega arith, tt), (tt, tt))

three_points-IsAscending : IsAscending three_points
three_points-IsAscending = ((omega arith, (omega arith, tt)), ((omega arith, tt), (tt, tt)))

point_added : add_checkpoint two_points 20 (some 88) ≡ some three_points
unfolding add_checkpoint
point_added = refl

add_checkpoint_example :
    IsAscending three_points
    × ((j : ℕ) → find_point three_points j ≡ (if 20 == j then some 88 else find_point two_points j))
    × ((x : Hash) → ((check_block three_points 20 x).passed ≡ true) ↔ (x ≡ 88))
add_checkpoint_example =
    add_checkpoint_lem two_points three_points 20 88 two_points-IsAscending point_added

abbrev three_blocks : BlockIndex
three_blocks = 5 ∷ 6 ∷ 7 ∷ []

three_blocks-IsDistinct : IsDistinct three_blocks
unfolding has_block
three_blocks-IsDistinct = (refl, (refl, (refl, tt)))

block_pushed_on : push three_blocks 8 ≡ (5 ∷ 6 ∷ 7 ∷ 8 ∷ [], true)
unfolding push
block_pushed_on = refl

push_pop_example :
    IsDistinct (5 ∷ 6 ∷ 7 ∷ 8 ∷ [])
    × (get_block_height (5 ∷ 6 ∷ 7 ∷ 8 ∷ []) 8 ≡ some (length three_blocks))
    × ((x : Hash) (n : ℕ)
        → get_block_height three_blocks x ≡ some n
        → get_block_height (5 ∷ 6 ∷ 7 ∷ 8 ∷ []) x ≡ some n)
    × (pop (5 ∷ 6 ∷ 7 ∷ 8 ∷ []) ≡ three_blocks)
push_pop_example =
    push-pop three_blocks (5 ∷ 6 ∷ 7 ∷ 8 ∷ []) 8 three_blocks-IsDistinct block_pushed_on

history_example :
    All (λ h. has_block (5 ∷ 6 ∷ 7 ∷ []) h ≡ true) (get_short_chain_history (5 ∷ 6 ∷ 7 ∷ []))
    × ((k : ℕ)
        → get_short_chain_history (5 ∷ 6 ∷ 7 ∷ [])
          ≡ history_loop (suc (length {A = Hash} (6 ∷ 7 ∷ [])) + k) (5 ∷ 6 ∷ 7 ∷ []) 0 1 1
            ++ 5 ∷ [])
history_example = get_short_chain_history_lem 5 (6 ∷ 7 ∷ [])

-- A vote of two blocks.
abbrev voting : Currency
voting = record default_currency {
  upgrade_height = undef_height;
  upgrade_voting_window = 2;
  upgrade_window = 4;
}

abbrev voter : BlockVersion
voter = record { major = 1; minor = 1 }

abbrev undecided : Detector
undecided = record { target_version = 2; voting_complete_height = undef_height }

abbrev decided_at_1 : Detector
decided_at_1 = record { target_version = 2; voting_complete_height = 1 }

not_yet : (h : ℕ) → 0 ≤ h → h < 1 → is_voting_complete voting (voter ∷ []) 2 h ≡ false
unfolding is_voting_complete
not_yet zero l m = refl
not_yet (suc h) l m = absurd (omega arith)

before_second : (h : ℕ) → 0 ≤ h → h < 1 → is_voting_complete voting (voter ∷ voter ∷ []) 2 h ≡ false
unfolding is_voting_complete
before_second zero l m = refl
before_second (suc h) l m = absurd (omega arith)

complete_at_1 : is_voting_complete voting (voter ∷ voter ∷ []) 2 1 ≡ true
unfolding is_voting_complete
complete_at_1 = refl

voting-Decides : Decides voting (voter ∷ voter ∷ [])
voting-Decides = (refl, omega arith, omega arith)

pushed_vote_example :
    IsTracking voting (voter ∷ voter ∷ []) (block_pushed voting (voter ∷ voter ∷ []) undecided)
pushed_vote_example =
    block_pushed-IsTracking voting (voter ∷ []) voter undecided voting-Decides (inl (refl, not_yet))

popped_vote_example : IsTracking voting (voter ∷ []) (block_popped (voter ∷ []) decided_at_1)
popped_vote_example =
    block_popped-IsTracking voting (voter ∷ []) voter decided_at_1 voting-Decides
      (inr (omega arith, omega arith, complete_at_1, before_second))

search_example :
    IsFirstIn voting
      (voter ∷ voter ∷ [])
      2
      (1 - max_upgrade_distance voting)
      (1 + 1)
      (find_voting_complete_height voting (voter ∷ voter ∷ []) 2 1)
search_example = find_voting_complete_height_lem voting (voter ∷ voter ∷ []) 2 1

abbrev mix : Hash → Hash → Hash
mix a b = 3 * a + b

tree_example :
    (k : ℕ) × ((2 ^ suc k < 5)
      × (5 ≤ 2 * 2 ^ suc k)
      × (tree_hash mix (1 ∷ 2 ∷ 3 ∷ 4 ∷ 5 ∷ [])
          ≡ some (merkle mix (suc k) (first_pass mix (2 ^ suc k) (1 ∷ 2 ∷ 3 ∷ 4 ∷ 5 ∷ [])))))
tree_example = tree_hash_lem mix 1 2 3 (4 ∷ 5 ∷ []) (omega arith)

collision_example :
    tree_hash mix (replicate 512 9 ++ 1 ∷ 2 ∷ []) ≡ tree_hash mix (replicate 512 9 ++ 3 ∷ 4 ∷ [])
collision_example =
    tree_hash-collides mix (replicate 512 9) 1 2 3 4 (length-replicate {A = ℕ} 512 9)

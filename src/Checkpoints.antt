-- ===== src/Checkpoints.antt =====
-- src/cryptonote_core/checkpoints.cpp: the blocks whose hashes are known beforehand.
pub mod Laws
use bytecoin.Common.{
  ℕ, ◌≤◌, ◌<◌, Bool, true, false, not, Option, none, some, List, [], ◌∷◌, ltb, leb, ◌==◌,
  if◌then◌else◌,
}
use bytecoin.Transaction.{Hash}

-- m_points, a std::map from heights to hashes, as its pairs in ascending order of the heights.
abbrev pub Points : Type 0
Points = List (ℕ × Hash)

unfoldable pub find_point : Points → ℕ → Option Hash
find_point [] height = none
find_point ((h, id) ∷ points) height = if h == height then some id else find_point points height

unfoldable pub insert_point : Points → ℕ → Hash → Points
insert_point [] height id = (height, id) ∷ []
insert_point ((h, i) ∷ points) height id =
    if ltb height h then (height, id) ∷ (h, i) ∷ points else (h, i) ∷ insert_point points height id

-- `parsed` is what `Common::podFromHex` makes of the text; `none` is `return false`.
unfoldable pub add_checkpoint : Points → ℕ → Option Hash → Option Points
unfolding find_point insert_point
add_checkpoint points height none = none
add_checkpoint points height (some id) = elim (find_point points height) [
  | some _ ↦ none
  | none ↦ some (insert_point points height id)
]

-- `(--m_points.end())->first`, 0 for no points.
unfoldable pub last_height : Points → ℕ
last_height [] = 0
last_height ((h, _) ∷ []) = h
last_height ((h, _) ∷ p ∷ points) = last_height (p ∷ points)

unfoldable pub is_in_checkpoint_zone : Points → ℕ → Bool
unfolding last_height
is_in_checkpoint_zone [] height = false
is_in_checkpoint_zone (p ∷ points) height = leb height (last_height (p ∷ points))

pub record CheckResult : Type 0 where
  pub passed : Bool
  pub is_a_checkpoint : Bool

unfoldable pub check_block : Points → ℕ → Hash → CheckResult
unfolding find_point
check_block points height id = elim (find_point points height) [
  | none ↦ record { passed = true; is_a_checkpoint = false }
  | some expected ↦ record { passed = expected == id; is_a_checkpoint = true }
]

-- The key before `upper_bound(height)`: the greatest height up to `height`, `none` where
-- `upper_bound` is the first point.
unfoldable pub checkpoint_before : Points → ℕ → Option ℕ
checkpoint_before [] height = none
checkpoint_before ((h, _) ∷ points) height =
    let later = checkpoint_before points height in
    if ltb height h then none else elim later [ none ↦ some h | some k ↦ some k ]

unfoldable pub is_alternative_block_allowed : Points → ℕ → ℕ → Bool
unfolding checkpoint_before
is_alternative_block_allowed points blockchain_height block_height =
    if block_height == 0 then false else elim (checkpoint_before points blockchain_height) [
      | none ↦ true
      | some checkpoint_height ↦ ltb checkpoint_height block_height
    ]

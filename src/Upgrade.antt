-- ===== src/Upgrade.antt =====
-- src/cryptonote_core/UpgradeDetector.h: the vote of the blocks on the next major version. The asserts
-- of the source are no part of the model.
pub mod Voting
pub mod Tracking
use bytecoin.Common.{
  ℕ, zero, suc, ◌+◌, ◌-◌, ◌*◌, ◌%◌, ◌^◌, Bool, true, false, ◌&&◌, not, Option, none, some, List, [],
  ◌∷◌, ltb, leb, ◌==◌, if◌then◌else◌, length, get_elem?,
}
use bytecoin.Common.Word.{add64, sub64, mul64}
use bytecoin.Currency.{Currency, max_upgrade_distance, calculate_upgrade_height}

-- UNDEF_HEIGHT
abbrev pub undef_height : ℕ
undef_height = 2 ^ 64 - 1

-- What the detector reads of a block.
pub record BlockVersion : Type 0 where
  pub major : ℕ
  pub minor : ℕ

abbrev pub Chain : Type 0
Chain = List BlockVersion

-- The members m_targetVersion and m_votingCompleteHeight.
pub record Detector : Type 0 where
  pub target_version : ℕ
  pub voting_complete_height : ℕ

abbrev pub vote : ℕ → Option BlockVersion → ℕ
vote target none = 0
vote target (some b) = if b.major == target - 1 && b.minor == 1 then 1 else 0

-- The loop over `n` blocks from the i-th. The callers ask only for heights below the size.
unfoldable pub count_votes : Chain → ℕ → ℕ → ℕ → ℕ
count_votes chain target i zero = 0
count_votes chain target i (suc n) =
    vote target (get_elem? chain i) + count_votes chain target (suc i) n

unfoldable pub is_voting_complete : Currency → Chain → ℕ → ℕ → Bool
unfolding count_votes
is_voting_complete c chain target height =
    if ltb height (sub64 c.upgrade_voting_window 1)
    then false
    else leb (mul64 c.upgrade_voting_threshold c.upgrade_voting_window) (
        100
        * count_votes chain target (height + 1 - c.upgrade_voting_window) c.upgrade_voting_window
        % 2 ^ 32)

-- The first of the heights `i`, ..., `i + n - 1` where the voting is complete.
unfoldable pub first_complete : Currency → Chain → ℕ → ℕ → ℕ → ℕ
unfolding is_voting_complete
first_complete c chain target i zero = undef_height
first_complete c chain target i (suc n) =
    let rest = first_complete c chain target (suc i) n in
    if is_voting_complete c chain target i then i else rest

unfoldable pub find_voting_complete_height : Currency → Chain → ℕ → ℕ → ℕ
unfolding first_complete max_upgrade_distance
find_voting_complete_height c chain target probable =
    let start =
      if ltb (max_upgrade_distance c) probable then probable - max_upgrade_distance c else 0 in
    first_complete c chain target start (probable + 1 - start)

unfoldable pub upgrade_height : Currency → Detector → ℕ
unfolding calculate_upgrade_height
upgrade_height c d =
    if c.upgrade_height == undef_height
    then if d.voting_complete_height == undef_height
      then undef_height
      else calculate_upgrade_height c d.voting_complete_height
    else c.upgrade_height

-- `blockPushed`, with the chain that ends in the new block.
unfoldable pub block_pushed : Currency → Chain → Detector → Detector
unfolding is_voting_complete
block_pushed c chain d =
    if not (c.upgrade_height == undef_height)
    then d
    else if not (d.voting_complete_height == undef_height)
    then d
    else if is_voting_complete c chain d.target_version (length chain - 1)
    then record d { voting_complete_height = length chain - 1 }
    else d

-- `blockPopped`, with the chain that is left.
unfoldable pub block_popped : Chain → Detector → Detector
block_popped chain d =
    if not (d.voting_complete_height == undef_height) && length chain == d.voting_complete_height
    then record d { voting_complete_height = undef_height }
    else d

abbrev pub major_at : Chain → ℕ → ℕ
major_at chain i = elim (get_elem? chain i) [ none ↦ 0 | some b ↦ b.major ]

-- `std::lower_bound` for the first block whose major version is not below `v`, on a chain whose
-- versions do not descend; the size where there is none.
unfoldable pub lower_bound : Chain → ℕ → ℕ
lower_bound [] v = 0
lower_bound (b ∷ chain) v = let rest = lower_bound chain v in if ltb b.major v then suc rest else 0

-- The branch of `init` for a height that the votes decide; `none` is `return false`.
unfoldable pub init_voting : Currency → Chain → Detector → Option Detector
unfolding find_voting_complete_height lower_bound
init_voting c [] d = some (record d { voting_complete_height = undef_height })
init_voting c (b ∷ rest) d =
    let chain = b ∷ rest in
    let last = major_at chain (length chain - 1) in
    let found = find_voting_complete_height c chain d.target_version in
    let start = lower_bound chain d.target_version in
    if d.target_version - 1 == last
    then some (record d { voting_complete_height = found (length chain - 1) })
    else if leb d.target_version last
    then if not (ltb start (length chain) && major_at chain start == d.target_version)
      then none
      else if found start == undef_height
      then none
      else some (record d { voting_complete_height = found start })
    else some (record d { voting_complete_height = undef_height })

-- The branch for a height that the currency fixes.
unfoldable pub init_fixed : Currency → Chain → Detector → Option Detector
init_fixed c [] d = some d
init_fixed c (b ∷ rest) d =
    let chain = b ∷ rest in
    if leb (length chain) (c.upgrade_height + 1)
    then if major_at chain (length chain - 1) == d.target_version - 1 then some d else none
    else if not (major_at chain c.upgrade_height == d.target_version - 1)
    then none
    else if not (major_at chain (c.upgrade_height + 1) == d.target_version)
    then none
    else some d

unfoldable pub init : Currency → Chain → Detector → Option Detector
unfolding init_voting init_fixed
init c chain d =
    if c.upgrade_height == undef_height then init_voting c chain d else init_fixed c chain d

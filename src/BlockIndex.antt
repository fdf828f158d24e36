-- ===== src/BlockIndex.antt =====
-- src/cryptonote_core/BlockIndex.h and BlockIndex.cpp: the hashes of the main chain by height. The
-- multi-index container is the sequence of its hashes, which holds none twice.
pub mod Laws
pub mod History
use bytecoin.Common.{
  ℕ, zero, suc, ◌+◌, ◌-◌, ◌*◌, Bool, true, false, Option, none, some, List, [], ◌∷◌, ◌++◌, ltb, leb,
  ◌==◌, if◌then◌else◌, length, get_or, take, drop,
}
use bytecoin.Common.Word.{add64, mul64}
use bytecoin.Transaction.{Hash}
use bytecoin.Storage.Pop.{pop_back}

abbrev pub BlockIndex : Type 0
BlockIndex = List Hash

-- The value-initialised hash that the source returns out of range.
abbrev pub null_hash : Hash
null_hash = 0

unfoldable pub has_block : BlockIndex → Hash → Bool
has_block [] h = false
has_block (x ∷ index) h = let rest = has_block index h in if x == h then true else rest

-- The new index, and whether the hash was inserted.
unfoldable pub push : BlockIndex → Hash → BlockIndex × Bool
unfolding has_block
push index h = if has_block index h then (index, false) else (index ++ h ∷ [], true)

unfoldable pub pop : BlockIndex → BlockIndex
unfolding pop_back
pop index = pop_back index

unfoldable pub get_block_height : BlockIndex → Hash → Option ℕ
get_block_height [] h = none
get_block_height (x ∷ index) h =
    let rest = get_block_height index h in
    if x == h then some 0 else elim rest [ none ↦ none | some n ↦ some (suc n) ]

unfoldable pub get_block_id : BlockIndex → ℕ → Hash
get_block_id index height =
    if leb (length index) height then null_hash else get_or index height null_hash

-- `none` is `return false`. `start_height + max_count` is taken not to wrap.
unfoldable pub get_block_ids : BlockIndex → ℕ → ℕ → Option (List Hash)
get_block_ids index start_height max_count =
    if leb (length index) start_height
    then none
    else some (take max_count (drop start_height index))

-- The height of the first of the hashes that the index has.
unfoldable pub find_supplement : BlockIndex → List Hash → Option ℕ
unfolding get_block_height
find_supplement index [] = none
find_supplement index (id ∷ ids) =
    let rest = find_supplement index ids in
    elim (get_block_height index id) [ none ↦ rest | some offset ↦ some offset ]

-- The loop of `getShortChainHistory`, from its i-th round on. `genesis_included` stays false, since
-- the offset is below the size where a hash is taken.
unfoldable pub history_loop : ℕ → BlockIndex → ℕ → ℕ → ℕ → List Hash
history_loop zero index i multiplier offset = []
history_loop (suc fuel) index i multiplier offset =
    let step = if ltb i 10 then 1 else multiplier * 2 in
    let rest =
      history_loop fuel index (suc i) (if ltb i 10 then multiplier else multiplier * 2)
        (offset + step) in
    if ltb offset (length index) then get_or index (length index - offset) null_hash ∷ rest else []

unfoldable pub get_short_chain_history : BlockIndex → List Hash
unfolding history_loop
get_short_chain_history [] = []
get_short_chain_history (x ∷ index) = history_loop (suc (length index)) (x ∷ index) 0 1 1 ++ x ∷ []

unfoldable pub get_tail_id : BlockIndex → Hash
get_tail_id [] = null_hash
get_tail_id (x ∷ []) = x
get_tail_id (_ ∷ y ∷ index) = get_tail_id (y ∷ index)

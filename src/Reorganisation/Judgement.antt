-- ===== src/Reorganisation/Judgement.antt =====
-- `handle_alternative_block` up to the insertion of the block: the tests of the block, the alternative
-- chain that it extends, and its difficulty.
use bytecoin.Common.{
  ℕ, zero, suc, ◌+◌, ◌-◌, ◌%◌, ◌^◌, min, Bool, true, false, not, Option, none, some, List, [], ◌∷◌,
  ◌++◌, map, ltb, leb, ◌==◌, if◌then◌else◌, length, get_elem?, take, drop,
}
use bytecoin.Common.Word.{add64}
use bytecoin.Currency.{Currency}
use bytecoin.Currency.Retarget.{next_difficulty}
use bytecoin.Transaction.{Hash, Transaction}
use bytecoin.Checkpoints.{is_alternative_block_allowed, check_block}
use bytecoin.BlockIndex
use bytecoin.Blocks.{Block, BlockEntry, Blockchain, Environment}
use bytecoin.Blocks.Rules.{
  get_block_height, check_block_version, check_parent_block_size, check_cumulative_block_size,
  check_block_timestamp, prevalidate_miner_transaction,
}
use bytecoin.Blocks.Inputs.{transaction_by_index}
use bytecoin.Reorganisation.{Alternatives, find_alternative}

-- The while loop that follows `prevId` through the alternative blocks, with the chain behind it;
-- `none` where the rounds are used up.
unfoldable pub alternative_chain : ℕ → Alternatives → Hash → Alternatives → Option Alternatives
unfolding find_alternative
alternative_chain zero alts id chain = none
alternative_chain (suc n) alts id chain = elim (find_alternative id alts) [
  | none ↦ some chain
  | some e ↦ alternative_chain n alts e.bl.prev_id ((id, e) ∷ chain)
]

-- The timestamps of the chain, the last one first.
unfoldable pub timestamps_of : Alternatives → List ℕ
timestamps_of [] = []
timestamps_of ((_, e) ∷ chain) = timestamps_of chain ++ e.bl.timestamp ∷ []

abbrev pub last_entry : Alternatives → Option BlockEntry
last_entry [] = none
last_entry ((_, e) ∷ []) = some e
last_entry (_ ∷ x ∷ chain) = last_entry (x ∷ chain)

-- `height - 1`, of 32 bits.
abbrev height_below : ℕ → ℕ
height_below height = (height + 4_294_967_295) % 2 ^ 32

-- The do loop of `complete_timestamps_vector`, from a height down. The heights are in range.
abbrev timestamp_at : List BlockEntry → ℕ → List ℕ
timestamp_at blocks height = elim (get_elem? blocks height) [
  | none ↦ []
  | some e ↦ e.bl.timestamp ∷ []
]

unfoldable pub timestamps_down : List BlockEntry → ℕ → ℕ → List ℕ
timestamps_down blocks zero stop_offset = timestamp_at blocks 0
timestamps_down blocks (suc height) stop_offset =
    let rest = timestamps_down blocks height stop_offset in
    timestamp_at blocks (suc height) ++ (if height == stop_offset then [] else rest)

-- The vector after the call. Its result is not looked at by the callers.
unfoldable pub complete_timestamps_vector : Currency → List BlockEntry → ℕ → List ℕ → List ℕ
unfolding timestamps_down
complete_timestamps_vector c blocks start_top_height timestamps =
    let need_elements = c.timestamp_check_window - length timestamps in
    let stop_offset =
      if ltb need_elements start_top_height then start_top_height - need_elements else 0 in
    if leb c.timestamp_check_window (length timestamps)
    then timestamps
    else if not (ltb start_top_height (length blocks))
    then timestamps
    else timestamps ++ timestamps_down blocks start_top_height stop_offset

-- The entries of the main chain whose difficulties count: at most `limit` of them that end at the
-- offset, without the genesis block. The offset is not above the size.
unfoldable pub main_chain_part : List BlockEntry → ℕ → ℕ → List BlockEntry
main_chain_part blocks stop_offset limit =
    let start = stop_offset - min limit stop_offset in
    let from : ℕ = if start == 0 then 1 else start in take (stop_offset - from) (drop from blocks)

abbrev entries_of : Alternatives → List BlockEntry
entries_of [] = []
entries_of ((_, e) ∷ chain) = e ∷ entries_of chain

abbrev stop_offset_of : Alternatives → ℕ → ℕ
stop_offset_of [] height = height
stop_offset_of ((_, e) ∷ chain) height = e.height

unfoldable pub difficulty_of_entries : Currency → List BlockEntry → ℕ
unfolding next_difficulty
difficulty_of_entries c entries =
    next_difficulty c (map (λ (e : BlockEntry). e.bl.timestamp) entries)
      (map (λ (e : BlockEntry). e.cumulative_difficulty) entries)

-- The difficulty of a block at a height behind the chain. The test in the middle cannot fail.
unfoldable pub get_next_difficulty_for_alternative_chain :
    Currency → List BlockEntry → Alternatives → ℕ → ℕ
unfolding main_chain_part difficulty_of_entries
get_next_difficulty_for_alternative_chain c blocks chain height =
    let count = c.difficulty_window + c.difficulty_lag in
    let main =
      main_chain_part blocks (stop_offset_of chain height) (count - min count (length chain)) in
    if ltb (length chain) count
    then if leb (length chain + length main) count
      then difficulty_of_entries c (main ++ entries_of chain)
      else 0
    else difficulty_of_entries c (drop (length chain - count) (entries_of chain))

-- `getBlockCumulativeSize`. `find_tx` is what the pool's `getTransactions` finds by a hash; a
-- transaction that is not found counts nothing. `none` is an index outside a vector.
unfoldable pub sum_sizes :
    Environment → Blockchain → (Hash → Option Transaction) → ℕ → List Hash → Option ℕ
unfolding transaction_by_index
sum_sizes env s find_tx size [] = some size
sum_sizes env s find_tx size (h ∷ hashes) = elim (s.indices.transaction_map h) [
  | some at ↦ elim (transaction_by_index s.blocks at) [
    | none ↦ none
    | some tx ↦ sum_sizes env s find_tx (add64 size (env.blob_size tx)) hashes
  ]
  | none ↦ elim (find_tx h) [
    | none ↦ sum_sizes env s find_tx size hashes
    | some tx ↦ sum_sizes env s find_tx (add64 size (env.blob_size tx)) hashes
  ]
]

unfoldable pub get_block_cumulative_size :
    Environment → Blockchain → (Hash → Option Transaction) → Block → Option ℕ
unfolding sum_sizes
get_block_cumulative_size env s find_tx b =
    sum_sizes env s find_tx (env.blob_size b.miner_tx) b.tx_hashes

-- What the tests make of a block: a refusal with `m_verifivation_failed` or without it; an orphan; a
-- read outside a vector; a chain without end; or the entry to insert, the chain that it extends, and
-- whether it is a checkpoint. The Boolean of `refused` tells whether m_is_in_checkpoint_zone has been
-- reset.
pub data Judgement : Type 0 where
  refused : Bool → Bool → Judgement
  orphaned : Judgement
  out_of_range : Judgement
  endless : Judgement
  accepted : BlockEntry → Alternatives → Bool → Judgement

-- The tests of a block that come before its size.
unfoldable pub is_admissible : Environment → Currency → Blockchain → Block → Bool
unfolding get_block_height is_alternative_block_allowed check_block_version check_parent_block_size
is_admissible env c s b =
    if get_block_height b == 0
    then false
    else if not (is_alternative_block_allowed s.checkpoints (length s.blocks) (get_block_height b))
    then false
    else if not (check_block_version c s.upgrade_detector b)
    then false
    else check_parent_block_size env b

module _ (env : Environment) (c : Currency) (s : Blockchain) (b : Block) (id : Hash) where
  -- From the test of the timestamp on: the height, the cumulative difficulty of the block before, and
  -- the timestamps are known.
  unfoldable pub judge_in_chain : Alternatives → List ℕ → ℕ → ℕ → Judgement
  unfolding check_block_timestamp check_block get_next_difficulty_for_alternative_chain
      prevalidate_miner_transaction
  judge_in_chain chain timestamps height difficulty_before =
      let check = check_block s.checkpoints height id in
      let current_diff = get_next_difficulty_for_alternative_chain c s.blocks chain height in
      let entry : BlockEntry = record {
        bl = b;
        height = height;
        block_cumulative_size = 0;
        cumulative_difficulty = add64 difficulty_before current_diff;
        already_generated_coins = 0;
        transactions = [];
      } in
      if not (check_block_timestamp c timestamps b)
      then refused false true
      else if not check.passed
      then refused false true
      else if current_diff == 0
      then refused true false
      else if not (env.check_proof_of_work b current_diff)
      then refused true true
      else if not (prevalidate_miner_transaction c b height)
      then refused true true
      else accepted entry chain check.is_a_checkpoint

  -- The test of the connection to the main chain, where the block extends alternative blocks; `first`
  -- is the first of them and `last` the last.
  unfoldable pub judge_on_alternative : Alternatives → BlockEntry → BlockEntry → Judgement
  unfolding complete_timestamps_vector timestamps_of judge_in_chain
  judge_on_alternative chain first last =
      if not (ltb first.height (length s.blocks))
      then refused false false
      else elim (get_elem? s.blocks (height_below first.height)) [
        | none ↦ out_of_range
        | some m ↦
            if not (env.block_hash m.bl == first.bl.prev_id)
            then refused false false
            else judge_in_chain chain
                (complete_timestamps_vector c s.blocks (height_below first.height)
                  (timestamps_of chain))
                ((last.height + 1) % 2 ^ 32) last.cumulative_difficulty
      ]

  -- The block extends the main chain at a height of it.
  unfoldable pub judge_on_main : ℕ → Judgement
  unfolding complete_timestamps_vector judge_in_chain
  judge_on_main main_prev_height = elim (get_elem? s.blocks main_prev_height) [
    | none ↦ out_of_range
    | some m ↦
        judge_in_chain [] (complete_timestamps_vector c s.blocks main_prev_height [])
          ((main_prev_height + 1) % 2 ^ 32) m.cumulative_difficulty
  ]

  unfoldable pub judge_chain : Alternatives → Judgement
  unfolding judge_on_alternative judge_on_main
  judge_chain [] = elim (BlockIndex.get_block_height s.block_index b.prev_id) [
    | none ↦ orphaned
    | some main_prev_height ↦ judge_on_main main_prev_height
  ]
  judge_chain ((h, first) ∷ chain) = elim (last_entry ((h, first) ∷ chain)) [
    | none ↦ out_of_range
    | some last ↦ judge_on_alternative ((h, first) ∷ chain) first last
  ]

  -- The whole judgement. A walk through the alternative blocks that meets none twice has no more
  -- rounds than there are blocks, and one that tests for the end.
  unfoldable pub judge : (Hash → Option Transaction) → Alternatives → Judgement
  unfolding get_block_cumulative_size is_admissible check_cumulative_block_size alternative_chain
      judge_chain
  judge find_tx alts =
      if not (is_admissible env c s b)
      then refused false true
      else elim (get_block_cumulative_size env s find_tx b) [
        | none ↦ out_of_range
        | some size ↦
            if not (check_cumulative_block_size c size (get_block_height b))
            then refused false true
            else elim (alternative_chain (suc (length alts)) alts b.prev_id []) [
              | none ↦ endless
              | some chain ↦ judge_chain chain
            ]
      ]

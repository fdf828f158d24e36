-- ===== src/Blocks/PushBlock.antt =====
-- `blockchain_storage::pushBlock`, `popBlock` and `popTransactions`. The pool is used by the calls of
-- an interface; the lock, the timing and the log are left out.
use bytecoin.Common.{
  ℕ, ◌+◌, ◌%◌, ◌^◌, not, Option, none, some, List, [], ◌∷◌, ◌++◌, if◌then◌else◌, length,
}
use bytecoin.Common.Word.{add64}
use bytecoin.Currency.{Currency}
use bytecoin.Transaction.{Hash, Transaction}
use bytecoin.Storage.{TransactionIndex, Indices}
use bytecoin.Storage.Push.{pushed, refused, bad_get, out_of_range, push_transaction}
use bytecoin.Storage.Pop.{back?, pop_back, pop_transaction}
use bytecoin.Upgrade.{BlockVersion, block_pushed, block_popped}
use bytecoin.BlockIndex.{push, pop}
use bytecoin.Blocks.{Block, TransactionEntry, BlockEntry, Blockchain, Environment, PoolOperations}
use bytecoin.Blocks.Rules.{
  get_difficulty_for_next_block, check_cumulative_block_size, validate_miner_transaction,
  update_next_comulative_size_limit,
}
use bytecoin.Blocks.Header.{BlockResult, added, rejected, exception, check_header}
use bytecoin.Blocks.Inputs.{holds, denied, failure, check_tx_inputs}

-- A transaction of the block that has been pushed: its hash and its entry.
abbrev pub Moved : Type 0
Moved = Hash × TransactionEntry

-- A call of `pushTransaction` whose result is not looked at: the entry's indices stay empty where it
-- is `false`. `none` is an exception.
unfoldable pub push_entry :
    Indices → Transaction → Hash → TransactionIndex → Indices × Option TransactionEntry
unfolding push_transaction
push_entry i tx hash at =
    let (i', result) = push_transaction i tx hash at in
    (
      i',
      elim result [
        | pushed indexes ↦ some (record { tx = tx; global_output_indexes = indexes })
        | refused ↦ some (record { tx = tx; global_output_indexes = [] })
        | bad_get ↦ none
        | out_of_range ↦ none
      ],
    )

-- The block's versions as the detector reads them.
abbrev pub versions : List BlockEntry → List BlockVersion
versions [] = []
versions (e ∷ blocks) =
    record { major = e.bl.major_version; minor = e.bl.minor_version } ∷ versions blocks

abbrev pub entries : List Moved → List TransactionEntry
entries [] = []
entries ((_, t) ∷ moved) = entries moved ++ t ∷ []

abbrev pub last_coins : List BlockEntry → ℕ
last_coins [] = 0
last_coins (e ∷ []) = e.already_generated_coins
last_coins (_ ∷ e ∷ blocks) = last_coins (e ∷ blocks)

abbrev pub last_difficulty : List BlockEntry → ℕ
last_difficulty [] = 0
last_difficulty (e ∷ []) = e.cumulative_difficulty
last_difficulty (_ ∷ e ∷ blocks) = last_difficulty (e ∷ blocks)

-- The transactions of an entry with their hashes, the last one first.
abbrev pub moved_of : List Hash → List TransactionEntry → List Moved → List Moved
moved_of [] ts moved = moved
moved_of (h ∷ hs) [] moved = moved
moved_of (h ∷ hs) (t ∷ ts) moved = moved_of hs ts ((h, t) ∷ moved)

abbrev pub after_miner : List TransactionEntry → List TransactionEntry
after_miner [] = []
after_miner (_ ∷ ts) = ts

module _ {P : Type 0} (pool : PoolOperations P) where
  -- `popTransactions`, the last transaction first; `none` is an exception of `popTransaction`.
  unfoldable pub pop_transactions :
      Indices → P → List Moved → Transaction → Hash → Option (Indices × P)
  unfolding pop_transaction
  pop_transactions i p [] miner_tx miner_hash = elim (pop_transaction i miner_tx miner_hash) [
    | none ↦ none
    | some i' ↦ some (i', p)
  ]
  pop_transactions i p ((hash, t) ∷ moved) miner_tx miner_hash =
      elim (pop_transaction i t.tx hash) [
        | none ↦ none
        | some i' ↦ pop_transactions i' (pool.add_tx p t.tx).0 moved miner_tx miner_hash
      ]

  -- What `popTransactions` has done when a call of `popTransaction` throws, as m_transactionMap.at
  -- does before anything else.
  unfoldable pub pop_progress : Indices → P → List Moved → Indices × P
  unfolding pop_transaction
  pop_progress i p [] = (i, p)
  pop_progress i p ((hash, t) ∷ moved) = elim (pop_transaction i t.tx hash) [
    | none ↦ (i, p)
    | some i' ↦ pop_progress i' (pool.add_tx p t.tx).0 moved
  ]

  -- The end of a failed attempt: `popTransactions`, then `return false`.
  unfoldable pub give_up :
      Blockchain → P → List Moved → Transaction → Hash → Blockchain × P × BlockResult
  unfolding pop_transactions pop_progress
  give_up s p moved miner_tx miner_hash =
      elim (pop_transactions s.indices p moved miner_tx miner_hash) [
        | none ↦
            let (i, p') = pop_progress s.indices p moved in
            (record s { indices = i }, p', exception)
        | some (i, p') ↦ (record s { indices = i }, p', rejected)
      ]

  -- What the loop over the hashes leaves: the transactions moved, the last one first, their size and
  -- fee; or the end of the whole call.
  pub data LoadResult : Type 0 where
    loaded : Blockchain → P → List Moved → ℕ → ℕ → LoadResult
    ended : Blockchain → P → BlockResult → LoadResult

  abbrev pub ended_by : Blockchain × P × BlockResult → LoadResult
  ended_by (s, p, result) = ended s p result

  module _ (env : Environment) (c : Currency) where
    -- The loop over `txHashes`; `n` is the number of the transaction that was pushed last.
    unfoldable pub load_transactions :
        Blockchain → P → Transaction → Hash → ℕ → List Moved → ℕ → ℕ → List Hash → LoadResult
    unfolding give_up check_tx_inputs push_entry
    load_transactions s p miner_tx miner_hash n moved size fee [] = loaded s p moved size fee
    load_transactions s p miner_tx miner_hash n moved size fee (id ∷ ids) =
        let at : TransactionIndex = record {
          block = length s.blocks % 2 ^ 32;
          transaction = (n + 1) % 2 ^ 16;
        } in
        elim (pool.take_tx p id) [
          | none ↦ ended_by (give_up s p moved miner_tx miner_hash)
          | some (taken, p') ↦ elim (check_tx_inputs env c s taken.tx) [
            | failure ↦ ended s p' exception
            | denied ↦ ended_by (give_up s (pool.add_tx p' taken.tx).0 moved miner_tx miner_hash)
            | holds _ ↦
                let r = push_entry s.indices taken.tx id at in
                elim r.1 [
                  | none ↦ ended (record s { indices = r.0 }) p' exception
                  | some entry ↦
                      load_transactions (record s { indices = r.0 }) p' miner_tx miner_hash
                        ((n + 1) % 2 ^ 16) ((id, entry) ∷ moved) (add64 size taken.blob_size)
                        (add64 fee taken.fee) ids
                ]
          ]
        ]

    -- `pushBlock(BlockEntry&)`, the detector and the next size limit.
    unfoldable pub append_block : Blockchain → BlockEntry → Blockchain
    unfolding push block_pushed update_next_comulative_size_limit
    append_block s e =
        let blocks = s.blocks ++ e ∷ [] in
        update_next_comulative_size_limit c (record s {
          blocks = blocks;
          block_index = (push s.block_index (env.block_hash e.bl)).0;
          upgrade_detector = block_pushed c (versions blocks) s.upgrade_detector;
        })

    -- What follows once every transaction has been moved. A block that is too big is refused without
    -- `popTransactions`.
    unfoldable pub finish_block :
        Blockchain
        → P
        → Block
        → TransactionEntry
        → List Moved
        → ℕ
        → ℕ
        → Blockchain × P × BlockResult
    unfolding check_cumulative_block_size validate_miner_transaction append_block give_up
    finish_block s p b miner_entry moved size fee =
        let coins = last_coins s.blocks in
        let height = length s.blocks in
        if not (check_cumulative_block_size c size height)
        then (s, p, rejected)
        else elim (validate_miner_transaction c s b height size coins fee) [
          | none ↦ give_up s p moved b.miner_tx (env.transaction_hash b.miner_tx)
          | some reward ↦
              let entry : BlockEntry = record {
                bl = b;
                height = height % 2 ^ 32;
                block_cumulative_size = size;
                cumulative_difficulty =
                    add64 (get_difficulty_for_next_block c s.blocks) (last_difficulty s.blocks);
                already_generated_coins = add64 coins reward.emission_change;
                transactions = miner_entry ∷ entries moved;
              } in
              (append_block s entry, p, added)
        ]

    unfoldable pub push_block : Blockchain → P → Block → Blockchain × P × BlockResult
    unfolding check_header push_entry load_transactions finish_block
    push_block s p b =
        let miner_hash = env.transaction_hash b.miner_tx in
        let at : TransactionIndex = record { block = length s.blocks % 2 ^ 32; transaction = 0 } in
        let r = push_entry s.indices b.miner_tx miner_hash at in
        elim (check_header env c s b) [
          | some result ↦ (s, p, result)
          | none ↦ elim r.1 [
            | none ↦ (record s { indices = r.0 }, p, exception)
            | some miner_entry ↦
                elim (load_transactions (record s { indices = r.0 }) p b.miner_tx miner_hash 0 []
                  (env.blob_size b.miner_tx) 0 b.tx_hashes) [
                    | ended s' p' result ↦ (s', p', result)
                    | loaded s' p' moved size fee ↦ finish_block s' p' b miner_entry moved size fee
                  ]
          ]
        ]

  -- `popBlock`; `none` is an exception.
  unfoldable pub pop_block : Environment → Blockchain → P → Option (Blockchain × P)
  unfolding back? pop_back pop pop_transactions block_popped
  pop_block env s p = elim (back? s.blocks) [
    | none ↦ some (s, p)
    | some e ↦
        let blocks = pop_back s.blocks in
        elim (pop_transactions s.indices p (moved_of e.bl.tx_hashes (after_miner e.transactions) [])
          e.bl.miner_tx (env.transaction_hash e.bl.miner_tx)) [
            | none ↦ none
            | some (i, p') ↦ some (
              record s {
                blocks = blocks;
                block_index = pop s.block_index;
                indices = i;
                upgrade_detector = block_popped (versions blocks) s.upgrade_detector;
              },
              p',
            )
          ]
  ]

  -- What `popBlock` has done when it throws: the block is still there.
  unfoldable pub pop_block_progress : Blockchain → P → Blockchain × P
  unfolding back? pop_progress
  pop_block_progress s p = elim (back? s.blocks) [
    | none ↦ (s, p)
    | some e ↦
        let (i, p') =
          pop_progress s.indices p (moved_of e.bl.tx_hashes (after_miner e.transactions) []) in
        (record s { indices = i }, p')
  ]

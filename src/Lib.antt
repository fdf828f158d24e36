-- ===== src/Lib.antt =====
-- Bytecoin: the consensus core, modelled and verified.
--
-- The program is a CryptoNote node. Its core keeps the main chain in class blockchain_storage
-- (src/cryptonote_core/blockchain_storage.h and .cpp): the blocks, the index of their hashes, and four
-- maps over their transactions, which are the spent key images, the outputs of every amount, the
-- transactions by hash and the multisignature outputs. `pushBlock` tests the header of a block, pushes
-- its coinbase transaction, takes its other transactions from the pool one by one, checks their inputs
-- against the maps and pushes them, and at last tests the size of the block and the amount of its
-- coinbase transaction; on most failures it pops what it has pushed. The rules ask the currency
-- (Currency.cpp) for rewards, sizes and difficulties, the upgrade detector (UpgradeDetector.h) for the
-- version of a height, the checkpoints (checkpoints.cpp) for known hashes, and src/Common/int-util.h
-- for products and quotients of two words.
--
-- Files, and the code that they model:
--   Common and its children: the shared names; Booleans on numbers, lists, words, bits, sorting and
--     maps as functions.
--   IntUtil (Mul, Div): hi_dword, lo_dword, mul128, div_with_reminder and div128_32 of
--     src/Common/int-util.h.
--   Difficulty (CheckHash): check_hash of src/cryptonote_core/difficulty.cpp, on little-endian words.
--   Currency (Reward, RewardLaws, Retarget, RetargetLaws): class Currency and its builder,
--     getBlockReward, getPenalizedAmount (cryptonote_basic_impl.cpp), nextDifficulty,
--     maxBlockCumulativeSize.
--   Transaction (Amounts, AmountLaws, Inputs, Offsets, Decompose): the data of cryptonote_basic.h, the
--     checks of cryptonote_format_utils.cpp and decompose_amount_into_digits of its header.
--   Storage (Push, Pop, and the lemmas in Keys, Usage, Marks, Outs, Refusal, Undo, Spending):
--     pushTransaction and popTransaction, as functions on the record Indices of the four maps.
--   Checkpoints (Laws): class checkpoints, its std::map as an ascending list.
--   Upgrade (Voting, Tracking): class BasicUpgradeDetector, on the versions of the blocks.
--   BlockIndex (Laws, History): class BlockIndex, the multi-index container as a list.
--   Blocks (Rules, Inputs, Header, PushBlock, and the lemmas in RuleLaws, InputLaws, Loading, Ending,
--     KindKeeping, Unchanged, Moving, Restore, Undone, Taking, PushLaws): pushBlock, popBlock,
--     popTransactions and the checks that they call, on the record Blockchain. What they use of hashing,
--     of the sizes of serialized objects, of signatures, of the proof of work and of the clock is the
--     record Environment; what they use of the transaction pool is the interface PoolOperations, and
--     PoolKeeping tells what they do to the pool.
--   Pool (Inputs, Order, Calls, Template, and the lemmas in Totals, Marking, Adding, Removing,
--     Consistency, Insertion, Removal, Expiry, Entering, Entry, Steps, Invariant, Priority,
--     TemplateInputs, TemplateLaws, Filling, ChainPool): class tx_memory_pool (src/cryptonote_core/tx_pool.h
--     and .cpp), its container as a list in the order of the index by fee, and class BlockTemplate. The
--     checks that the chain makes of a transaction are the interface TransactionValidator; ChainPool
--     gives the operations of the pool to the main chain.
--   Reorganisation (Judgement, Switch, and the lemmas in Linked, Endings, Rollback, Keeping,
--     Soundness, Result, Starts, Contract, SwitchLaws):
--     add_new_block, handle_alternative_block, switch_to_alternative_blockchain and
--     rollback_blockchain_switching, on the record Chains of the main chain, the pool and the
--     alternative blocks.
--   Validation (Freshness, Readiness, Proposals): the main chain as the validator of the pool,
--     checkTransactionInputs and haveSpentKeyImages of blockchain_storage.cpp.
--   Core (Semantics, Events): handle_incoming_tx and handle_incoming_block of class core
--     (src/cryptonote_core/cryptonote_core.cpp), which join the pool and the main chain, and the
--     events of a node.
--   TreeHash (Branch, and the lemmas in Leaves, Merkle, Collision, Depth, Climbing, BranchLaws,
--     Binding): tree_hash, tree_depth, tree_branch and tree_hash_from_branch of src/crypto/tree-hash.c,
--     over any hash of two hashes.
--   Tests: runs of the code at concrete inputs.
--
-- Conventions: hashes, keys, key images and signatures are numbers, as they are only compared; words
-- wrap around where the source's do, by `% 2 ^ 64` and `% 2 ^ 32`; `false` is `none`, a constructor of
-- a result type or the Boolean, whichever the caller sees; an exception or an access outside a vector
-- is a result of its own. Asserts and the log are left out. A 16-bit counter of outputs is a number,
-- since a transaction with 65536 outputs does not fit a block.
--
-- Bounds and fuel: the loops of `tree_hash` run on fuel, 4 for the bits, of which the last is the test
-- that ends the loop, and 64 for the halvings of a 64-bit count; `decompose_amount_into_digits` runs
-- on 20, the digits of a 64-bit number; `getShortChainHistory` runs on the size of the chain, since its
-- offset grows in each round. The walk through the alternative blocks has one round more than there are
-- of them, as it meets none twice while every block's hash is its own. `handle_alternative_block` calls
-- itself through the switch, on a depth of calls; what is shown of it holds for every depth and every
-- way in which it ends, the end of the depth among them. All else is recursion on the data.
--
-- Not modelled: the caches on disk, transaction extra fields and the construction of transactions, the
-- wallets, the network and the RPC server; and the cryptographic functions, which are parameters.
pub mod Common
pub mod IntUtil
pub mod Difficulty
pub mod Currency
pub mod Transaction
pub mod Checkpoints
pub mod Storage
pub mod Upgrade
pub mod BlockIndex
pub mod Blocks
pub mod Pool
pub mod Core
pub mod Validation
pub mod Reorganisation
pub mod TreeHash
pub mod Tests

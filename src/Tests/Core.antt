-- ===== src/Tests/Core.antt =====
-- Events of a node with one block and one payment in its pool.
use bytecoin.Common.{ℕ, ◌≤◌, ◌≡◌, ◌↔◌, refl, Bool, true, false, some, List, [], All, arith}
use bytecoin.Currency.{default_currency}
use bytecoin.Transaction.{PublicKey}
use bytecoin.Storage.Spending.{key_images, AreUnspent}
use bytecoin.BlockIndex.{get_block_id}
use bytecoin.Core.Events.{at, Follows, start, next, receives_tx, receives_block, Follows-IsSound}
use bytecoin.Core.{handle_incoming_tx, handle_incoming_block}
use bytecoin.Core.Semantics.{Admits, handle_incoming_tx_lem}
use bytecoin.Pool.{Pool, TransactionDetails}
use bytecoin.Pool.Calls.{add_tx}
use bytecoin.Pool.Template.{fill_block_template, is_transaction_ready_to_go}
use bytecoin.Pool.TemplateLaws.{image_weight, ids_of, Picks}
use bytecoin.Pool.Totals.{total}
use bytecoin.Reorganisation.{Chains}
use bytecoin.Reorganisation.Soundness.{IsSound}
use bytecoin.Reorganisation.Switch.{fresh_context}
use bytecoin.Tests.Pool.{
  all_valid, payment, paid, one_payment, one-IsConsistent, template_fits, block_limit,
}
use bytecoin.Tests.Reorganisation.{chains, first_entry, one_block-IsSound}
use bytecoin.Tests.World.{second, world, one_block, full_reward}
use bytecoin.Validation.{chain_validator}
use bytecoin.Validation.Proposals.{IsProposable, fill_block_template-IsProposable}
use bytecoin.Validation.Readiness.{IsSettled, is_transaction_ready_to_go-settled}

abbrev every_key : PublicKey → Bool
every_key k = true

abbrev with_tx : Chains Pool
with_tx =
    (handle_incoming_tx (at (world 100) 1_000) default_currency every_key chains 300
      (some (payment 6, 101)) true).0

abbrev with_block : Chains Pool
with_block =
    (handle_incoming_block (at (world 100) 1_010) default_currency all_valid 3 with_tx
      (second full_reward) fresh_context).0

events : Follows (world 100) default_currency every_key chains with_block
events =
    next (next start (receives_tx 1_000 300 (some (payment 6, 101)) true))
      (receives_block 1_010 all_valid 3 (second full_reward) fresh_context)

events_example : IsSound (world 100) first_entry with_block.main with_block.pool
events_example =
    Follows-IsSound (world 100) default_currency every_key first_entry chains with_block
      one_block-IsSound events

incoming_example :
    Admits
      (world 100)
      default_currency
      every_key
      chains
      (payment 6)
      false
      (handle_incoming_tx
        (world 100)
        default_currency
        every_key
        chains
        300
        (some (payment 6, 101))
        false).0
incoming_example =
    handle_incoming_tx_lem (world 100) default_currency every_key chains 300 (payment 6) 101 false
      one-IsConsistent

proposal_example :
    let (_, t) =
      fill_block_template
        (chain_validator (world 100) default_currency one_block)
        default_currency
        one_payment
        20_000
        20_000 in
    (cs : List TransactionDetails) × Picks
      (chain_validator (world 100) default_currency one_block)
      block_limit
      []
      one_payment.transactions
      cs
    × (t.tx_hashes ≡ ids_of cs)
    × All (IsProposable one_block) cs
    × ((k : ℕ) → total (image_weight k) cs ≤ 1)
unfolding add_tx
proposal_example =
    fill_block_template-IsProposable (world 100) default_currency one_block one_payment 20_000
      20_000 one-IsConsistent template_fits

-- The payment as it is once its inputs were checked with the first block.
abbrev checked : TransactionDetails
checked = record paid { max_used_block = record { height = 0; id = 1_000 } }

checked-IsSettled : IsSettled one_block checked.max_used_block
unfolding get_block_id
checked-IsSettled = record { named = λ e. omega arith; below = omega arith; there = refl }

settled_example :
    ((is_transaction_ready_to_go (chain_validator (world 100) default_currency one_block) checked).0
      ≡ true)
    ↔ AreUnspent one_block.indices.spent_keys (key_images checked.tx.vin)
settled_example =
    is_transaction_ready_to_go-settled (world 100) default_currency one_block checked
      checked-IsSettled

-- ===== src/Reorganisation/Switch.antt =====
-- `switch_to_alternative_blockchain`, `rollback_blockchain_switching`, `handle_alternative_block` and
-- `add_new_block` of src/cryptonote_core/blockchain_storage.cpp.
use bytecoin.Common.{
  ℕ, zero, suc, ◌-◌, Bool, true, false, not, Option, none, some, List, [], ◌∷◌, ◌++◌, ltb, ◌==◌,
  if◌then◌else◌, length,
}
use bytecoin.Currency.{Currency}
use bytecoin.Transaction.{Hash, Transaction}
use bytecoin.Storage.Pop.{back?}
use bytecoin.BlockIndex.{has_block, get_tail_id}
use bytecoin.Blocks.{Block, BlockEntry, Environment, PoolOperations}
use bytecoin.Blocks.Header.{added, rejected, no_difficulty, exception}
use bytecoin.Blocks.PushBlock.{push_block, pop_block, pop_block_progress, last_difficulty}
use bytecoin.Reorganisation.{
  Alternatives, Chains, BlockContext, Outcome, returned, thrown, unfinished, find_alternative,
  erase_alternatives,
}
use bytecoin.Reorganisation.Judgement.{refused, orphaned, out_of_range, endless, accepted, judge}

abbrev pub fresh_context : BlockContext
fresh_context = record {
  added_to_main_chain = false;
  verifivation_failed = false;
  marked_as_orphaned = false;
  already_exists = false;
}

-- How a loop of `pushBlock` ends: with every block added, at the first of the given ones that is not,
-- or by an exception.
pub data Connection (A : Type 0) : Type 0 where
  connected : Connection A
  stopped : List A → Connection A
  broken : Connection A

abbrev pub HandleBlock : Type 0 → Type 0
HandleBlock P = Chains P → Block → Hash → BlockContext → Chains P × BlockContext × Outcome

module _ {P : Type 0} (pool : PoolOperations P) (env : Environment) (c : Currency) where
  -- The loop of `popBlock`, with the blocks that it takes off; `none` is an exception.
  unfoldable pub disconnect : ℕ → Chains P → List Block → Option (Chains P × List Block)
  unfolding back? pop_block
  disconnect zero s chain = some (s, chain)
  disconnect (suc rounds) s chain = elim (back? s.main.blocks) [
    | none ↦ none
    | some e ↦ elim (pop_block pool env s.main s.pool) [
      | none ↦ none
      | some (main, p) ↦ disconnect rounds (record s { main = main; pool = p }) (e.bl ∷ chain)
    ]
  ]

  -- What this loop has done when it throws.
  unfoldable pub disconnect_progress : ℕ → Chains P → Chains P
  unfolding back? pop_block pop_block_progress
  disconnect_progress zero s = s
  disconnect_progress (suc rounds) s = elim (back? s.main.blocks) [
    | none ↦ s
    | some _ ↦ elim (pop_block pool env s.main s.pool) [
      | none ↦
          let (main, p) = pop_block_progress pool s.main s.pool in
          record s { main = main; pool = p }
      | some (main, p) ↦ disconnect_progress rounds (record s { main = main; pool = p })
    ]
  ]

  unfoldable pub connect : {A : Type 0} → (A → Block) → Chains P → List A → Chains P × Connection A
  unfolding push_block
  connect block_of s [] = (s, connected)
  connect block_of s (a ∷ chain) =
      let (main, p, result) = push_block pool env c s.main s.pool (block_of a) in
      let s' : Chains P = record s { main = main; pool = p } in
      elim result [
        | added ↦ connect block_of s' chain
        | rejected ↦ (s', stopped (a ∷ chain))
        | no_difficulty ↦ (s', stopped (a ∷ chain))
        | exception ↦ (s', broken)
      ]

  -- `rollback_blockchain_switching`. With the height 0 the loop would run past the first block.
  unfoldable pub rollback_blockchain_switching : Chains P → List Block → ℕ → Chains P × Outcome
  unfolding disconnect disconnect_progress connect
  rollback_blockchain_switching s original_chain rollback_height =
      if rollback_height == 0
      then (s, thrown)
      else elim (disconnect (length s.main.blocks - rollback_height) s []) [
        | none ↦ (disconnect_progress (length s.main.blocks - rollback_height) s, thrown)
        | some (s', _) ↦
            let (t, r) = connect (λ b. b) s' original_chain in
            elim r [
              | connected ↦ (t, returned true)
              | stopped _ ↦ (t, returned false)
              | broken ↦ (t, thrown)
            ]
      ]

  -- A rollback, after which `false` is returned whatever its result, and `rest` is erased.
  unfoldable pub roll_back_and_fail : Chains P → List Block → ℕ → Alternatives → Chains P × Outcome
  unfolding rollback_blockchain_switching
  roll_back_and_fail s original_chain split_height rest =
      let (t, q) = rollback_blockchain_switching s original_chain split_height in
      let t' : Chains P = record t { alternatives = erase_alternatives t.alternatives rest } in
      elim q [
        | returned _ ↦ (t', returned false)
        | thrown ↦ (t, thrown)
        | unfinished ↦ (t, unfinished)
      ]

  -- The loop that pushes the old chain as alternative blocks; `handle` is `handle_alternative_block`.
  unfoldable pub readd : HandleBlock P → Chains P → List Block → Chains P × Outcome
  readd handle s [] = (s, returned true)
  readd handle s (b ∷ chain) =
      let (t, _, q) = handle s b (env.block_hash b) fresh_context in
      elim q [
        | returned r ↦ elim r [ true ↦ readd handle t chain | false ↦ (t, returned false) ]
        | thrown ↦ (t, thrown)
        | unfinished ↦ (t, unfinished)
      ]

  -- What follows once the alternative chain is connected.
  unfoldable pub finish_switch :
      HandleBlock P → Chains P → List Block → ℕ → Alternatives → Bool → Chains P × Outcome
  unfolding readd roll_back_and_fail
  finish_switch handle s disconnected split_height alt_chain discard_disconnected_chain =
      let (t, q) =
        if discard_disconnected_chain then (s, returned true) else readd handle s disconnected in
      let t' : Chains P = record t { alternatives = erase_alternatives t.alternatives alt_chain } in
      elim q [
        | returned r ↦ elim r [
          | true ↦ (t', returned true)
          | false ↦ roll_back_and_fail t disconnected split_height []
        ]
        | thrown ↦ (t, thrown)
        | unfinished ↦ (t, unfinished)
      ]

  unfoldable pub switch_at : HandleBlock P → Chains P → ℕ → Alternatives → Bool → Chains P × Outcome
  unfolding disconnect disconnect_progress connect finish_switch roll_back_and_fail
  switch_at handle s split_height alt_chain discard =
      elim (disconnect (length s.main.blocks - split_height) s []) [
        | none ↦ (disconnect_progress (length s.main.blocks - split_height) s, thrown)
        | some (s', old) ↦
            let (t, r) = connect (λ (x : Hash × BlockEntry). x.1.bl) s' alt_chain in
            elim r [
              | connected ↦ finish_switch handle t old split_height alt_chain discard
              | stopped rest ↦ roll_back_and_fail t old split_height rest
              | broken ↦ (t, thrown)
            ]
      ]

  unfoldable pub switch_to_alternative_blockchain :
      HandleBlock P → Chains P → Alternatives → Bool → Chains P × Outcome
  unfolding switch_at
  switch_to_alternative_blockchain handle s [] discard = (s, returned false)
  switch_to_alternative_blockchain handle s ((h, e) ∷ chain) discard =
      if not (ltb e.height (length s.main.blocks))
      then (s, returned false)
      else if e.height == 0
      then (s, thrown)
      else switch_at handle s e.height ((h, e) ∷ chain) discard

  -- `if (r) bvc.m_added_to_main_chain = true; else bvc.m_verifivation_failed = true; return r`.
  abbrev pub after_switch : BlockContext → Chains P × Outcome → Chains P × BlockContext × Outcome
  after_switch bvc (s, returned true) =
      (s, record bvc { added_to_main_chain = true }, returned true)
  after_switch bvc (s, returned false) =
      (s, record bvc { verifivation_failed = true }, returned false)
  after_switch bvc (s, thrown) = (s, bvc, thrown)
  after_switch bvc (s, unfinished) = (s, bvc, unfinished)

  -- The insertion of the new entry, and the switch where the block is a checkpoint or has the greater
  -- difficulty behind it.
  unfoldable pub insert_alternative :
      HandleBlock P
      → Chains P
      → Hash
      → BlockContext
      → BlockEntry
      → Alternatives
      → Bool
      → Chains P × BlockContext × Outcome
  unfolding switch_to_alternative_blockchain
  insert_alternative handle s id bvc entry chain is_a_checkpoint =
      let alt_chain = chain ++ (id, entry) ∷ [] in
      let s' : Chains P = record s { alternatives = (id, entry) ∷ s.alternatives } in
      elim (find_alternative id s.alternatives) [
        | some _ ↦ (s, bvc, returned false)
        | none ↦
            if is_a_checkpoint
            then after_switch bvc (switch_to_alternative_blockchain handle s' alt_chain true)
            else if ltb (last_difficulty s.main.blocks) entry.cumulative_difficulty
            then after_switch bvc (switch_to_alternative_blockchain handle s' alt_chain false)
            else (s', bvc, returned true)
      ]

  abbrev pub reset_zone : Chains P → Chains P
  reset_zone s = record s { main = record s.main { is_in_checkpoint_zone = false } }

  module _ (find_tx : P → Hash → Option Transaction) where
    -- `handle_alternative_block`. It calls itself through the switch for the blocks of the old chain;
    -- the first argument bounds the depth of these calls.
    unfoldable pub handle_alternative_block : ℕ → HandleBlock P
    unfolding judge insert_alternative
    handle_alternative_block zero s b id bvc = (s, bvc, unfinished)
    handle_alternative_block (suc depth) s b id bvc =
        elim (judge env c s.main b id (find_tx s.pool) s.alternatives) [
          | refused reset fails ↦ (
            if reset then reset_zone s else s,
            if fails then record bvc { verifivation_failed = true } else bvc,
            returned false,
          )
          | orphaned ↦ (s, record bvc { marked_as_orphaned = true }, returned true)
          | out_of_range ↦ (s, bvc, thrown)
          | endless ↦ (s, bvc, unfinished)
          | accepted entry chain is_a_checkpoint ↦
              insert_alternative (handle_alternative_block depth) (reset_zone s) id bvc entry chain
                is_a_checkpoint
        ]

    unfoldable pub have_block : Chains P → Hash → Bool
    have_block s id =
        if has_block s.main.block_index id
        then true
        else elim (find_alternative id s.alternatives) [ none ↦ false | some _ ↦ true ]

    -- A block on top of the main chain.
    unfoldable pub add_to_tail : Chains P → Block → BlockContext → Chains P × BlockContext × Outcome
    unfolding push_block
    add_to_tail s b bvc =
        let (main, p, result) = push_block pool env c s.main s.pool b in
        let s' : Chains P = record s { main = main; pool = p } in
        elim result [
          | added ↦ (s', record bvc { added_to_main_chain = true }, returned true)
          | rejected ↦ (s', record bvc { verifivation_failed = true }, returned false)
          | no_difficulty ↦ (s', bvc, returned false)
          | exception ↦ (s', bvc, thrown)
        ]

    unfoldable pub add_new_block :
        ℕ → Chains P → Block → BlockContext → Chains P × BlockContext × Outcome
    unfolding have_block handle_alternative_block add_to_tail
    add_new_block depth s b bvc =
        let id = env.block_hash b in
        if have_block s id
        then (s, record bvc { already_exists = true }, returned false)
        else if not (b.prev_id == get_tail_id s.main.block_index)
        then handle_alternative_block depth s b id (record bvc { added_to_main_chain = false })
        else add_to_tail s b bvc

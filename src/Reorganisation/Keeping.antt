-- ===== src/Reorganisation/Keeping.antt =====
-- What `add_new_block` keeps, with every switch and rollback on its way: a property of the main chain
-- and the pool that pushing a block keeps, popping one that is not the first, and resetting the
-- checkpoint zone.
use bytecoin.Common.{
  ℕ, zero, suc, ◌-◌, ◌<◌, ◌≡◌, inl, inr, Option, some, Bool, true, false, List, [], ◌∷◌, ◌++◌,
  length, ltb, ◌==◌, if◌then◌else◌, arith, Bool-cases, Option-cases,
}
use bytecoin.Currency.{Currency}
use bytecoin.Transaction.{Hash, Transaction}
use bytecoin.Storage.Pop.{back?, pop_back}
use bytecoin.BlockIndex.{get_tail_id}
use bytecoin.Blocks.{Block, Blockchain, BlockEntry, Environment, PoolOperations}
use bytecoin.Blocks.PushBlock.{push_block, pop_block, pop_block_progress, last_difficulty}
use bytecoin.Reorganisation.{
  Alternatives, Chains, BlockContext, Outcome, returned, thrown, unfinished, find_alternative,
}
use bytecoin.Reorganisation.Judgement.{judge}
use bytecoin.Reorganisation.Switch.{
  HandleBlock, fresh_context, disconnect, connect, readd, finish_switch, switch_at,
  switch_to_alternative_blockchain, after_switch, insert_alternative, reset_zone,
  handle_alternative_block, have_block, add_to_tail, add_new_block,
}
use bytecoin.Reorganisation.Endings.{
  BlockResult-cases, Connection-cases, Outcome-cases, Judgement-cases,
}
use bytecoin.Reorganisation.Rollback.{
  disconnect-Holds, disconnect_progress-Holds, connect-Holds, roll_back_and_fail-Holds,
}

module _ {P : Type 0} (pool : PoolOperations P) (env : Environment) (c : Currency)
    (I : Blockchain → P → Type 0)
    (pushes : (s : Blockchain) (p : P) (b : Block)
      → I s p
      → I (push_block pool env c s p b).0 (push_block pool env c s p b).1)
    (pops : (s s' : Blockchain) (p p' : P) (x : BlockEntry)
      → I s p
      → 1 < length s.blocks
      → back? s.blocks ≡ some x
      → pop_block pool env s p ≡ some (s', p')
      → I s' p' × (s'.blocks ≡ pop_back s.blocks))
    (halts : (s : Blockchain) (p : P) (x : BlockEntry)
      → I s p
      → back? s.blocks ≡ some x
      → I (pop_block_progress pool s p).0 (pop_block_progress pool s p).1)
    (resets : (s : Blockchain) (p : P)
      → I s p
      → I (record s { is_in_checkpoint_zone = false }) p) where
  abbrev Holds : Chains P → Type 0
  Holds s = I s.main s.pool

  -- What the calls of `handle_alternative_block` keep.
  abbrev Handles : HandleBlock P → Type 0
  Handles handle =
      (s : Chains P) (b : Block) (id : Hash) (bvc : BlockContext)
      → Holds s
      → Holds (handle s b id bvc).0

  module _ (handle : HandleBlock P) (handles : Handles handle) where
    readd-Holds :
        (chain : List Block) (s : Chains P) → Holds s → Holds (readd pool env c handle s chain).0
    unfolding readd
    readd-Holds [] s h = h
    readd-Holds (b ∷ chain) s h =
        let r = handle s b (env.block_hash b) fresh_context in
        let next = handles s b (env.block_hash b) fresh_context h in
        elim (Outcome-cases r.2) [
          | inl (true, e) ↦ rw (e, readd) (readd-Holds chain r.0 next)
          | inl (false, e) ↦ rw (e, readd) next
          | inr (inl e) ↦ rw (e, readd) next
          | inr (inr e) ↦ rw (e, readd) next
        ]

    finish_switch-Holds :
        (s : Chains P) (old : List Block) (height : ℕ) (chain : Alternatives) (discard : Bool)
        → Holds s
        → Holds (finish_switch pool env c handle s old height chain discard).0
    unfolding finish_switch
    finish_switch-Holds s old height chain true h = h
    finish_switch-Holds s old height chain false h =
        let t = readd pool env c handle s old in
        let next = readd-Holds old s h in
        elim (Outcome-cases t.1) [
          | inl (true, e) ↦ rw (e, finish_switch) next
          | inl (false, e) ↦
              rw (e, finish_switch)
                (roll_back_and_fail-Holds pool env c I pushes pops halts t.0 old height [] next)
          | inr (inl e) ↦ rw (e, finish_switch) next
          | inr (inr e) ↦ rw (e, finish_switch) next
        ]

    switch_at-Holds :
        (s : Chains P) (height : ℕ) (chain : Alternatives) (discard : Bool)
        → Holds s
        → 0 < height
        → height < length s.main.blocks
        → Holds (switch_at pool env c handle s height chain discard).0
    unfolding switch_at
    switch_at-Holds s height chain discard h pos l =
        elim (Option-cases (disconnect pool env c (length s.main.blocks - height) s [])) [
          | inl n ↦
              rw (n, switch_at)
                (disconnect_progress-Holds pool env c I pushes pops halts
                  (length s.main.blocks - height) s h (inr (omega (arith, pos, l))))
          | inr ((s', old), n) ↦
              let popped =
                disconnect-Holds pool env c I pushes pops halts (length s.main.blocks - height) s s'
                  [] old h (inr (omega (arith, pos, l))) n in
              let block_of : Hash × BlockEntry → Block = λ x. x.1.bl in
              let next = connect-Holds pool env c I pushes pops halts block_of chain s' popped in
              let t = (connect pool env c block_of s' chain).0 in
              elim (Connection-cases (connect pool env c block_of s' chain).1) [
                | inl e ↦
                    rw (n, switch_at) (rw e (finish_switch-Holds t old height chain discard next))
                | inr (inl (rest, e)) ↦
                    rw (n, switch_at)
                      (rw e (
                        roll_back_and_fail-Holds pool env c I pushes pops halts t old height rest
                          next))
                | inr (inr e) ↦ rw (n, switch_at) (rw e next)
              ]
        ]

    switch-Holds :
        (s : Chains P) (chain : Alternatives) (discard : Bool)
        → Holds s
        → Holds (switch_to_alternative_blockchain pool env c handle s chain discard).0
    unfolding switch_to_alternative_blockchain
    switch-Holds s [] discard h = h
    switch-Holds s ((i, e) ∷ chain) discard h =
        elim (Bool-cases (ltb e.height (length s.main.blocks))) [
          | inr l ↦ rw l h
          | inl l ↦ elim (Bool-cases (e.height == 0)) [
            | inl z ↦ rw (l, z) h
            | inr z ↦
                rw (l, z)
                  (switch_at-Holds s e.height ((i, e) ∷ chain) discard h (ground arith)
                    (ground arith))
          ]
        ]

    after_switch-Holds :
        (bvc : BlockContext) (r : Chains P × Outcome)
        → Holds r.0
        → Holds (after_switch pool env c bvc r).0
    after_switch-Holds bvc (s, returned true) h = h
    after_switch-Holds bvc (s, returned false) h = h
    after_switch-Holds bvc (s, thrown) h = h
    after_switch-Holds bvc (s, unfinished) h = h

    insert_alternative-Holds :
        (s : Chains P) (id : Hash) (bvc : BlockContext) (entry : BlockEntry) (chain : Alternatives)
        (is_a_checkpoint : Bool)
        → Holds s
        → Holds (insert_alternative pool env c handle s id bvc entry chain is_a_checkpoint).0
    unfolding insert_alternative
    insert_alternative-Holds s id bvc entry chain is_a_checkpoint h =
        let s' : Chains P = record s { alternatives = (id, entry) ∷ s.alternatives } in
        let alt_chain = chain ++ (id, entry) ∷ [] in
        elim (Option-cases (find_alternative id s.alternatives)) [
          | inr (x, f) ↦ rw (f, insert_alternative) h
          | inl f ↦ elim (Bool-cases is_a_checkpoint) [
            | inl k ↦
                rw (f, insert_alternative)
                  (rw k (
                    after_switch-Holds bvc
                      (switch_to_alternative_blockchain pool env c handle s' alt_chain true)
                      (switch-Holds s' alt_chain true h)))
            | inr k ↦
                elim (Bool-cases
                  (ltb (last_difficulty s.main.blocks) entry.cumulative_difficulty)) [
                    | inl d ↦
                        rw (f, insert_alternative)
                          (rw (k, d)
                            (after_switch-Holds bvc
                              (switch_to_alternative_blockchain pool env c handle s' alt_chain
                                false)
                              (switch-Holds s' alt_chain false h)))
                    | inr d ↦ rw (f, insert_alternative) (rw (k, d) h)
                  ]
          ]
        ]

  module _ (find_tx : P → Hash → Option Transaction) where
    handle_alternative_block-Holds :
        (depth : ℕ) → Handles (handle_alternative_block pool env c find_tx depth)
    unfolding handle_alternative_block
    handle_alternative_block-Holds zero s b id bvc h = h
    handle_alternative_block-Holds (suc depth) s b id bvc h =
        let reset = resets s.main s.pool h in
        elim (Judgement-cases (judge env c s.main b id (find_tx s.pool) s.alternatives)) [
          | inl (z, f, e) ↦ rw (e, handle_alternative_block) (by_reset z h reset)
          | inr (inl e) ↦ rw (e, handle_alternative_block) h
          | inr (inr (inl e)) ↦ rw (e, handle_alternative_block) h
          | inr (inr (inr (inl e))) ↦ rw (e, handle_alternative_block) h
          | inr (inr (inr (inr (entry, chain, k, e)))) ↦
              rw (e, handle_alternative_block)
                (insert_alternative-Holds (handle_alternative_block pool env c find_tx depth)
                  (handle_alternative_block-Holds depth) (reset_zone pool env c s) id bvc entry
                  chain k reset)
        ]
      where
        by_reset :
            (z : Bool)
            → Holds s
            → Holds (reset_zone pool env c s)
            → Holds (if z then reset_zone pool env c s else s)
        by_reset true h r = r
        by_reset false h r = h

    pub add_new_block-Holds :
        (depth : ℕ) (s : Chains P) (b : Block) (bvc : BlockContext)
        → Holds s
        → Holds (add_new_block pool env c find_tx depth s b bvc).0
    unfolding add_new_block add_to_tail
    add_new_block-Holds depth s b bvc h =
        elim (Bool-cases (have_block pool env c find_tx s (env.block_hash b))) [
          | inl k ↦ rw k h
          | inr k ↦ elim (Bool-cases (b.prev_id == get_tail_id s.main.block_index)) [
            | inr t ↦
                rw (k, t)
                  (handle_alternative_block-Holds depth s b (env.block_hash b)
                    (record bvc { added_to_main_chain = false }) h)
            | inl t ↦
                let next = pushes s.main s.pool b h in
                elim (BlockResult-cases (push_block pool env c s.main s.pool b).2) [
                  | inl e ↦ rw (k, t) (rw (e, add_to_tail) next)
                  | inr (inl e) ↦ rw (k, t) (rw (e, add_to_tail) next)
                  | inr (inr (inl e)) ↦ rw (k, t) (rw (e, add_to_tail) next)
                  | inr (inr (inr e)) ↦ rw (k, t) (rw (e, add_to_tail) next)
                ]
          ]
        ]

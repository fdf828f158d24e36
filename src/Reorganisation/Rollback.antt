-- ===== src/Reorganisation/Rollback.antt =====
-- What taking blocks off the main chain, pushing others and the rollback keep.
use bytecoin.Common.{
  ℕ, zero, suc, ◌-◌, ◌<◌, ◌≡◌, ap, ◌∙◌, subst, ◌⊎◌, inl, inr, some, List, [], ◌∷◌, length, ◌==◌,
  arith, Bool-cases, Option-cases,
}
use bytecoin.Currency.{Currency}
use bytecoin.Storage.Pop.{back?, pop_back}
use bytecoin.Blocks.{Block, Blockchain, BlockEntry, Environment, PoolOperations}
use bytecoin.Blocks.PushBlock.{push_block, pop_block, pop_block_progress}
use bytecoin.Reorganisation.{Alternatives, Chains}
use bytecoin.Reorganisation.Switch.{
  disconnect, disconnect_progress, connect, rollback_blockchain_switching, roll_back_and_fail,
}
use bytecoin.Reorganisation.Endings.{BlockResult-cases, Connection-cases, Outcome-cases}

module _ {P : Type 0} (pool : PoolOperations P) (env : Environment) (c : Currency)
    (I : Blockchain → P → Type 0)
    (pushes : (s : Blockchain) (p : P) (b : Block)
      → I s p
      → I (push_block pool env c s p b).0 (push_block pool env c s p b).1)
    (pops : (s s' : Blockchain) (p p' : P) (x : BlockEntry)
      → I s p
      → 1 < length s.blocks
      → back? s.blocks ≡ some x
      → pop_block pool env s p ≡ some (s', p')
      → I s' p' × (s'.blocks ≡ pop_back s.blocks))
    (halts : (s : Blockchain) (p : P) (x : BlockEntry)
      → I s p
      → back? s.blocks ≡ some x
      → I (pop_block_progress pool s p).0 (pop_block_progress pool s p).1) where
  abbrev Holds : Chains P → Type 0
  Holds s = I s.main s.pool

  length-pop_back : (xs : List BlockEntry) → length (pop_back xs) ≡ length xs - 1
  unfolding pop_back
  length-pop_back [] = omega arith
  length-pop_back (x ∷ []) = omega arith
  length-pop_back (x ∷ y ∷ xs) = omega (arith, length-pop_back (y ∷ xs))

  -- Blocks are popped while one is left below them.
  pub disconnect-Holds :
      (rounds : ℕ) (s t : Chains P) (chain old : List Block)
      → Holds s
      → (rounds ≡ 0) ⊎ (rounds < length s.main.blocks)
      → disconnect pool env c rounds s chain ≡ some (t, old)
      → Holds t
  unfolding disconnect
  disconnect-Holds zero s t chain old h l e = let same : s ≡ t = cc e in subst Holds same h
  disconnect-Holds (suc rounds) s t chain old h l e = elim (Option-cases (back? s.main.blocks)) [
    | inl n ↦ cc (rw (n, disconnect) at e)
    | inr (x, f) ↦ elim (Option-cases (pop_block pool env s.main s.pool)) [
      | inl n ↦ cc (rw n at (rw (f, disconnect) at e))
      | inr ((main, p), n) ↦
          let left : suc rounds < length s.main.blocks = ground arith in
          let (next, blocks) = pops s.main main s.pool p x h (omega (arith, left)) f n in
          let shorter =
            ap (λ (l : List BlockEntry). length l) blocks ∙ length-pop_back s.main.blocks in
          disconnect-Holds rounds (record s { main = main; pool = p }) t (x.bl ∷ chain) old next
            (inr (omega (arith, left, shorter))) (rw n at (rw (f, disconnect) at e))
    ]
  ]

  pub disconnect_progress-Holds :
      (rounds : ℕ) (s : Chains P)
      → Holds s
      → (rounds ≡ 0) ⊎ (rounds < length s.main.blocks)
      → Holds (disconnect_progress pool env c rounds s)
  unfolding disconnect_progress
  disconnect_progress-Holds zero s h l = h
  disconnect_progress-Holds (suc rounds) s h l = elim (Option-cases (back? s.main.blocks)) [
    | inl n ↦ rw (n, disconnect_progress) h
    | inr (x, f) ↦ elim (Option-cases (pop_block pool env s.main s.pool)) [
      | inl n ↦ rw (f, disconnect_progress) (rw n (halts s.main s.pool x h f))
      | inr ((main, p), n) ↦
          let left : suc rounds < length s.main.blocks = ground arith in
          let (next, blocks) = pops s.main main s.pool p x h (omega (arith, left)) f n in
          let shorter =
            ap (λ (l : List BlockEntry). length l) blocks ∙ length-pop_back s.main.blocks in
          rw (f, disconnect_progress)
            (rw n (
              disconnect_progress-Holds rounds (record s { main = main; pool = p }) next
                (inr (omega (arith, left, shorter)))))
    ]
  ]

  pub connect-Holds :
      {A : Type 0} (block_of : A → Block) (chain : List A) (s : Chains P)
      → Holds s
      → Holds (connect pool env c block_of s chain).0
  unfolding connect
  connect-Holds block_of [] s h = h
  connect-Holds block_of (a ∷ chain) s h =
      let r = push_block pool env c s.main s.pool (block_of a) in
      let next = pushes s.main s.pool (block_of a) h in
      elim (BlockResult-cases r.2) [
        | inl e ↦
            rw (e, connect)
              (connect-Holds block_of chain (record s { main = r.0; pool = r.1 }) next)
        | inr (inl e) ↦ rw (e, connect) next
        | inr (inr (inl e)) ↦ rw (e, connect) next
        | inr (inr (inr e)) ↦ rw (e, connect) next
      ]

  rollback-Holds :
      (s : Chains P) (chain : List Block) (height : ℕ)
      → Holds s
      → Holds (rollback_blockchain_switching pool env c s chain height).0
  unfolding rollback_blockchain_switching
  rollback-Holds s chain height h = elim (Bool-cases (height == 0)) [
    | inl z ↦ rw z h
    | inr z ↦ elim (Option-cases (disconnect pool env c (length s.main.blocks - height) s [])) [
      | inl n ↦
          rw (z, n) (disconnect_progress-Holds (length s.main.blocks - height) s h (ground arith))
      | inr ((s', old), n) ↦
          let popped =
            disconnect-Holds (length s.main.blocks - height) s s' [] old h (ground arith) n in
          let next = connect-Holds (λ b. b) chain s' popped in
          elim (Connection-cases (connect pool env c (λ b. b) s' chain).1) [
            | inl e ↦ rw (z, n) (rw e next)
            | inr (inl (l, e)) ↦ rw (z, n) (rw e next)
            | inr (inr e) ↦ rw (z, n) (rw e next)
          ]
    ]
  ]

  pub roll_back_and_fail-Holds :
      (s : Chains P) (chain : List Block) (height : ℕ) (rest : Alternatives)
      → Holds s
      → Holds (roll_back_and_fail pool env c s chain height rest).0
  unfolding roll_back_and_fail
  roll_back_and_fail-Holds s chain height rest h =
      let next = rollback-Holds s chain height h in
      elim (Outcome-cases (rollback_blockchain_switching pool env c s chain height).1) [
        | inl (r, e) ↦ rw (e, roll_back_and_fail) next
        | inr (inl e) ↦ rw (e, roll_back_and_fail) next
        | inr (inr e) ↦ rw (e, roll_back_and_fail) next
      ]

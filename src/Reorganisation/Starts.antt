-- ===== src/Reorganisation/Starts.antt =====
-- The blocks below the height to which the chain is cut, whichever way a switch or a rollback of
-- src/cryptonote_core/blockchain_storage.cpp ends.
use bytecoin.Common.{
  ℕ, zero, suc, ◌+◌, ◌-◌, ◌≤◌, ◌≡◌, refl, sym, ap, ◌∙◌, inl, inr, some, List, [], ◌∷◌, ◌++◌, length,
  take, ◌==◌, arith, Bool-cases, Option-cases, append_assoc, append-nil, length-append,
}
use bytecoin.Currency.{Currency}
use bytecoin.Storage.Pop.{back?}
use bytecoin.Blocks.{Block, Blockchain, BlockEntry, Environment, PoolOperations}
use bytecoin.Blocks.PushBlock.{pop_block, pop_block_progress}
use bytecoin.Reorganisation.{Chains}
use bytecoin.Reorganisation.Endings.{Connection-cases}
use bytecoin.Reorganisation.Result.{
  bodies, bodies-append, length-bodies, split-back, pop_block-blocks, disconnect_lem, connect_lem,
}
use bytecoin.Reorganisation.Switch.{
  disconnect, disconnect_progress, connect, rollback_blockchain_switching,
}

-- `t` has the same blocks as `s` below the height.
abbrev pub Starts : {P : Type 0} → ℕ → Chains P → Chains P → Type 0
Starts height s t = take height (bodies t.main.blocks) ≡ take height (bodies s.main.blocks)

take-append {ℓ} :
    {A : Type ℓ} (n : ℕ) (xs ys : List A) → n ≤ length xs → take n (xs ++ ys) ≡ take n xs
take-append zero xs ys l = refl
take-append (suc n) [] ys l = absurd (omega arith)
take-append (suc n) (x ∷ xs) ys l = ap (λ r. x ∷ r) (take-append n xs ys (omega arith))

-- A chain with further blocks on top.
pub longer-Starts :
    {P : Type 0} (height : ℕ) (s t : Chains P) (zs : List Block)
    → height ≤ length s.main.blocks
    → bodies t.main.blocks ≡ bodies s.main.blocks ++ zs
    → Starts height s t
longer-Starts height s t zs l grown =
    ap (take height) grown
    ∙ take-append height (bodies s.main.blocks) zs (omega (arith, length-bodies s.main.blocks))

module _ {P : Type 0} (pool : PoolOperations P) (env : Environment) (c : Currency) where
  pop_block_progress-blocks :
      (s : Blockchain) (p : P) → (pop_block_progress pool s p).0.blocks ≡ s.blocks
  unfolding pop_block_progress
  pop_block_progress-blocks s p = elim (Option-cases (back? s.blocks)) [
    | inl n ↦ rw (n, pop_block_progress) refl
    | inr (e, n) ↦ rw (n, pop_block_progress) refl
  ]

  -- What an exception has left of the blocks, and those that were taken off before it.
  disconnect_progress_lem :
      (rounds : ℕ) (s : Chains P)
      → (ys : List Block) × (bodies s.main.blocks
          ≡ bodies (disconnect_progress pool env c rounds s).main.blocks ++ ys)
        × (length s.main.blocks
            ≤ length (disconnect_progress pool env c rounds s).main.blocks + rounds)
  unfolding disconnect_progress
  disconnect_progress_lem zero s = ([], sym (append-nil _), omega arith)
  disconnect_progress_lem (suc rounds) s = elim (Option-cases (back? s.main.blocks)) [
    | inl n ↦ rw (n, disconnect_progress) ([], sym (append-nil _), omega arith)
    | inr (x, f) ↦ elim (Option-cases (pop_block pool env s.main s.pool)) [
      | inl n ↦
          let same = pop_block_progress-blocks s.main s.pool in
          rw (f, disconnect_progress)
            (rw n (
              [],
              ap bodies (sym same) ∙ sym (append-nil _),
              omega (arith, ap (λ (l : List BlockEntry). length l) same),
            ))
      | inr ((main, p), n) ↦
          let blocks = pop_block-blocks pool env c s.main main s.pool p x f n in
          let whole = ap (λ l. l ++ x ∷ []) blocks ∙ split-back s.main.blocks f in
          let (ys, parts, count) =
            disconnect_progress_lem rounds (record s { main = main; pool = p }) in
          rw (f, disconnect_progress)
            (rw n (
              ys ++ x.bl ∷ [],
              sym (ap bodies whole)
                  ∙ bodies-append main.blocks (x ∷ [])
                  ∙ ap (λ l. l ++ x.bl ∷ []) parts
                  ∙ append_assoc _ ys (x.bl ∷ []),
              omega (
                arith,
                count,
                ap (λ (l : List BlockEntry). length l) whole,
                length-append main.blocks (x ∷ []),
              ),
            ))
    ]
  ]

  pub disconnect_progress-Starts :
      (height : ℕ) (s : Chains P)
      → height ≤ length s.main.blocks
      → Starts height s (disconnect_progress pool env c (length s.main.blocks - height) s)
  disconnect_progress-Starts height s l =
      let (ys, parts, count) = disconnect_progress_lem (length s.main.blocks - height) s in
      sym (
        longer-Starts height (disconnect_progress pool env c (length s.main.blocks - height) s) s ys
          (omega (arith, l, count)) parts)

  pub disconnect-Starts :
      (height : ℕ) (s u : Chains P) (old : List Block)
      → height ≤ length s.main.blocks
      → disconnect pool env c (length s.main.blocks - height) s [] ≡ some (u, old)
      → Starts height s u
  disconnect-Starts height s u old l n =
      let (whole, count) = disconnect_lem pool env c (length s.main.blocks - height) s u [] old n in
      sym (longer-Starts height u s old (omega (arith, l, count)) (sym (append-nil _) ∙ whole))

  pub rollback_blockchain_switching-Starts :
      (height : ℕ) (s : Chains P) (chain : List Block)
      → height ≤ length s.main.blocks
      → Starts height s (rollback_blockchain_switching pool env c s chain height).0
  unfolding rollback_blockchain_switching
  rollback_blockchain_switching-Starts height s chain l = elim (Bool-cases (height == 0)) [
    | inl z ↦ rw z refl
    | inr z ↦ elim (Option-cases (disconnect pool env c (length s.main.blocks - height) s [])) [
      | inl n ↦ rw (z, n) (disconnect_progress-Starts height s l)
      | inr ((u, old), n) ↦
          let (whole, count) =
            disconnect_lem pool env c (length s.main.blocks - height) s u [] old n in
          let r = connect pool env c (λ b. b) u chain in
          let (zs, ws, grown, _, _) = connect_lem pool env c (λ b. b) chain u in
          let kept =
            longer-Starts height u r.0 zs (omega (arith, l, count)) grown
            ∙ disconnect-Starts height s u old l n in
          elim (Connection-cases r.1) [
            | inl k ↦ rw (z, n) (rw k kept)
            | inr (inl (y, k)) ↦ rw (z, n) (rw k kept)
            | inr (inr k) ↦ rw (z, n) (rw k kept)
          ]
    ]
  ]

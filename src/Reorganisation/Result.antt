-- ===== src/Reorganisation/Result.antt =====
-- The blocks of the main chain after a switch and after a rollback.
use bytecoin.Common.{
  ℕ, zero, suc, ◌+◌, ◌-◌, ◌≤◌, ◌≡◌, ◌≢◌, refl, sym, ap, ◌∙◌, inl, inr, some, Bool, true, false,
  List, [], ◌∷◌, ◌++◌, length, take, map, ◌==◌, arith, Bool-cases, Option-cases, append_assoc,
  append-nil, length-append,
}
use bytecoin.Currency.{Currency}
use bytecoin.Storage.Pop.{back?, pop_back}
use bytecoin.Blocks.{Block, Blockchain, BlockEntry, Environment, PoolOperations}
use bytecoin.Blocks.Header.{added}
use bytecoin.Blocks.PushBlock.{pop_transactions, push_block, pop_block, moved_of, after_miner}
use bytecoin.Blocks.PushLaws.{push_block-added}
use bytecoin.Blocks.Unchanged.{push_block-unchanged}
use bytecoin.Reorganisation.{Chains, returned}
use bytecoin.Reorganisation.Endings.{BlockResult-cases, Connection-cases}
use bytecoin.Reorganisation.Switch.{connected, disconnect, connect, rollback_blockchain_switching}

abbrev pub bodies : List BlockEntry → List Block
bodies [] = []
bodies (e ∷ blocks) = e.bl ∷ bodies blocks

pub bodies-append : (xs ys : List BlockEntry) → bodies (xs ++ ys) ≡ bodies xs ++ bodies ys
bodies-append [] ys = refl
bodies-append (x ∷ xs) ys = ap (λ l. x.bl ∷ l) (bodies-append xs ys)

pub length-bodies : (xs : List BlockEntry) → length (bodies xs) ≡ length xs
length-bodies [] = refl
length-bodies (x ∷ xs) = omega (arith, length-bodies xs)

pub split-back :
    (xs : List BlockEntry) {x : BlockEntry} → back? xs ≡ some x → pop_back xs ++ x ∷ [] ≡ xs
unfolding back? pop_back
split-back [] e = cc
split-back (y ∷ []) {x} e = let same : y ≡ x = cc e in rw same
split-back (y ∷ z ∷ xs) e = ap (λ l. y ∷ l) (split-back (z ∷ xs) e)

pub take-length-append {ℓ} :
    {A : Type ℓ} (xs ys : List A) (n : ℕ) → length xs ≡ n → take n (xs ++ ys) ≡ xs
take-length-append [] ys zero e = refl
take-length-append [] ys (suc n) e = absurd (omega arith)
take-length-append (x ∷ xs) ys zero e = absurd (omega arith)
take-length-append (x ∷ xs) ys (suc n) e =
    ap (λ l. x ∷ l) (take-length-append xs ys n (omega (arith, e)))

map_self {ℓ} : {A : Type ℓ} (xs : List A) → map (λ x. x) xs ≡ xs
map_self [] = refl
map_self (x ∷ xs) = ap (λ l. x ∷ l) (map_self xs)

module _ {P : Type 0} (pool : PoolOperations P) (env : Environment) (c : Currency) where
  pub pop_block-blocks :
      (s s' : Blockchain) (p q : P) (x : BlockEntry)
      → back? s.blocks ≡ some x
      → pop_block pool env s p ≡ some (s', q)
      → s'.blocks ≡ pop_back s.blocks
  unfolding pop_block
  pop_block-blocks s s' p q x f e =
      let moved = moved_of x.bl.tx_hashes (after_miner x.transactions) [] in
      elim (Option-cases (
        pop_transactions pool s.indices p moved x.bl.miner_tx
          (env.transaction_hash x.bl.miner_tx))) [
            | inl n ↦ cc (rw n at (rw (f, pop_block) at e))
            | inr (r, n) ↦ cc (rw n at (rw (f, pop_block) at e))
          ]

  -- The blocks that are left and those that were taken off are those that there were.
  pub disconnect_lem :
      (rounds : ℕ) (s t : Chains P) (chain old : List Block)
      → disconnect pool env c rounds s chain ≡ some (t, old)
      → (bodies s.main.blocks ++ chain ≡ bodies t.main.blocks ++ old)
        × (length t.main.blocks + rounds ≡ length s.main.blocks)
  unfolding disconnect
  disconnect_lem zero s t chain old e =
      let same : s ≡ t = cc e in
      let same' : chain ≡ old = cc e in rw (same, same') (refl, omega arith)
  disconnect_lem (suc rounds) s t chain old e = elim (Option-cases (back? s.main.blocks)) [
    | inl n ↦ cc (rw (n, disconnect) at e)
    | inr (x, f) ↦ elim (Option-cases (pop_block pool env s.main s.pool)) [
      | inl n ↦ cc (rw n at (rw (f, disconnect) at e))
      | inr ((main, p), n) ↦
          let blocks = pop_block-blocks s.main main s.pool p x f n in
          let whole = ap (λ l. l ++ x ∷ []) blocks ∙ split-back s.main.blocks f in
          let (rest, count) =
            disconnect_lem rounds (record s { main = main; pool = p }) t (x.bl ∷ chain) old
              (rw n at (rw (f, disconnect) at e)) in
          (
            ap (λ l. l ++ chain) (sym (ap bodies whole) ∙ bodies-append main.blocks (x ∷ []))
                ∙ append_assoc (bodies main.blocks) (x.bl ∷ []) chain
                ∙ rest,
            omega (
              arith,
              count,
              ap (λ (l : List BlockEntry). length l) whole,
              length-append main.blocks (x ∷ []),
            ),
          )
    ]
  ]

  -- However the loop ends, it adds the first of the blocks, and all of them where it says so.
  pub connect_lem :
      {A : Type 0} (block_of : A → Block) (chain : List A) (s : Chains P)
      → (zs : List Block) × (ws : List Block) × (bodies
            (connect pool env c block_of s chain).0.main.blocks
          ≡ bodies s.main.blocks ++ zs)
        × (map block_of chain ≡ zs ++ ws)
        × ((connect pool env c block_of s chain).1 ≡ connected → ws ≡ [])
  unfolding connect
  connect_lem block_of [] s = ([], [], sym (append-nil _), refl, λ _. refl)
  connect_lem block_of (a ∷ chain) s =
      let r = push_block pool env c s.main s.pool (block_of a) in
      let stays = unchanged s (block_of a) in
      elim (BlockResult-cases r.2) [
        | inl k ↦
            let (_, (x, (blocks, _, same, _, _))) =
              push_block-added pool env c s.main s.pool (block_of a) k in
            let (zs, ws, more, parts, all) =
              connect_lem block_of chain (record s { main = r.0; pool = r.1 }) in
            let grown =
              more
              ∙ rw
                  (ap bodies blocks
                    ∙ bodies-append s.main.blocks (x ∷ [])
                    ∙ ap (λ y. bodies s.main.blocks ++ y ∷ []) same)
                  (append_assoc (bodies s.main.blocks) (block_of a ∷ []) zs) in
            rw (k, connect) (block_of a ∷ zs, ws, grown, ap (λ l. block_of a ∷ l) parts, all)
        | inr (inl k) ↦
            rw (k, connect) ([], map block_of (a ∷ chain), stays (λ q. cc (k, q)), refl, λ q. cc q)
        | inr (inr (inl k)) ↦
            rw (k, connect) ([], map block_of (a ∷ chain), stays (λ q. cc (k, q)), refl, λ q. cc q)
        | inr (inr (inr k)) ↦
            rw (k, connect) ([], map block_of (a ∷ chain), stays (λ q. cc (k, q)), refl, λ q. cc q)
      ]
    where
      unchanged :
          (s : Chains P) (b : Block)
          → (push_block pool env c s.main s.pool b).2 ≢ added
          → bodies (push_block pool env c s.main s.pool b).0.blocks ≡ bodies s.main.blocks ++ []
      unchanged s b n =
          ap (λ (m : Blockchain). bodies m.blocks)
            (push_block-unchanged pool env c s.main s.pool b n)
          ∙ sym (append-nil _)

  -- The blocks that are left are those below the height.
  pub below :
      (s u : Chains P) (old : List Block) (height : ℕ)
      → bodies s.main.blocks ++ [] ≡ bodies u.main.blocks ++ old
      → length u.main.blocks ≡ height
      → bodies u.main.blocks ≡ take height (bodies s.main.blocks)
  below s u old height whole count = sym (
      ap (take height) (sym (append-nil (bodies s.main.blocks)) ∙ whole)
      ∙ take-length-append (bodies u.main.blocks) old height (length-bodies u.main.blocks ∙ count))

  -- A rollback that returns: the blocks below the height, and the first of the given ones on top, all
  -- of them where it returns `true`.
  pub rollback_lem :
      (s t : Chains P) (chain : List Block) (height : ℕ) (r : Bool)
      → height ≤ length s.main.blocks
      → rollback_blockchain_switching pool env c s chain height ≡ (t, returned r)
      → (zs : List Block) × (ws : List Block) × (bodies t.main.blocks
          ≡ take height (bodies s.main.blocks) ++ zs)
        × (chain ≡ zs ++ ws)
        × (r ≡ true → ws ≡ [])
  unfolding rollback_blockchain_switching
  rollback_lem s t chain height result l e = elim (Bool-cases (height == 0)) [
    | inl z ↦ cc (rw z at e)
    | inr z ↦ elim (Option-cases (disconnect pool env c (length s.main.blocks - height) s [])) [
      | inl n ↦ cc (rw (z, n) at e)
      | inr ((u, old), n) ↦
          let (whole, count) = disconnect_lem (length s.main.blocks - height) s u [] old n in
          let kept = below s u old height whole (omega (arith, l, count)) in
          let r = connect pool env c (λ b. b) u chain in
          let (zs, ws, grown, parts, all) = connect_lem (λ b. b) chain u in
          let made = grown ∙ ap (λ l. l ++ zs) kept in
          let parts' = sym (map_self chain) ∙ parts in
          elim (Connection-cases r.1) [
            | inl k ↦
                let ends : (r.0, returned true) ≡ (t, returned result) = rw k at (rw (z, n) at e) in
                let same : r.0 ≡ t = cc ends in
                (
                  zs,
                  ws,
                  ap (λ (x : Chains P). bodies x.main.blocks) (sym same) ∙ made,
                  parts',
                  λ _. all k,
                )
            | inr (inl (y, k)) ↦
                let ends : (r.0, returned false) ≡ (t, returned result) =
                  rw k at (rw (z, n) at e) in
                let same : r.0 ≡ t = cc ends in
                (
                  zs,
                  ws,
                  ap (λ (x : Chains P). bodies x.main.blocks) (sym same) ∙ made,
                  parts',
                  λ q. cc (q, ends),
                )
            | inr (inr k) ↦ cc (rw k at (rw (z, n) at e))
          ]
    ]
  ]

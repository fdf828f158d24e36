-- ===== src/Reorganisation/SwitchLaws.antt =====
-- How `switch_to_alternative_blockchain` meets its contract.
use bytecoin.Common.{
  ℕ, ◌-◌, ◌<◌, ◌≤◌, ◌≡◌, refl, ap, ◌∙◌, ◌⊎◌, inl, inr, Bool, true, false, some, List, [], ◌∷◌, ◌++◌,
  length, map, ltb, ◌==◌, arith, Bool-cases, Option-cases,
}
use bytecoin.Currency.{Currency}
use bytecoin.Transaction.{Hash}
use bytecoin.Blocks.{Block, BlockEntry, Environment, PoolOperations}
use bytecoin.Reorganisation.{Alternatives, Chains, erase_alternatives}
use bytecoin.Reorganisation.Endings.{Connection-cases, Outcome-cases}
use bytecoin.Reorganisation.Result.{bodies, connect_lem}
use bytecoin.Reorganisation.Starts.{
  disconnect_progress-Starts, rollback_blockchain_switching-Starts,
}
use bytecoin.Reorganisation.Switch.{
  HandleBlock, connected, fresh_context, disconnect, connect, rollback_blockchain_switching,
  roll_back_and_fail, readd, finish_switch, switch_at, switch_to_alternative_blockchain,
}
use bytecoin.Reorganisation.Contract.{
  body_of, IsQuiet, FailsAt, Switches, grown-length, grown-Starts, back-IsRolledBack,
  connected-grows, connected-switched,
}

module _ {P : Type 0} (pool : PoolOperations P) (env : Environment) (c : Currency) where
  readd-quiet :
      (handle : HandleBlock P)
      → IsQuiet handle
      → (blocks : List Block) (w : Chains P)
      → (readd pool env c handle w blocks).0.main.blocks ≡ w.main.blocks
  unfolding readd
  readd-quiet handle quiet [] w = refl
  readd-quiet handle quiet (b ∷ blocks) w =
      let r = handle w b (env.block_hash b) fresh_context in
      let same = quiet w b (env.block_hash b) fresh_context in
      elim (Outcome-cases r.2) [
        | inl (true, e) ↦ rw (e, readd) (readd-quiet handle quiet blocks r.0 ∙ same)
        | inl (false, e) ↦ rw (e, readd) same
        | inr (inl e) ↦ rw (e, readd) same
        | inr (inr e) ↦ rw (e, readd) same
      ]

  -- The state `s` before the switch, and `u` with the blocks below the height.
  module _ (handle : HandleBlock P) (s u : Chains P) (old : List Block) (height : ℕ)
      (chain : Alternatives) (discard : Bool) (l : height ≤ length s.main.blocks)
      (is_cut : disconnect pool env c (length s.main.blocks - height) s [] ≡ some (u, old)) where
    roll_back_and_fail-Switches :
        (w : Chains P) (ys : List Block) (rest : Alternatives)
        → bodies w.main.blocks ≡ bodies u.main.blocks ++ ys
        → FailsAt pool env c handle u chain discard old w
        → Switches pool env c handle s height chain discard
            (roll_back_and_fail pool env c w old height rest)
    unfolding roll_back_and_fail
    roll_back_and_fail-Switches w ys rest grown fails =
        let r = rollback_blockchain_switching pool env c w old height in
        let starts =
          rollback_blockchain_switching-Starts pool env c height w old
            (grown-length pool env c handle s u old height chain discard l is_cut w ys grown)
          ∙ grown-Starts pool env c handle s u old height chain discard l is_cut w ys grown in
        elim (Outcome-cases r.1) [
          | inl (b, e) ↦
              let t : Chains P = record r.0 {
                alternatives = erase_alternatives r.0.alternatives rest;
              } in
              rw (e, roll_back_and_fail)
                (back-IsRolledBack pool env c handle s u old height chain discard l is_cut w r.0 t
                  ys b grown fails (λ i. (r.0, e i)) refl refl)
          | inr (inl e) ↦ rw (e, roll_back_and_fail) starts
          | inr (inr e) ↦ rw (e, roll_back_and_fail) starts
        ]

  finish_switch-Switches :
      (handle : HandleBlock P) (s u : Chains P) (old : List Block) (height : ℕ)
      (chain : Alternatives) (discard : Bool) (l : height ≤ length s.main.blocks)
      (is_cut : disconnect pool env c (length s.main.blocks - height) s [] ≡ some (u, old))
      → (discard ≡ true) ⊎ IsQuiet handle
      → (connect pool env c body_of u chain).1 ≡ connected
      → Switches pool env c handle s height chain discard (
          finish_switch pool env c handle
            (connect pool env c body_of u chain).0
            old
            height
            chain
            discard)
  unfolding finish_switch
  finish_switch-Switches handle s u old height chain true l n quiet k =
      connected-switched pool env c handle s u old height chain true l n
        (connect pool env c body_of u chain).0
        (connected-grows pool env c handle s u old height chain true l n k)
  finish_switch-Switches handle s u old height chain false l n (inl e) k = cc e
  finish_switch-Switches handle s u old height chain false l n (inr quiet) k =
      let w = (connect pool env c body_of u chain).0 in
      let r = readd pool env c handle w old in
      let same =
        ap bodies (readd-quiet handle quiet old w)
        ∙ connected-grows pool env c handle s u old height chain false l n k in
      let starts =
        grown-Starts pool env c handle s u old height chain false l n r.0 (map body_of chain)
          same in
      elim (Outcome-cases r.1) [
        | inl (true, e) ↦
            rw (e, finish_switch)
              (connected-switched pool env c handle s u old height chain false l n r.0 same)
        | inl (false, e) ↦
            rw (e, finish_switch)
              (roll_back_and_fail-Switches handle s u old height chain false l n r.0
                (map body_of chain) [] same (inr (refl, k, λ i. (r.0, e i))))
        | inr (inl e) ↦ rw (e, finish_switch) starts
        | inr (inr e) ↦ rw (e, finish_switch) starts
      ]

  switch_at-Switches :
      (handle : HandleBlock P) (s : Chains P) (height : ℕ) (chain : Alternatives) (discard : Bool)
      → (discard ≡ true) ⊎ IsQuiet handle
      → height < length s.main.blocks
      → Switches pool env c handle s height chain discard
          (switch_at pool env c handle s height chain discard)
  unfolding switch_at
  switch_at-Switches handle s height chain discard quiet l =
      let l' : height ≤ length s.main.blocks = omega (arith, l) in
      elim (Option-cases (disconnect pool env c (length s.main.blocks - height) s [])) [
        | inl n ↦ rw (n, switch_at) (disconnect_progress-Starts pool env c height s l')
        | inr ((u, old), n) ↦
            let r = connect pool env c body_of u chain in
            let (zs, ws, grown, _, _) = connect_lem pool env c body_of chain u in
            elim (Connection-cases r.1) [
              | inl e ↦
                  rw (n, switch_at)
                    (rw e (finish_switch-Switches handle s u old height chain discard l' n quiet e))
              | inr (inl (rest, e)) ↦
                  rw (n, switch_at)
                    (rw e (
                      roll_back_and_fail-Switches handle s u old height chain discard l' n r.0 zs
                        rest grown (inl (rest, λ i. (r.0, e i)))))
              | inr (inr e) ↦
                  rw (n, switch_at)
                    (rw e (
                      grown-Starts pool env c handle s u old height chain discard l' n r.0 zs
                        grown))
            ]
      ]

  -- Where the old chain is discarded, or the handling of its blocks leaves the blocks of the main
  -- chain alone, and the split height is below the size of the chain: after a switch that returns
  -- `true`, the blocks of the main chain are those below the split height followed by those of the
  -- alternative chain; after one that returns `false`, the blocks that the disconnection took off
  -- were given, where a block of the alternative chain was not added, or one of the old chain was
  -- not kept as an alternative, to a rollback, whose main chain and pool are the ones left: these
  -- hold the blocks below the split height followed by the first of those that were taken off, and
  -- by all of them where the rollback returned `true`; and after an exception or an endless
  -- handling the blocks below the split height are still the old ones.
  pub switch_to_alternative_blockchain_lem :
      (handle : HandleBlock P) (s : Chains P) (id : Hash) (e : BlockEntry) (chain : Alternatives)
      (discard : Bool)
      → (discard ≡ true) ⊎ IsQuiet handle
      → e.height < length s.main.blocks
      → Switches pool env c handle s e.height
          ((id, e) ∷ chain)
          discard
          (switch_to_alternative_blockchain pool env c handle s ((id, e) ∷ chain) discard)
  unfolding switch_to_alternative_blockchain
  switch_to_alternative_blockchain_lem handle s id e chain discard quiet l =
      elim (Bool-cases (ltb e.height (length s.main.blocks))) [
        | inr n ↦ absurd (ground arith)
        | inl n ↦ elim (Bool-cases (e.height == 0)) [
          | inl z ↦ rw (n, z) refl
          | inr z ↦
              rw (n, z) (switch_at-Switches handle s e.height ((id, e) ∷ chain) discard quiet l)
        ]
      ]

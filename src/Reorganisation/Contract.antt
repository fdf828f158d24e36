-- ===== src/Reorganisation/Contract.antt =====
-- What `switch_to_alternative_blockchain` promises of the main chain, and the chain that is cut at the
-- split height.
use bytecoin.Common.{
  ℕ, ◌-◌, ◌≤◌, ◌≡◌, sym, ap, ◌∙◌, ◌⊎◌, Bool, true, false, some, List, [], ◌++◌, length, take, map,
  arith, append-nil, length-append,
}
use bytecoin.Currency.{Currency}
use bytecoin.Transaction.{Hash}
use bytecoin.Blocks.{Block, Blockchain, BlockEntry, Environment, PoolOperations}
use bytecoin.Reorganisation.{
  Alternatives, Chains, BlockContext, Outcome, returned, thrown, unfinished,
}
use bytecoin.Reorganisation.Result.{
  bodies, length-bodies, disconnect_lem, connect_lem, below, rollback_lem,
}
use bytecoin.Reorganisation.Starts.{Starts, longer-Starts, disconnect-Starts}
use bytecoin.Reorganisation.Switch.{
  HandleBlock, connected, stopped, disconnect, connect, rollback_blockchain_switching, readd,
}

abbrev pub body_of : Hash × BlockEntry → Block
body_of x = x.1.bl

-- A handling of alternative blocks that leaves the blocks of the main chain alone.
abbrev pub IsQuiet : {P : Type 0} → HandleBlock P → Type 0
IsQuiet {P} handle =
    (s : Chains P) (b : Block) (id : Hash) (bvc : BlockContext)
    → (handle s b id bvc).0.main.blocks ≡ s.main.blocks

module _ {P : Type 0} (pool : PoolOperations P) (env : Environment) (c : Currency) where
  -- `w` is where a switch from the chain `u` fails: at a block of the alternative chain that is not
  -- added, or after all of them, at a block of the old chain that is not kept as an alternative.
  abbrev pub FailsAt :
      HandleBlock P → Chains P → Alternatives → Bool → List Block → Chains P → Type 0
  FailsAt handle u chain discard old w =
      ((rest : Alternatives) × (connect pool env c body_of u chain ≡ (w, stopped rest)))
      ⊎ ((discard ≡ false)
          × ((connect pool env c body_of u chain).1 ≡ connected)
          × (readd pool env c handle (connect pool env c body_of u chain).0 old
              ≡ (w, returned false)))

  -- What a failed switch of `s` at the height has left: the blocks `old` were taken off, which gave
  -- `cut`; the switch failed at `failed`, and from there the rollback that puts `old` back ended with
  -- `back`, with the first blocks of `old` on the chain, and all of them where its result is `true`.
  pub record IsRolledBack (handle : HandleBlock P) (s : Chains P) (height : ℕ)
      (chain : Alternatives) (discard : Bool) (t : Chains P) : Type 0 where
    pub cut : Chains P
    pub old : List Block
    pub failed : Chains P
    pub back : Chains P
    pub result : Bool
    pub restored : List Block
    pub lost : List Block
    pub is_cut : disconnect pool env c (length s.main.blocks - height) s [] ≡ some (cut, old)
    pub fails : FailsAt handle cut chain discard old failed
    pub rolls_back :
        rollback_blockchain_switching pool env c failed old height ≡ (back, returned result)
    pub main : t.main ≡ back.main
    pub pools : t.pool ≡ back.pool
    pub before : bodies s.main.blocks ≡ take height (bodies s.main.blocks) ++ (restored ++ lost)
    pub after : bodies t.main.blocks ≡ take height (bodies s.main.blocks) ++ restored
    pub whole : result ≡ true → lost ≡ []

  -- On success the blocks below the split height and those of the alternative chain; on failure what
  -- the rollback has left; after an exception the blocks below the split height are still there.
  abbrev pub Switches :
      HandleBlock P → Chains P → ℕ → Alternatives → Bool → Chains P × Outcome → Type 0
  Switches handle s height chain discard (t, returned true) =
      bodies t.main.blocks ≡ take height (bodies s.main.blocks) ++ map body_of chain
  Switches handle s height chain discard (t, returned false) =
      IsRolledBack handle s height chain discard t
  Switches handle s height chain discard (t, thrown) = Starts height s t
  Switches handle s height chain discard (t, unfinished) = Starts height s t

  -- The state `s` before the switch, and `u` with the blocks below the height.
  module _ (handle : HandleBlock P) (s u : Chains P) (old : List Block) (height : ℕ)
      (chain : Alternatives) (discard : Bool) (l : height ≤ length s.main.blocks)
      (is_cut : disconnect pool env c (length s.main.blocks - height) s [] ≡ some (u, old)) where
    cut-count : length u.main.blocks ≡ height
    cut-count =
        let (_, size) =
          disconnect_lem pool env c (length s.main.blocks - height) s u [] old is_cut in
        omega (arith, l, size)

    cut-below : bodies u.main.blocks ≡ take height (bodies s.main.blocks)
    cut-below =
        let (whole, _) =
          disconnect_lem pool env c (length s.main.blocks - height) s u [] old is_cut in
        below pool env c s u old height whole cut-count

    cut-whole : bodies s.main.blocks ≡ take height (bodies s.main.blocks) ++ old
    cut-whole =
        let (whole, _) =
          disconnect_lem pool env c (length s.main.blocks - height) s u [] old is_cut in
        sym (append-nil (bodies s.main.blocks)) ∙ whole ∙ ap (λ r. r ++ old) cut-below

    -- A chain with further blocks on those that the cut has left.
    pub grown-Starts :
        (w : Chains P) (ys : List Block)
        → bodies w.main.blocks ≡ bodies u.main.blocks ++ ys
        → Starts height s w
    grown-Starts w ys grown =
        longer-Starts height u w ys (omega (arith, cut-count)) grown
        ∙ disconnect-Starts pool env c height s u old l is_cut

    pub grown-length :
        (w : Chains P) (ys : List Block)
        → bodies w.main.blocks ≡ bodies u.main.blocks ++ ys
        → height ≤ length w.main.blocks
    grown-length w ys grown = omega (
      arith,
      cut-count,
      ap (λ (r : List Block). length r) grown,
      length-append (bodies u.main.blocks) ys,
      length-bodies w.main.blocks,
      length-bodies u.main.blocks,
    )

    pub back-IsRolledBack :
        (w v t : Chains P) (ys : List Block) (r : Bool)
        → bodies w.main.blocks ≡ bodies u.main.blocks ++ ys
        → FailsAt handle u chain discard old w
        → rollback_blockchain_switching pool env c w old height ≡ (v, returned r)
        → t.main ≡ v.main
        → t.pool ≡ v.pool
        → IsRolledBack handle s height chain discard t
    back-IsRolledBack w v t ys r grown fails e main pools =
        let (zs, ws, made, parts, all) =
          rollback_lem pool env c w v old height r (grown-length w ys grown) e in
        record {
          cut = u;
          old = old;
          failed = w;
          back = v;
          result = r;
          restored = zs;
          lost = ws;
          is_cut = is_cut;
          fails = fails;
          rolls_back = e;
          main = main;
          pools = pools;
          before = cut-whole ∙ ap (λ k. take height (bodies s.main.blocks) ++ k) parts;
          after =
              ap (λ (m : Blockchain). bodies m.blocks) main
              ∙ made
              ∙ ap (λ k. k ++ zs) (grown-Starts w ys grown);
          whole = all;
        }

    pub connected-grows :
        (connect pool env c body_of u chain).1 ≡ connected
        → bodies (connect pool env c body_of u chain).0.main.blocks
          ≡ bodies u.main.blocks ++ map body_of chain
    connected-grows k =
        let (zs, ws, more, parts, all) = connect_lem pool env c body_of chain u in
        let full = sym (parts ∙ ap (λ m. zs ++ m) (all k) ∙ append-nil zs) in
        more ∙ ap (λ m. bodies u.main.blocks ++ m) full

    pub connected-switched :
        (w : Chains P)
        → bodies w.main.blocks ≡ bodies u.main.blocks ++ map body_of chain
        → bodies w.main.blocks ≡ take height (bodies s.main.blocks) ++ map body_of chain
    connected-switched w grown = grown ∙ ap (λ m. m ++ map body_of chain) cut-below

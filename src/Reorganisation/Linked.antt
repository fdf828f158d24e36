-- ===== src/Reorganisation/Linked.antt =====
-- The blocks of the main chain as a chain: linked by their hashes, behind one genesis block, with the
-- index of their hashes; and what pushing and popping a block keeps of it.
use bytecoin.Common.{
  ◌<◌, ◌≡◌, ◌≢◌, refl, sym, ap, ◌∙◌, ◌⊎◌, inl, inr, some, false, List, [], ◌∷◌, ◌++◌, length,
  get_elem?, arith, All,
}
use bytecoin.Currency.{Currency}
use bytecoin.Transaction.{Hash, Transaction}
use bytecoin.Storage.Pop.{pop_back}
use bytecoin.BlockIndex.{BlockIndex, has_block, push, pop, get_tail_id}
use bytecoin.BlockIndex.Laws.{IsDistinct, snoc-IsDistinct}
use bytecoin.Blocks.{Block, Blockchain, BlockEntry, Environment, PoolOperations}
use bytecoin.Blocks.Header.{BlockResult, added, rejected, no_difficulty, exception}
use bytecoin.Blocks.KindKeeping.{HoldsKind, All-pop_back}
use bytecoin.Blocks.PushBlock.{after_miner, push_block}
use bytecoin.Blocks.PushLaws.{push_block-added}
use bytecoin.Blocks.Unchanged.{push_block-unchanged}

module _ (env : Environment) where
  abbrev pub hashes_of : List BlockEntry → BlockIndex
  hashes_of [] = []
  hashes_of (e ∷ blocks) = env.block_hash e.bl ∷ hashes_of blocks

  -- Every block but the first names the hash of the block before it.
  abbrev pub AreLinked : List BlockEntry → Type 0
  AreLinked [] = Unit
  AreLinked (e ∷ []) = Unit
  AreLinked (e ∷ f ∷ blocks) = (f.bl.prev_id ≡ env.block_hash e.bl) × AreLinked (f ∷ blocks)

  -- The main chain with the genesis block `g`; its transactions, the coinbase transactions apart, are
  -- of the kind `D`.
  pub record IsChain (D : Transaction → Type 0) (g : BlockEntry) (s : Blockchain) : Type 0 where
    pub genesis : get_elem? s.blocks 0 ≡ some g
    pub index : s.block_index ≡ hashes_of s.blocks
    pub distinct : IsDistinct s.block_index
    pub linked : AreLinked s.blocks
    pub kind : HoldsKind D s.blocks

  hashes_of-snoc :
      (blocks : List BlockEntry) (e : BlockEntry)
      → hashes_of (blocks ++ e ∷ []) ≡ hashes_of blocks ++ env.block_hash e.bl ∷ []
  hashes_of-snoc [] e = refl
  hashes_of-snoc (x ∷ blocks) e = ap (λ l. env.block_hash x.bl ∷ l) (hashes_of-snoc blocks e)

  hashes_of-pop_back :
      (blocks : List BlockEntry) → hashes_of (pop_back blocks) ≡ pop_back (hashes_of blocks)
  unfolding pop_back
  hashes_of-pop_back [] = refl
  hashes_of-pop_back (x ∷ []) = refl
  hashes_of-pop_back (x ∷ y ∷ blocks) =
      ap (λ l. env.block_hash x.bl ∷ l) (hashes_of-pop_back (y ∷ blocks))

  AreLinked-snoc :
      (blocks : List BlockEntry) (e : BlockEntry)
      → AreLinked blocks
      → e.bl.prev_id ≡ get_tail_id (hashes_of blocks)
      → AreLinked (blocks ++ e ∷ [])
  unfolding get_tail_id
  AreLinked-snoc [] e l t = tt
  AreLinked-snoc (x ∷ []) e l t = (t, tt)
  AreLinked-snoc (x ∷ y ∷ blocks) e (h, l) t = (h, AreLinked-snoc (y ∷ blocks) e l t)

  AreLinked-pop_back : (blocks : List BlockEntry) → AreLinked blocks → AreLinked (pop_back blocks)
  unfolding pop_back
  AreLinked-pop_back [] l = tt
  AreLinked-pop_back (x ∷ []) l = tt
  AreLinked-pop_back (x ∷ y ∷ []) l = tt
  AreLinked-pop_back (x ∷ y ∷ z ∷ blocks) (h, l) = (h, AreLinked-pop_back (y ∷ z ∷ blocks) l)

  first-snoc :
      (blocks : List BlockEntry) (e g : BlockEntry)
      → get_elem? blocks 0 ≡ some g
      → get_elem? (blocks ++ e ∷ []) 0 ≡ some g
  first-snoc [] e g h = cc
  first-snoc (x ∷ blocks) e g h = h

  first-pop_back :
      (blocks : List BlockEntry) (g : BlockEntry)
      → 1 < length blocks
      → get_elem? blocks 0 ≡ some g
      → get_elem? (pop_back blocks) 0 ≡ some g
  unfolding pop_back
  first-pop_back [] g l h = cc
  first-pop_back (x ∷ []) g l h = absurd (omega arith)
  first-pop_back (x ∷ y ∷ blocks) g l h = h

has_block-pop_back :
    (index : BlockIndex) (h : Hash)
    → has_block index h ≡ false
    → has_block (pop_back index) h ≡ false
unfolding has_block pop_back
has_block-pop_back [] h n = refl
has_block-pop_back (x ∷ []) h n = refl
has_block-pop_back (x ∷ y ∷ index) h n = ground (arith, has_block-pop_back (y ∷ index) h)

IsDistinct-pop_back : (index : BlockIndex) → IsDistinct index → IsDistinct (pop_back index)
unfolding pop_back
IsDistinct-pop_back [] d = tt
IsDistinct-pop_back (x ∷ []) d = tt
IsDistinct-pop_back (x ∷ y ∷ index) (n, d) =
    (has_block-pop_back (y ∷ index) x n, IsDistinct-pop_back (y ∷ index) d)

added-or-ne : (r : BlockResult) → (r ≡ added) ⊎ (r ≢ added)
added-or-ne added = inl refl
added-or-ne rejected = inr (λ e. cc e)
added-or-ne no_difficulty = inr (λ e. cc e)
added-or-ne exception = inr (λ e. cc e)

push_new :
    (index : BlockIndex) (h : Hash) → has_block index h ≡ false → (push index h).0 ≡ index ++ h ∷ []
unfolding push
push_new index h n = rw n

module _ {P : Type 0} (pool : PoolOperations P) (env : Environment) (c : Currency)
    (D : Transaction → Type 0) (g : BlockEntry) where
  pub push_block-IsChain :
      (s : Blockchain) (p : P) (b : Block)
      → IsChain env D g s
      → HoldsKind D (push_block pool env c s p b).0.blocks
      → IsChain env D g (push_block pool env c s p b).0
  push_block-IsChain s p b ok kind = elim (added-or-ne (push_block pool env c s p b).2) [
    | inr n ↦
        let same = push_block-unchanged pool env c s p b n in
        rw same record {
          genesis = ok.genesis;
          index = ok.index;
          distinct = ok.distinct;
          linked = ok.linked;
          kind = ok.kind;
        }
    | inl a ↦
        let (fine, (e, (blocks, index, same, _, _))) = push_block-added pool env c s p b a in
        let grown = index ∙ push_new s.block_index (env.block_hash b) fine.is_new in
        record {
          genesis = rw blocks (first-snoc env s.blocks e g ok.genesis);
          index = grown ∙ rw (blocks, hashes_of-snoc env s.blocks e, ok.index, same) refl;
          distinct =
              rw grown (snoc-IsDistinct s.block_index (env.block_hash b) ok.distinct fine.is_new);
          linked = rw blocks (
              AreLinked-snoc env s.blocks e ok.linked
                (rw same (fine.follows_tail ∙ ap get_tail_id ok.index)));
          kind = kind;
        }
  ]

pub popped-IsChain :
    (env : Environment) (D : Transaction → Type 0) (g : BlockEntry) (s s' : Blockchain)
    → IsChain env D g s
    → 1 < length s.blocks
    → s'.blocks ≡ pop_back s.blocks
    → s'.block_index ≡ pop s.block_index
    → IsChain env D g s'
unfolding pop
popped-IsChain env D g s s' ok l blocks index = record {
  genesis = rw blocks (first-pop_back env s.blocks g l ok.genesis);
  index =
      index
      ∙ ap pop_back ok.index
      ∙ sym (hashes_of-pop_back env s.blocks)
      ∙ ap (hashes_of env) (sym blocks);
  distinct = rw index (IsDistinct-pop_back s.block_index ok.distinct);
  linked = rw blocks (AreLinked-pop_back env s.blocks ok.linked);
  kind = rw blocks (
      All-pop_back (λ (y : BlockEntry). All (λ t. D t.tx) (after_miner y.transactions)) s.blocks
        ok.kind);
}

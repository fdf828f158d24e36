-- ===== src/BlockIndex/Laws.antt =====
-- What the block index keeps: heights and hashes determine one another.
use bytecoin.Common.{
  ℕ, zero, suc, ◌<◌, ◌≡◌, refl, sym, ap, ◌∙◌, inl, inr, true, false, some, List, [], ◌∷◌, ◌++◌,
  arith, leb, ◌==◌, if◌then◌else◌, Bool-cases, Option-cases, length, get_or, ==_self, ==_iff,
}
use bytecoin.Transaction.{Hash}
use bytecoin.Storage.Pop.{pop_back}
use bytecoin.BlockIndex.{
  BlockIndex, null_hash, has_block, push, pop, get_block_height, get_block_id,
}

-- No hash stands twice.
abbrev pub IsDistinct : BlockIndex → Type 0
IsDistinct [] = Unit
IsDistinct (x ∷ index) = (has_block index x ≡ false) × IsDistinct index

has_block-append :
    (index : BlockIndex) (h x : Hash)
    → has_block (index ++ h ∷ []) x ≡ (if has_block index x then true else h == x)
unfolding has_block
has_block-append [] h x = ground arith
has_block-append (y ∷ index) h x = ground (arith, has_block-append index h x)

pub snoc-IsDistinct :
    (index : BlockIndex) (h : Hash)
    → IsDistinct index
    → has_block index h ≡ false
    → IsDistinct (index ++ h ∷ [])
unfolding has_block
snoc-IsDistinct [] h d n = (refl, tt)
snoc-IsDistinct (x ∷ index) h (a, d) n =
    (has_block-append index h x ∙ rw a (ground arith), snoc-IsDistinct index h d (ground arith))

pop_back-snoc {ℓ} : {A : Type ℓ} (xs : List A) (x : A) → pop_back (xs ++ x ∷ []) ≡ xs
unfolding pop_back
pop_back-snoc [] x = refl
pop_back-snoc (y ∷ []) x = refl
pop_back-snoc (y ∷ z ∷ xs) x = ap (λ l. y ∷ l) (pop_back-snoc (z ∷ xs) x)

get_block_height-snoc :
    (index : BlockIndex) (h : Hash)
    → has_block index h ≡ false
    → get_block_height (index ++ h ∷ []) h ≡ some (length index)
unfolding get_block_height has_block
get_block_height-snoc [] h n = rw (==_self h)
get_block_height-snoc (x ∷ index) h n = elim (Bool-cases (x == h)) [
  | inl e ↦ let n' = rw e at n in cc n'
  | inr e ↦ rw e (let n' = rw e at n in rw (get_block_height-snoc index h n'))
]

get_block_height-kept :
    (index : BlockIndex) (h x : Hash) (n : ℕ)
    → get_block_height index x ≡ some n
    → get_block_height (index ++ h ∷ []) x ≡ some n
unfolding get_block_height
get_block_height-kept [] h x n e = cc e
get_block_height-kept (y ∷ index) h x n e = elim (Bool-cases (y == x)) [
  | inl t ↦ rw t (rw t at e)
  | inr t ↦ rw t (elim (Option-cases (get_block_height index x)) [
    | inl u ↦ let e' = rw u at (rw t at e) in cc e'
    | inr (k, u) ↦ rw (get_block_height-kept index h x k u) (rw u at (rw t at e))
  ])
]

-- A hash that is pushed on an index with no hash twice, and was not there, is found at the height
-- that is the old size, every height that was found before stays, no hash stands twice, and `pop`
-- takes the push back.
pub push-pop :
    (index index' : BlockIndex) (h : Hash)
    → IsDistinct index
    → push index h ≡ (index', true)
    → IsDistinct index'
      × (get_block_height index' h ≡ some (length index))
      × ((x : Hash) (n : ℕ)
          → get_block_height index x ≡ some n
          → get_block_height index' x ≡ some n)
      × (pop index' ≡ index)
unfolding push pop
push-pop index index' h d e = elim (Bool-cases (has_block index h)) [
  | inl t ↦ let e' = rw (t, push) at e in cc e'
  | inr t ↦
      let e' = rw (t, push) at e in
      let same : index ++ h ∷ [] ≡ index' = ap (λ p. p.0) e' in
      rw (← same) (
        snoc-IsDistinct index h d t,
        get_block_height-snoc index h t,
        λ x n q. get_block_height-kept index h x n q,
        pop_back-snoc index h,
      )
]

pub has_block-get_or :
    (index : BlockIndex) (i : ℕ)
    → i < length index
    → has_block index (get_or index i null_hash) ≡ true
unfolding has_block
has_block-get_or [] i l = absurd (omega arith)
has_block-get_or (x ∷ index) zero l = rw (==_self x)
has_block-get_or (x ∷ index) (suc i) l =
    let h = has_block-get_or index i (omega arith) in ground arith

get_block_height-get_or :
    (index : BlockIndex) (i : ℕ)
    → IsDistinct index
    → i < length index
    → get_block_height index (get_or index i null_hash) ≡ some i
unfolding get_block_height
get_block_height-get_or [] i d l = absurd (omega arith)
get_block_height-get_or (x ∷ index) zero d l = rw (==_self x)
get_block_height-get_or (x ∷ index) (suc i) (a, d) l =
    let y = get_or index i null_hash in
    let there = has_block-get_or index i (omega arith) in
    elim (Bool-cases (x == y)) [
      | inl e ↦ let there' = rw (sym ((==_iff x y).0 e)) at there in cc (there', a)
      | inr e ↦ rw e (rw (get_block_height-get_or index i d (omega arith)))
    ]

-- In an index with no hash twice, the height of the hash at a height below the size is that
-- height.
pub get_block_height-get_block_id :
    (index : BlockIndex) (i : ℕ)
    → IsDistinct index
    → i < length index
    → get_block_height index (get_block_id index i) ≡ some i
unfolding get_block_id
get_block_height-get_block_id index i d l =
    let below : leb (length index) i ≡ false = ground arith in
    rw below (get_block_height-get_or index i d l)

-- ===== src/TreeHash/Merkle.antt =====
-- `tree_hash` against the Merkle tree of its leaves, taken from the top.
use bytecoin.Common.{
  subst, ℕ, zero, suc, ◌+◌, ◌-◌, ◌*◌, ◌/◌, ◌^◌, ◌≤◌, ◌<◌, ◌≡◌, refl, sym, ap, ◌∙◌, some, List, [],
  ◌∷◌, arith, ltb, lt→ltb, dec_lt, length, get_or, take, drop, length-take, length-drop,
  length-append, true,
}
use native.Mathlib.Nat.{two-pow-succ}
use bytecoin.Transaction.{Hash}
use bytecoin.TreeHash.{leaf_count, pairs, first_pass, reduce, tree_hash}
use bytecoin.TreeHash.Leaves.{IsHalf, leaf_count_lem}

pub take_all {ℓ} : {A : Type ℓ} (n : ℕ) (l : List A) → length l ≤ n → take n l ≡ l
take_all zero [] h = refl
take_all zero (x ∷ l) h = absurd (omega arith)
take_all (suc n) [] h = refl
take_all (suc n) (x ∷ l) h = ap (λ r. x ∷ r) (take_all n l (omega arith))

abbrev twice : ℕ → ℕ
twice zero = zero
twice (suc n) = suc (suc (twice n))

twice_lem : (n : ℕ) → twice n ≡ n + n
twice_lem zero = refl
twice_lem (suc n) = omega (arith, twice_lem n)

pub positive : (k : ℕ) → 0 < 2 ^ k
positive zero = omega arith
positive (suc k) = omega (arith, positive k, two-pow-succ k)

pow_grows : (n : ℕ) → 9 ≤ n → 512 ≤ 2 ^ n
pow_grows zero h = absurd (omega arith)
pow_grows (suc n) h = elim (native.Mathlib.Decide.ℕ_discrete n 8) [
  | yes same ↦ rw same (omega arith)
  | no differ ↦ omega (arith, pow_grows n (omega arith), two-pow-succ n)
]

few_rounds : (k : ℕ) → 2 ^ suc k < 512 → k ≤ 64
few_rounds k h = elim (dec_lt 64 k) [
  | yes l ↦ absurd (omega (arith, pow_grows (suc k) (omega arith)))
  | no n ↦ omega arith
]

module _ (fast : Hash → Hash → Hash) where
  -- The root of the 2 ^ k hashes of `l`: the hash of the roots of its two halves.
  unfoldable pub merkle : ℕ → List Hash → Hash
  merkle zero l = get_or l 0 0
  merkle (suc k) l = fast (merkle k (take (2 ^ k) l)) (merkle k (drop (2 ^ k) l))

  take-pairs : (n : ℕ) (l : List Hash) → take n (pairs fast l) ≡ pairs fast (take (twice n) l)
  unfolding pairs
  take-pairs zero l = refl
  take-pairs (suc n) [] = refl
  take-pairs (suc n) (x ∷ []) = refl
  take-pairs (suc n) (x ∷ y ∷ l) = ap (λ r. fast x y ∷ r) (take-pairs n l)

  drop-pairs : (n : ℕ) (l : List Hash) → drop n (pairs fast l) ≡ pairs fast (drop (twice n) l)
  unfolding pairs
  drop-pairs zero l = refl
  drop-pairs (suc n) [] = refl
  drop-pairs (suc n) (x ∷ []) = refl
  drop-pairs (suc n) (x ∷ y ∷ l) = drop-pairs n l

  pub merkle-pairs :
      (k : ℕ) (l : List Hash) → length l ≡ 2 ^ suc k → merkle k (pairs fast l) ≡ merkle (suc k) l
  unfolding merkle pairs
  merkle-pairs zero [] e = absurd (omega arith)
  merkle-pairs zero (x ∷ []) e = absurd (omega arith)
  merkle-pairs zero (x ∷ y ∷ l) e = refl
  merkle-pairs (suc k) l e =
      let n = 2 ^ k in
      let doubled : twice n ≡ 2 ^ suc k = twice_lem n ∙ sym (two-pow-succ k) in
      let above = two-pow-succ (suc k) in
      let left : length (take (2 ^ suc k) l) ≡ 2 ^ suc k =
        omega (arith, length-take (2 ^ suc k) l) in
      let right : length (drop (2 ^ suc k) l) ≡ 2 ^ suc k =
        omega (arith, length-drop (2 ^ suc k) l) in
      let front : take n (pairs fast l) ≡ pairs fast (take (2 ^ suc k) l) =
        subst (λ m. take n (pairs fast l) ≡ pairs fast (take m l)) doubled (take-pairs n l) in
      let back : drop n (pairs fast l) ≡ pairs fast (drop (2 ^ suc k) l) =
        subst (λ m. drop n (pairs fast l) ≡ pairs fast (drop m l)) doubled (drop-pairs n l) in
      let a = ap (merkle k) front ∙ merkle-pairs k (take (2 ^ suc k) l) left in
      let b = ap (merkle k) back ∙ merkle-pairs k (drop (2 ^ suc k) l) right in
      λ i. fast (a i) (b i)

  pub length-pairs : (n : ℕ) (l : List Hash) → length l ≡ n + n → length (pairs fast l) ≡ n
  unfolding pairs
  length-pairs zero [] e = refl
  length-pairs zero (x ∷ l) e = absurd (omega arith)
  length-pairs (suc n) [] e = absurd (omega arith)
  length-pairs (suc n) (x ∷ []) e = absurd (omega arith)
  length-pairs (suc n) (x ∷ y ∷ l) e = ap suc (length-pairs n l (omega arith))

  reduce-merkle :
      (fuel k : ℕ) (l : List Hash)
      → k ≤ fuel
      → length l ≡ 2 ^ suc k
      → reduce fast fuel (2 ^ suc k) l ≡ merkle (suc k) l
  unfolding reduce merkle
  reduce-merkle zero zero (x ∷ y ∷ []) h e = refl
  reduce-merkle zero zero [] h e = absurd (omega arith)
  reduce-merkle zero zero (x ∷ []) h e = absurd (omega arith)
  reduce-merkle zero zero (x ∷ y ∷ z ∷ l) h e = absurd (omega arith)
  reduce-merkle zero (suc k) l h e = absurd (omega arith)
  reduce-merkle (suc fuel) zero (x ∷ y ∷ []) h e = refl
  reduce-merkle (suc fuel) zero [] h e = absurd (omega arith)
  reduce-merkle (suc fuel) zero (x ∷ []) h e = absurd (omega arith)
  reduce-merkle (suc fuel) zero (x ∷ y ∷ z ∷ l) h e = absurd (omega arith)
  reduce-merkle (suc fuel) (suc k) l h e =
      let more : ltb 2 (2 ^ suc (suc k)) ≡ true =
        lt→ltb 2 (2 ^ suc (suc k))
          (omega (arith, two-pow-succ (suc k), two-pow-succ k, positive k)) in
      let half : 2 ^ suc (suc k) / 2 ≡ 2 ^ suc k = omega (arith, two-pow-succ (suc k)) in
      let whole : take (2 * 2 ^ suc k) l ≡ l =
        take_all (2 * 2 ^ suc k) l (omega (arith, two-pow-succ (suc k))) in
      let next : length (pairs fast l) ≡ 2 ^ suc k =
        length-pairs (2 ^ suc k) l (e ∙ two-pow-succ (suc k)) in
      rw more (
        rw half (
          rw whole
            (reduce-merkle fuel k (pairs fast l) (omega arith) next ∙ merkle-pairs (suc k) l e)))

  -- The leaves of the tree are the first hashes as they are, and the others in pairs.
  pub length-first_pass :
      (cnt : ℕ) (l : List Hash)
      → cnt ≤ length l
      → length l ≤ 2 * cnt
      → length (first_pass fast cnt l) ≡ cnt
  unfolding first_pass
  length-first_pass cnt l below above =
      let k = 2 * cnt - length l in
      let rest : length (drop k l) ≡ (length l - cnt) + (length l - cnt) =
        omega (arith, length-drop k l) in
      omega (
        arith,
        length-append (take k l) (pairs fast (drop k l)),
        length-take k l,
        length-pairs (length l - cnt) (drop k l) rest,
      )

  -- For 3 to 512 hashes the result is the root of a Merkle tree of 2 ^ (k + 1) leaves, the power
  -- of two below the number of hashes whose double is not below it: the first hashes, as many as
  -- are not needed in pairs, and the hashes of the remaining ones in pairs.
  pub tree_hash_lem :
      (x y z : Hash) (l : List Hash)
      → length (x ∷ y ∷ z ∷ l) ≤ 512
      → (k : ℕ) × ((2 ^ suc k < length (x ∷ y ∷ z ∷ l))
          × (length (x ∷ y ∷ z ∷ l) ≤ 2 * 2 ^ suc k)
          × (tree_hash fast (x ∷ y ∷ z ∷ l)
              ≡ some (merkle (suc k) (first_pass fast (2 ^ suc k) (x ∷ y ∷ z ∷ l)))))
  unfolding tree_hash
  tree_hash_lem x y z l m = from_half (leaf_count_lem (length hashes) (omega arith) m)
    where
      hashes : List Hash
      hashes = x ∷ y ∷ z ∷ l

      from_half :
          IsHalf (length hashes) (leaf_count (length hashes))
          → (k : ℕ) × ((2 ^ suc k < length hashes)
              × (length hashes ≤ 2 * 2 ^ suc k)
              × (tree_hash fast hashes
                  ≡ some (merkle (suc k) (first_pass fast (2 ^ suc k) hashes))))
      from_half (below, above, (zero, e)) = absurd (omega arith)
      from_half (below, above, (suc k, e)) =
          let small : 2 ^ suc k < length hashes = omega (arith, e) in
          let large : length hashes ≤ 2 * 2 ^ suc k = omega (arith, e) in
          let leaves = first_pass fast (2 ^ suc k) hashes in
          let whole =
            reduce-merkle 64 k leaves (few_rounds k (omega arith))
              (length-first_pass (2 ^ suc k) hashes (omega (arith, small)) large) in
          (k, (small, large, rw e (ap some whole)))

-- ===== src/TreeHash/Collision.antt =====
-- The lists of 514 hashes, where the loop of `tree_hash` over the bits of the count stops too early.
use bytecoin.Common.{
  subst, ◌-◌, ◌*◌, ◌≡◌, refl, sym, ap, ◌∙◌, some, List, [], ◌∷◌, ◌++◌, arith, length, take, drop,
  length-append,
}
use bytecoin.Transaction.{Hash}
use bytecoin.TreeHash.{leaf_count, pairs, first_pass, reduce, tree_hash}

take-append {ℓ} : {A : Type ℓ} (l m : List A) → take (length l) (l ++ m) ≡ l
take-append [] m = refl
take-append (x ∷ l) m = ap (λ r. x ∷ r) (take-append l m)

drop-append {ℓ} : {A : Type ℓ} (l m : List A) → drop (length l) (l ++ m) ≡ m
drop-append [] m = refl
drop-append (x ∷ l) m = drop-append l m

leaf_count_514 : leaf_count 514 ≡ 513
unfolding leaf_count
leaf_count_514 = refl

module _ (fast : Hash → Hash → Hash) where
  first_pass-append :
      (l : List Hash) (a b : Hash)
      → length l ≡ 512
      → first_pass fast 513 (l ++ a ∷ b ∷ []) ≡ l ++ fast a b ∷ []
  unfolding first_pass pairs
  first_pass-append l a b e =
      let skip : 2 * 513 - length (l ++ a ∷ b ∷ []) ≡ length l =
        omega (arith, e, length-append l (a ∷ b ∷ [])) in
      rw (skip, first_pass) (rw (take-append l (a ∷ b ∷ []), drop-append l (a ∷ b ∷ [])) refl)

  reduce_513 :
      (l : List Hash) (h : Hash)
      → length l ≡ 512
      → reduce fast 64 513 (l ++ h ∷ []) ≡ reduce fast 63 256 (pairs fast l)
  unfolding reduce
  reduce_513 l h e =
      ap (λ r. reduce fast 63 256 (pairs fast r))
        (subst (λ n. take n (l ++ h ∷ []) ≡ l) e (take-append l (h ∷ [])))

  tree_hash_unfold :
      (l : List Hash)
      → length l ≡ 514
      → tree_hash fast l ≡ some (reduce fast 64 513 (first_pass fast 513 l))
  unfolding tree_hash
  tree_hash_unfold [] e = absurd (omega arith)
  tree_hash_unfold (x ∷ []) e = absurd (omega arith)
  tree_hash_unfold (x ∷ y ∷ []) e = absurd (omega arith)
  tree_hash_unfold (x ∷ y ∷ z ∷ l) e =
      ap (λ n. some (reduce fast 64 n (first_pass fast n (x ∷ y ∷ z ∷ l))))
        (ap leaf_count e ∙ leaf_count_514)

  root :
      (l : List Hash) (a b : Hash)
      → length l ≡ 512
      → tree_hash fast (l ++ a ∷ b ∷ []) ≡ some (reduce fast 63 256 (pairs fast l))
  root l a b e =
      tree_hash_unfold (l ++ a ∷ b ∷ []) (omega (arith, length-append l (a ∷ b ∷ [])))
      ∙ (ap (λ r. some (reduce fast 64 513 r)) (first_pass-append l a b e)
          ∙ ap some (reduce_513 l (fast a b) e))

  -- For 514 hashes the root does not depend on the last two.
  pub tree_hash-collides :
      (l : List Hash) (a b a' b' : Hash)
      → length l ≡ 512
      → tree_hash fast (l ++ a ∷ b ∷ []) ≡ tree_hash fast (l ++ a' ∷ b' ∷ [])
  tree_hash-collides l a b a' b' e = root l a b e ∙ sym (root l a' b' e)

-- ===== src/Common/Sort.antt =====
-- std::sort on unsigned numbers, as an insertion sort, and what the callers rely on.
use Prim.Native.Nat.{ℕ, zero, suc, ◌≤◌, ◌<◌}
use mathlib.Core.Path.{◌≡◌, refl}
use mathlib.Core.List.{List, [], ◌∷◌, Perm}
use mathlib.Core.List.Perm
use native.Mathlib.Omega.{arith}
use bytecoin.Common.Tests.{leb, if◌then◌else◌, Bool-cases, leb→le}
use bytecoin.Common.Lists.{length, get_or, All}
use mathlib.Core.Logic.{inl, inr}

unfoldable pub insert_sorted : ℕ → List ℕ → List ℕ
insert_sorted x [] = x ∷ []
insert_sorted x (y ∷ ys) = if leb x y then x ∷ y ∷ ys else y ∷ insert_sorted x ys

unfoldable pub sort : List ℕ → List ℕ
unfolding insert_sorted
sort [] = []
sort (x ∷ xs) = insert_sorted x (sort xs)

abbrev pub IsSorted : List ℕ → Type 0
IsSorted [] = Unit
IsSorted (x ∷ xs) = All (λ y. x ≤ y) xs × IsSorted xs

All-weaken : (x y : ℕ) (l : List ℕ) → x ≤ y → All (λ z. y ≤ z) l → All (λ z. x ≤ z) l
All-weaken x y [] h a = tt
All-weaken x y (z ∷ l) h (a, r) = (omega arith, All-weaken x y l h r)

All-insert_sorted :
    (b x : ℕ) (l : List ℕ) → b ≤ x → All (λ z. b ≤ z) l → All (λ z. b ≤ z) (insert_sorted x l)
unfolding insert_sorted
All-insert_sorted b x [] h a = (h, tt)
All-insert_sorted b x (y ∷ l) h (a, r) = elim (Bool-cases (leb x y)) [
  | inl e ↦ rw e (h, (a, r))
  | inr e ↦ rw e (a, All-insert_sorted b x l h r)
]

insert_sorted-IsSorted : (x : ℕ) (l : List ℕ) → IsSorted l → IsSorted (insert_sorted x l)
unfolding insert_sorted
insert_sorted-IsSorted x [] s = (tt, tt)
insert_sorted-IsSorted x (y ∷ l) (a, s) = elim (Bool-cases (leb x y)) [
  | inl e ↦ let le = leb→le x y e in rw e ((le, All-weaken x y l le a), (a, s))
  | inr e ↦ rw e (All-insert_sorted y x l (ground arith) a, insert_sorted-IsSorted x l s)
]

pub sort-IsSorted : (l : List ℕ) → IsSorted (sort l)
unfolding sort
sort-IsSorted [] = tt
sort-IsSorted (x ∷ l) = insert_sorted-IsSorted x (sort l) (sort-IsSorted l)

insert_sorted-perm : (x : ℕ) (l : List ℕ) → Perm (insert_sorted x l) (x ∷ l)
unfolding insert_sorted
insert_sorted-perm x [] = Perm.refl (x ∷ [])
insert_sorted-perm x (y ∷ l) = elim (Bool-cases (leb x y)) [
  | inl e ↦ rw e (Perm.refl (x ∷ y ∷ l))
  | inr e ↦ rw e (Perm.trans (Perm.cons y (insert_sorted-perm x l)) (Perm.swap x y l))
]

pub sort-perm : (l : List ℕ) → Perm (sort l) l
unfolding sort
sort-perm [] = Perm.refl []
sort-perm (x ∷ l) = Perm.trans (insert_sorted-perm x (sort l)) (Perm.cons x (sort-perm l))

length-insert_sorted : (x : ℕ) (l : List ℕ) → length (insert_sorted x l) ≡ suc (length l)
unfolding insert_sorted
length-insert_sorted x [] = refl
length-insert_sorted x (y ∷ l) = ground (arith, length-insert_sorted x l)

pub length-sort : (l : List ℕ) → length (sort l) ≡ length l
unfolding sort
length-sort [] = refl
length-sort (x ∷ l) = omega (arith, length-insert_sorted x (sort l), length-sort l)

All-get_or : (b : ℕ) (l : List ℕ) (i d : ℕ) → All (λ z. b ≤ z) l → i < length l → b ≤ get_or l i d
All-get_or b [] i d a h = absurd (omega arith)
All-get_or b (x ∷ l) zero d (a, r) h = a
All-get_or b (x ∷ l) (suc i) d (a, r) h = All-get_or b l i d r (omega arith)

pub IsSorted-get_or :
    (l : List ℕ) (i j d : ℕ) → IsSorted l → i ≤ j → j < length l → get_or l i d ≤ get_or l j d
IsSorted-get_or [] i j d s h k = absurd (omega arith)
IsSorted-get_or (x ∷ l) zero zero d s h k = omega arith
IsSorted-get_or (x ∷ l) zero (suc j) d (a, s) h k = All-get_or x l j d a (omega arith)
IsSorted-get_or (x ∷ l) (suc i) zero d s h k = absurd (omega arith)
IsSorted-get_or (x ∷ l) (suc i) (suc j) d (a, s) h k =
    IsSorted-get_or l i j d s (omega arith) (omega arith)

All-insert {κ} : (P : ℕ → Type κ) (x : ℕ) (l : List ℕ) → P x → All P l → All P (insert_sorted x l)
unfolding insert_sorted
All-insert P x [] p a = (p, tt)
All-insert P x (y ∷ l) p (q, r) = elim (Bool-cases (leb x y)) [
  | inl e ↦ rw e (p, (q, r))
  | inr e ↦ rw e (q, All-insert P x l p r)
]

pub All-sort {κ} : (P : ℕ → Type κ) (l : List ℕ) → All P l → All P (sort l)
unfolding sort
All-sort P [] a = tt
All-sort P (x ∷ l) (p, a) = All-insert P x (sort l) p (All-sort P l a)

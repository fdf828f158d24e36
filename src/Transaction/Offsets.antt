-- ===== src/Transaction/Offsets.antt =====
-- src/cryptonote_core/cryptonote_format_utils.cpp: the key offsets of an input, as differences and
-- as indices.
use bytecoin.Common.{ℕ, ◌≤◌, ◌≡◌, refl, List, [], ◌∷◌, arith, All}
use bytecoin.Common.Word.{IsU64, add64, sub64}
use bytecoin.Common.Sort.{sort, sort-IsSorted, All-sort, IsSorted}

-- `res[i] += res[i - 1]`, from the front.
unfoldable pub accumulate : ℕ → List ℕ → List ℕ
accumulate prev [] = []
accumulate prev (x ∷ xs) = add64 x prev ∷ accumulate (add64 x prev) xs

unfoldable pub relative_output_offsets_to_absolute : List ℕ → List ℕ
unfolding accumulate
relative_output_offsets_to_absolute [] = []
relative_output_offsets_to_absolute (x ∷ xs) = x ∷ accumulate x xs

-- `res[i] -= res[i - 1]`, from the back, so that each element is taken from the original one.
unfoldable pub differences : ℕ → List ℕ → List ℕ
differences prev [] = []
differences prev (x ∷ xs) = sub64 x prev ∷ differences x xs

abbrev first_and_differences : List ℕ → List ℕ
first_and_differences [] = []
first_and_differences (x ∷ xs) = x ∷ differences x xs

unfoldable pub absolute_output_offsets_to_relative : List ℕ → List ℕ
unfolding differences
absolute_output_offsets_to_relative off = first_and_differences (sort off)

accumulate-differences :
    (xs : List ℕ) (prev : ℕ)
    → IsU64 prev
    → All IsU64 xs
    → All (λ y. prev ≤ y) xs
    → IsSorted xs
    → accumulate prev (differences prev xs) ≡ xs
unfolding accumulate differences
accumulate-differences [] prev hp a b s = refl
accumulate-differences (x ∷ xs) prev hp (u, a) (l, b) (c, s) =
    let back : add64 (sub64 x prev) prev ≡ x = omega arith in
    rw back (λ i. x ∷ accumulate-differences xs x u a c s i)

round_trip_sorted :
    (l : List ℕ)
    → All IsU64 l
    → IsSorted l
    → relative_output_offsets_to_absolute (first_and_differences l) ≡ l
unfolding relative_output_offsets_to_absolute
round_trip_sorted [] a s = refl
round_trip_sorted (x ∷ xs) (u, a) (b, s) = λ i. x ∷ accumulate-differences xs x u a b s i

-- 64-bit offsets that are made relative and then absolute again are the indices in ascending
-- order.
pub relative-absolute :
    (off : List ℕ)
    → All IsU64 off
    → relative_output_offsets_to_absolute (absolute_output_offsets_to_relative off) ≡ sort off
unfolding absolute_output_offsets_to_relative
relative-absolute off a = round_trip_sorted (sort off) (All-sort IsU64 off a) (sort-IsSorted off)

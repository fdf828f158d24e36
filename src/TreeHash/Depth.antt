-- ===== src/TreeHash/Depth.antt =====
-- The two loops over the bits in src/crypto/tree-hash.c find the depth of the tree.
use bytecoin.Common.{
  ◌/◌, ltb, ℕ, zero, suc, ◌+◌, ◌*◌, ◌^◌, ◌≤◌, ◌<◌, ◌≡◌, refl, sym, ap, ◌∙◌, subst, inl, inr, leb,
  arith, Bool-cases,
}
use native.Mathlib.Nat.{two-pow-succ, le-div_iff_mul-le, div-lt_iff_lt-mul, pow-le-pow_right}
use bytecoin.Common.Bits.{twice_multiple}
use bytecoin.Common.Word.{shl64}
use bytecoin.TreeHash.Branch.{tree_depth, depth_loop, size_loop}
use bytecoin.TreeHash.Merkle.{positive}

pow_le : (i j : ℕ) → i ≤ j → 2 ^ i ≤ 2 ^ j
pow_le i j h = pow-le-pow_right {n = 2} (omega arith) {i = i} {j = j} h

pow_add : (a b : ℕ) → 2 ^ (a + b) ≡ 2 ^ a * 2 ^ b
pow_add a zero = ap (λ k. 2 ^ k) (let e : a + 0 ≡ a = omega arith in e) ∙ omega arith
pow_add a (suc b) =
    ap (λ k. 2 ^ k) (let e : a + suc b ≡ suc (a + b) = omega arith in e)
    ∙ omega (arith, two-pow-succ (a + b), pow_add a b, twice_multiple (2 ^ a) b)

-- The depth of the greatest power of two that is not above the count.
abbrev pub IsDepth : ℕ → ℕ → Type 0
IsDepth count d = (2 ^ d ≤ count) × (count < 2 ^ suc d)

pub size_loop_lem :
    (n count d : ℕ)
    → d + 2 ^ n ≤ 64
    → 2 ^ d ≤ count
    → count < 2 ^ (d + 2 ^ n)
    → (e : ℕ) × (size_loop n count (2 ^ d) d ≡ (2 ^ e, e)) × IsDepth count e
unfolding size_loop
size_loop_lem zero count d fit low high =
    (d, refl, (low, subst (λ k. count < 2 ^ k) (omega arith) high))
size_loop_lem (suc n) count d fit low high =
    let half = two-pow-succ n in
    let small = pow_le (d + 2 ^ n) 63 (omega (arith, half, positive n)) in
    let shifted : shl64 (2 ^ d) (2 ^ n) ≡ 2 ^ (d + 2 ^ n) =
      omega (arith, pow_add d (2 ^ n), small) in
    elim (Bool-cases (leb (shl64 (2 ^ d) (2 ^ n)) count)) [
      | inl h ↦
          let (e, same, is) =
            size_loop_lem n count (d + 2 ^ n) (omega (arith, half)) (ground (arith, shifted))
              (subst (λ k. count < 2 ^ k) (omega (arith, half)) high) in
          (e, rw (h, shifted) same, is)
      | inr h ↦
          let (e, same, is) =
            size_loop_lem n count d (omega (arith, half)) low (ground (arith, shifted)) in
          (e, rw h same, is)
    ]

pub depth_unique : (count d e : ℕ) → IsDepth count d → IsDepth count e → d ≤ e
depth_unique count d e (a, b) (s, t) = elim (native.Mathlib.Decide.dec_lt e d) [
  | yes l ↦ absurd (omega (arith, pow_le (suc e) d l))
  | no l ↦ omega arith
]

depth_loop_lem :
    (n count d : ℕ)
    → 0 < count
    → count < 2 ^ (2 ^ n)
    → (e : ℕ) × (depth_loop n count d ≡ d + e) × IsDepth count e
unfolding depth_loop
depth_loop_lem zero count d low high = (0, omega arith, (omega arith, omega arith))
depth_loop_lem (suc n) count d low high =
    let i = 2 ^ n in
    let rest = count / 2 ^ i in
    let room : count < 2 ^ i * 2 ^ i =
      subst (λ k. count < k) (ap (λ k. 2 ^ k) (two-pow-succ n) ∙ pow_add i i) high in
    elim (Bool-cases (ltb 0 rest)) [
      | inl h ↦
          let (e, same, (below, above)) =
            depth_loop_lem n rest (d + i) (ground arith)
              ((div-lt_iff_lt-mul {k = 2 ^ i} {x = count} {y = 2 ^ i} (positive i)).1 room) in
          let least =
            (le-div_iff_mul-le {k = 2 ^ i} {x = 2 ^ e} {y = count} (positive i)).0 below in
          let most =
            (div-lt_iff_lt-mul {k = 2 ^ i} {x = count} {y = 2 ^ suc e} (positive i)).0 above in
          (
            i + e,
            rw h (same ∙ omega arith),
            (
              subst (λ k. k ≤ count) (sym (pow_add e i) ∙ ap (λ k. 2 ^ k) (omega arith)) least,
              subst (λ k. count < k) (sym (pow_add (suc e) i) ∙ ap (λ k. 2 ^ k) (omega arith)) most,
            ),
          )
      | inr h ↦
          let empty : rest < 1 = ground arith in
          let small : count < 2 ^ i =
            omega
              (arith, (div-lt_iff_lt-mul {k = 2 ^ i} {x = count} {y = 1} (positive i)).0 empty) in
          let (e, same, is) = depth_loop_lem n count d low small in (e, rw h same, is)
    ]

pub tree_depth_lem : (count : ℕ) → 0 < count → count < 2 ^ 64 → IsDepth count (tree_depth count)
unfolding tree_depth
tree_depth_lem count low high =
    let (e, same, is) = depth_loop_lem 6 count 0 low (omega arith) in
    subst (IsDepth count) (let flip : e ≡ depth_loop 6 count 0 = omega (arith, same) in flip) is

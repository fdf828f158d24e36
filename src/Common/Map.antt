-- ===== src/Common/Map.antt =====
-- std::map, std::unordered_map and sets by key, as functions from the keys.
use Prim.Native.Nat.{ℕ}
use mathlib.Core.Path.{◌≡◌, sym, fun_ext, ap, ◌∙◌}
use mathlib.Core.Logic.{◌≢◌, inl, inr}
use mathlib.Core.Bool.{Bool, true, false}
use mathlib.Core.Option.{Option, none, some}
use native.Mathlib.Omega.{arith}
use bytecoin.Common.Tests.{◌==◌, if◌then◌else◌, Bool-cases, ==_iff}

abbrev pub Map {ℓ} : Type ℓ → Type ℓ
Map V = ℕ → Option V

-- A set of numbers, as its characteristic function.
abbrev pub NumberSet : Type 0
NumberSet = ℕ → Bool

module _ {ℓ} {V : Type ℓ} where
  unfoldable pub put : Map V → ℕ → V → Map V
  put m k v j = if j == k then some v else m j

  unfoldable pub erase : Map V → ℕ → Map V
  erase m k j = if j == k then none else m j

  pub put_self : (m : Map V) (k : ℕ) (v : V) → put m k v k ≡ some v
  unfolding put
  put_self m k v = ground arith

  pub put_ne : (m : Map V) (k j : ℕ) (v : V) → j ≢ k → put m k v j ≡ m j
  unfolding put
  put_ne m k j v h = ground arith

  pub put-same : (m : Map V) (k : ℕ) (v : V) → m k ≡ some v → put m k v ≡ m
  unfolding put
  put-same m k v e = fun_ext (λ j. pointwise j)
    where
      pointwise : (j : ℕ) → (if j == k then some v else m j) ≡ m j
      pointwise j = elim (Bool-cases (j == k)) [
        | inl h ↦ rw h (sym e ∙ ap m (sym ((==_iff j k).0 h)))
        | inr h ↦ rw h
      ]

  pub put-put : (m : Map V) (k : ℕ) (v w : V) → put (put m k v) k w ≡ put m k w
  unfolding put
  put-put m k v w = fun_ext (λ j. ground arith)

  pub put_comm : (m : Map V) (k j : ℕ) (v w : V) → k ≢ j → put (put m k v) j w ≡ put (put m j w) k v
  unfolding put
  put_comm m k j v w h = fun_ext (λ i. ground arith)

  pub erase-put : (m : Map V) (k : ℕ) (v : V) → m k ≡ none → erase (put m k v) k ≡ m
  unfolding put erase
  erase-put m k v e = fun_ext (λ j. pointwise j)
    where
      pointwise : (j : ℕ) → (if j == k then none else if j == k then some v else m j) ≡ m j
      pointwise j = elim (Bool-cases (j == k)) [
        | inl h ↦ rw h (sym e ∙ ap m (sym ((==_iff j k).0 h)))
        | inr h ↦ rw h
      ]

unfoldable pub add : NumberSet → ℕ → NumberSet
add s k j = if j == k then true else s j

unfoldable pub remove : NumberSet → ℕ → NumberSet
remove s k j = if j == k then false else s j

pub remove-add : (s : NumberSet) (k : ℕ) → s k ≡ false → remove (add s k) k ≡ s
unfolding add remove
remove-add s k e = fun_ext (λ j. pointwise j)
  where
    pointwise : (j : ℕ) → (if j == k then false else if j == k then true else s j) ≡ s j
    pointwise j = elim (Bool-cases (j == k)) [
      | inl h ↦ rw h (sym e ∙ ap s (sym ((==_iff j k).0 h)))
      | inr h ↦ rw h
    ]

pub remove-add_ne : (s : NumberSet) (k j : ℕ) → k ≢ j → remove (add s k) j ≡ add (remove s j) k
unfolding add remove
remove-add_ne s k j h = fun_ext (λ i. ground arith)

pub remove_comm : (s : NumberSet) (k j : ℕ) → remove (remove s k) j ≡ remove (remove s j) k
unfolding remove
remove_comm s k j = fun_ext (λ i. ground arith)

pub add_comm_set : (s : NumberSet) (k j : ℕ) → add (add s k) j ≡ add (add s j) k
unfolding add
add_comm_set s k j = fun_ext (λ i. ground arith)

-- ===== src/Storage/Usage.antt =====
-- The isUsed flags: marking the inputs of a transaction, and taking the marks back.
use bytecoin.Common.{
  ℕ, zero, suc, ◌<◌, ◌≡◌, refl, sym, ◌∙◌, ap, ◌≢◌, inl, inr, Bool, true, false, Option, none, some,
  List, [], ◌∷◌, arith, length, Bool-cases, ==_iff, ◌==◌, All,
}
use bytecoin.Common.Map.{Map, put, put_self, put_ne, put-same, put-put, put_comm}
use bytecoin.Transaction.{TransactionInput, TransactionInputMultisignature}
use bytecoin.Storage.{MultisignatureOutputUsage}
use bytecoin.Storage.Push.{set_flag, or_empty, vector_at, set_usage}

abbrev pub Usages : Type 0
Usages = Map (List MultisignatureOutputUsage)

-- The i-th output is there and not used.
abbrev pub IsUnused : List MultisignatureOutputUsage → ℕ → Type 0
IsUnused [] i = ⊥
IsUnused (u ∷ us) zero = u.is_used ≡ false
IsUnused (u ∷ us) (suc i) = IsUnused us i

-- The write of a flag where it is in range.
pub flag : List MultisignatureOutputUsage → ℕ → Bool → List MultisignatureOutputUsage
flag [] i x = []
flag (u ∷ us) zero x = record u { is_used = x } ∷ us
flag (u ∷ us) (suc i) x = u ∷ flag us i x

pub set_flag-in :
    (us : List MultisignatureOutputUsage) (i : ℕ) (x : Bool)
    → i < length us
    → set_flag us i x ≡ some (flag us i x)
unfolding set_flag flag
set_flag-in [] i x h = absurd (omega arith)
set_flag-in (u ∷ us) zero x h = refl
set_flag-in (u ∷ us) (suc i) x h = rw (set_flag-in us i x (omega arith))

length-flag :
    (us : List MultisignatureOutputUsage) (i : ℕ) (x : Bool) → length (flag us i x) ≡ length us
unfolding flag
length-flag [] i x = refl
length-flag (u ∷ us) zero x = refl
length-flag (u ∷ us) (suc i) x = ap suc (length-flag us i x)

flag_comm :
    (us : List MultisignatureOutputUsage) (i j : ℕ) (x y : Bool)
    → i ≢ j
    → flag (flag us i x) j y ≡ flag (flag us j y) i x
unfolding flag
flag_comm [] i j x y h = refl
flag_comm (u ∷ us) zero zero x y h = absurd (h refl)
flag_comm (u ∷ us) zero (suc j) x y h = refl
flag_comm (u ∷ us) (suc i) zero x y h = refl
flag_comm (u ∷ us) (suc i) (suc j) x y h = λ k. u ∷ flag_comm us i j x y (λ e. h (ap suc e)) k

flag-reset :
    (us : List MultisignatureOutputUsage) (i : ℕ)
    → IsUnused us i
    → flag (flag us i true) i false ≡ us
unfolding flag
flag-reset [] i h = absurd h
flag-reset (u ∷ us) zero h = λ k. record u { is_used = sym h k } ∷ us
flag-reset (u ∷ us) (suc i) h = λ k. u ∷ flag-reset us i h k

pub IsUnused-length : (us : List MultisignatureOutputUsage) (i : ℕ) → IsUnused us i → i < length us
IsUnused-length [] i h = absurd h
IsUnused-length (u ∷ us) zero h = omega arith
IsUnused-length (u ∷ us) (suc i) h = omega (arith, IsUnused-length us i h)

vector_at-put :
    (m : Usages) (a : ℕ) (v : List MultisignatureOutputUsage) → vector_at (put m a v) a ≡ v
vector_at-put m a v = ap or_empty (put_self m a v)

vector_at-put_ne :
    (m : Usages) (a c : ℕ) (v : List MultisignatureOutputUsage)
    → c ≢ a
    → vector_at (put m a v) c ≡ vector_at m c
vector_at-put_ne m a c v h = ap or_empty (put_ne m a c v h)

pub write : Usages → ℕ → ℕ → Bool → Usages
write m a i x = put m a (flag (vector_at m a) i x)

pub vector_at-write :
    (m : Usages) (a i c : ℕ) (x : Bool)
    → length (vector_at (write m a i x) c) ≡ length (vector_at m c)
unfolding write
vector_at-write m a i c x = elim (Bool-cases (c == a)) [
  | inl e ↦
      let p = (==_iff c a).0 e in
      rw (p, vector_at-put m a (flag (vector_at m a) i x)) (length-flag (vector_at m a) i x)
  | inr e ↦ rw (vector_at-put_ne m a c (flag (vector_at m a) i x) (ground arith))
]

write_comm :
    (m : Usages) (a i c j : ℕ) (x y : Bool)
    → (a ≡ c → i ≢ j)
    → write (write m a i x) c j y ≡ write (write m c j y) a i x
unfolding write
write_comm m a i c j x y h = elim (Bool-cases (a == c)) [
  | inl e ↦
      let p = (==_iff a c).0 e in
      rw (p, vector_at-put, vector_at-put, put-put, put-put)
        (ap (put m c) (flag_comm (vector_at m c) i j x y (h p)))
  | inr e ↦
      let ne : a ≢ c = ground arith in
      rw
        (
          vector_at-put_ne m a c (flag (vector_at m a) i x) (λ q. ne (sym q)),
          vector_at-put_ne m c a (flag (vector_at m c) j y) ne,
        )
        (put_comm m a c (flag (vector_at m a) i x) (flag (vector_at m c) j y) ne)
]

present :
    (o : Option (List MultisignatureOutputUsage)) (i : ℕ)
    → IsUnused (or_empty o) i
    → o ≡ some (or_empty o)
present none i h = absurd h
present (some l) i h = refl

write-reset :
    (m : Usages) (a i : ℕ) → IsUnused (vector_at m a) i → write (write m a i true) a i false ≡ m
unfolding write
write-reset m a i h =
    rw (vector_at-put m a (flag (vector_at m a) i true), put-put, flag-reset (vector_at m a) i h)
      (put-same m a (vector_at m a) (present (m a) i h))

-- The inputs of a transaction that are of a multisignature output.
abbrev pub multisignature_inputs : List TransactionInput → List TransactionInputMultisignature
multisignature_inputs [] = []
multisignature_inputs (TransactionInput.multisignature i ∷ vin) = i ∷ multisignature_inputs vin
multisignature_inputs (TransactionInput.to_key _ ∷ vin) = multisignature_inputs vin
multisignature_inputs (TransactionInput.generate _ ∷ vin) = multisignature_inputs vin
multisignature_inputs (TransactionInput.to_script ∷ vin) = multisignature_inputs vin
multisignature_inputs (TransactionInput.to_script_hash ∷ vin) = multisignature_inputs vin

abbrev pub AreUnused : Usages → List TransactionInputMultisignature → Type 0
AreUnused m = All (λ i. IsUnused (vector_at m i.amount) i.output_index)

-- The output that an input names is not named by any of `others`.
abbrev pub IsAlone : TransactionInputMultisignature → List TransactionInputMultisignature → Type 0
IsAlone i = All (λ j. i.amount ≡ j.amount → i.output_index ≢ j.output_index)

abbrev pub NameDistinct : List TransactionInputMultisignature → Type 0
NameDistinct [] = Unit
NameDistinct (i ∷ l) = IsAlone i l × NameDistinct l

unfoldable pub write_all : Bool → Usages → List TransactionInputMultisignature → Usages
write_all x m [] = m
write_all x m (i ∷ l) = write_all x (write m i.amount i.output_index x) l

write-write_all :
    (l : List TransactionInputMultisignature) (m : Usages) (i : TransactionInputMultisignature)
    (x y : Bool)
    → IsAlone i l
    → write (write_all x m l) i.amount i.output_index y
      ≡ write_all x (write m i.amount i.output_index y) l
unfolding write_all
write-write_all [] m i x y a = refl
write-write_all (j ∷ l) m i x y (h, a) =
    write-write_all l (write m j.amount j.output_index x) i x y a
    ∙ ap (λ u. write_all x u l)
        (write_comm m j.amount j.output_index i.amount i.output_index x y
          (λ p q. h (sym p) (sym q)))

pub write_all-reset :
    (l : List TransactionInputMultisignature) (m : Usages)
    → NameDistinct l
    → AreUnused m l
    → write_all false (write_all true m l) l ≡ m
unfolding write_all
write_all-reset [] m d u = refl
write_all-reset (i ∷ l) m (a, d) (h, u) =
    ap (λ s. write_all false s l)
      (write-write_all l (write m i.amount i.output_index true) i true false a)
    ∙ ap (λ s. write_all false (write_all true s l) l) (write-reset m i.amount i.output_index h)
    ∙ write_all-reset l m d u

-- In range, the code's write is this one.
pub set_usage-in :
    (m : Usages) (a i : ℕ) (x : Bool)
    → i < length (vector_at m a)
    → set_usage m a i x ≡ some (write m a i x)
unfolding set_usage write
set_usage-in m a i x h = rw (set_flag-in (vector_at m a) i x h, set_usage)

-- A write in range leaves no amount with an empty vector.
pub write-ne_empty :
    (m : Usages) (a i : ℕ) (x : Bool)
    → i < length (vector_at m a)
    → ((c : ℕ) → m c ≢ some [])
    → (c : ℕ) → write m a i x c ≢ some []
unfolding write
write-ne_empty m a i x h k c e = elim (Bool-cases (c == a)) [
  | inl t ↦
      let p = (==_iff c a).0 t in
      let here = sym (put_self m a (flag (vector_at m a) i x)) ∙ (rw p at e) in
      let empty : length (flag (vector_at m a) i x) ≡ 0 = ap (λ o. length (or_empty o)) here in
      omega (arith, empty, length-flag (vector_at m a) i x)
  | inr t ↦ k c (sym (put_ne m a c (flag (vector_at m a) i x) (ground arith)) ∙ e)
]

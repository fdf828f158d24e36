-- ===== src/Pool/Expiry.antt =====
-- `removeExpiredTransactions`: which transactions stay, and that the pool stays consistent.
use bytecoin.Common.{
  ℕ, ◌+◌, ◌%◌, ◌^◌, ◌≤◌, ◌<◌, ◌≡◌, refl, sym, ap, ◌∙◌, subst, Bool, true, false, ◌||◌, inl, inr,
  some, List, [], ◌∷◌, ◌++◌, ◌==◌, ltb, if◌then◌else◌, arith, Bool-cases, ==_self, append_assoc,
  length, All,
}
use bytecoin.Common.Word.{sub64}
use bytecoin.Currency.{Currency}
use bytecoin.Pool.{TransactionDetails, Pool}
use bytecoin.Pool.Order.{find_transaction, erase_transaction}
use bytecoin.Pool.Calls.{
  is_outdated, remove_transaction, remove_outdated, remove_expired_transactions, on_idle,
}
use bytecoin.Pool.Totals.{total, total-append, with_id}
use bytecoin.Pool.Consistency.{IsConsistent}
use bytecoin.Pool.Removal.{remove_transaction-IsConsistent}

-- The elements that are not outdated, and whether one is.
unfoldable pub young : Currency → ℕ → List TransactionDetails → List TransactionDetails
young c now [] = []
young c now (d ∷ ds) = let rest = young c now ds in if is_outdated c now d then rest else d ∷ rest

unfoldable pub any_outdated : Currency → ℕ → List TransactionDetails → Bool
any_outdated c now [] = false
any_outdated c now (d ∷ ds) = is_outdated c now d || any_outdated c now ds

-- The first element with a hash that stands behind others with other hashes.
find_behind :
    (d : TransactionDetails) (before ds : List TransactionDetails)
    → total (with_id d.id) before ≡ 0
    → find_transaction d.id (before ++ d ∷ ds) ≡ some d
unfolding total find_transaction
find_behind d [] ds z = rw (==_self d.id)
find_behind d (x ∷ before) ds z = elim (Bool-cases (x.id == d.id)) [
  | inl s ↦ absurd (omega (arith, rw s at z))
  | inr s ↦ rw s (find_behind d before ds (omega (arith, rw s at z)))
]

erase_behind :
    (d : TransactionDetails) (before ds : List TransactionDetails)
    → total (with_id d.id) before ≡ 0
    → erase_transaction d.id (before ++ d ∷ ds) ≡ before ++ ds
unfolding total erase_transaction
erase_behind d [] ds z = rw (==_self d.id)
erase_behind d (x ∷ before) ds z = elim (Bool-cases (x.id == d.id)) [
  | inl s ↦ absurd (omega (arith, rw s at z))
  | inr s ↦ rw s (ap (λ l. x ∷ l) (erase_behind d before ds (omega (arith, rw s at z))))
]

none_before :
    (p : Pool) (d : TransactionDetails) (before ds : List TransactionDetails)
    → IsConsistent p
    → p.transactions ≡ before ++ d ∷ ds
    → total (with_id d.id) before ≡ 0
none_before p d before ds ok e =
    let once = subst (λ l. total (with_id d.id) l ≤ 1) e (ok.ids d.id) in
    let parts = total-append (with_id d.id) before (d ∷ ds) in
    let here : 1 ≤ total (with_id d.id) (d ∷ ds) =
      unfold total in rw (==_self d.id) (omega arith) in
    omega (arith, once, parts, here)

transactions-remove :
    (p : Pool) (d : TransactionDetails)
    → (remove_transaction p d).transactions ≡ erase_transaction d.id p.transactions
unfolding remove_transaction
transactions-remove p d = refl

remove_outdated_lem :
    (c : Currency) (now : ℕ) (p : Pool) (before ds : List TransactionDetails)
    → IsConsistent p
    → p.transactions ≡ before ++ ds
    → let (q, removed) = remove_outdated c now p ds in
      IsConsistent q
      × (q.transactions ≡ before ++ young c now ds)
      × (removed ≡ any_outdated c now ds)
unfolding remove_outdated young any_outdated
remove_outdated_lem c now p before [] ok e = (ok, e, refl)
remove_outdated_lem c now p before (d ∷ ds) ok e =
    let z = none_before p d before ds ok e in
    let found : find_transaction d.id p.transactions ≡ some d = rw e (find_behind d before ds z) in
    elim (Bool-cases (is_outdated c now d)) [
      | inl s ↦ rw s (
          let (good, rest, flag) =
            remove_outdated_lem c now (remove_transaction p d) before ds
              (remove_transaction-IsConsistent p d ok found)
              (transactions-remove p d ∙ rw e (erase_behind d before ds z)) in
          (good, rest, refl))
      | inr s ↦ rw s (
          let (good, rest, flag) =
            remove_outdated_lem c now p (before ++ d ∷ []) ds ok
              (e ∙ sym (append_assoc before (d ∷ []) ds)) in
          (good, rest ∙ append_assoc before (d ∷ []) (young c now ds), flag))
    ]

remove_expired_transactions-young :
    (c : Currency) (now : ℕ) (p : Pool)
    → IsConsistent p
    → let (q, removed) = remove_expired_transactions c now p in
      IsConsistent q
      × (q.transactions ≡ young c now p.transactions)
      × (removed ≡ any_outdated c now p.transactions)
unfolding remove_expired_transactions
remove_expired_transactions-young c now p ok = remove_outdated_lem c now p [] p.transactions ok refl

-- The time since a transaction was received: what has to be added, in 64 bits, to the one for the
-- other.
abbrev pub IsAge : ℕ → TransactionDetails → ℕ → Type 0
IsAge now d age = (age < 2 ^ 64) × ((d.receive_time + age) % 2 ^ 64 ≡ now)

-- A transaction that may stay: a pool transaction and one of an alternative block have different
-- times to live.
abbrev pub IsYoung : Currency → ℕ → TransactionDetails → Type 0
IsYoung c now d =
    (age : ℕ) × IsAge now d age
    × (d.kept_by_block ≡ false → age ≤ c.mempool_tx_live_time)
    × (d.kept_by_block ≡ true → age ≤ c.mempool_tx_from_alt_block_live_time)

abbrev pub IsOld : Currency → ℕ → TransactionDetails → Type 0
IsOld c now d =
    (age : ℕ) × IsAge now d age
    × (d.kept_by_block ≡ false → c.mempool_tx_live_time < age)
    × (d.kept_by_block ≡ true → c.mempool_tx_from_alt_block_live_time < age)

-- `Leaves ds es`: the young elements of `ds`, in their order, are `es`.
pub data Leaves (c : Currency) (now : ℕ)
    : List TransactionDetails → List TransactionDetails → Type 0 where
  none_left : Leaves c now [] []
  stays :
      (d : TransactionDetails) {ds es : List TransactionDetails}
      → IsYoung c now d
      → Leaves c now ds es
      → Leaves c now (d ∷ ds) (d ∷ es)
  goes :
      (d : TransactionDetails) {ds es : List TransactionDetails}
      → IsOld c now d
      → Leaves c now ds es
      → Leaves c now (d ∷ ds) es

sub64-IsAge :
    (now : ℕ) (d : TransactionDetails)
    → now < 2 ^ 64
    → d.receive_time < 2 ^ 64
    → IsAge now d (sub64 now d.receive_time)
sub64-IsAge now d h k = (omega arith, omega arith)

is_outdated-IsOld :
    (c : Currency) (now : ℕ) (d : TransactionDetails)
    → now < 2 ^ 64
    → d.receive_time < 2 ^ 64
    → is_outdated c now d ≡ true
    → IsOld c now d
unfolding is_outdated
is_outdated-IsOld c now d h k e =
    (sub64 now d.receive_time, sub64-IsAge now d h k, (λ b. ground arith), (λ b. ground arith))

is_outdated-IsYoung :
    (c : Currency) (now : ℕ) (d : TransactionDetails)
    → now < 2 ^ 64
    → d.receive_time < 2 ^ 64
    → is_outdated c now d ≡ false
    → IsYoung c now d
unfolding is_outdated
is_outdated-IsYoung c now d h k e =
    (sub64 now d.receive_time, sub64-IsAge now d h k, (λ b. ground arith), (λ b. ground arith))

young-Leaves :
    (c : Currency) (now : ℕ) (ds : List TransactionDetails)
    → now < 2 ^ 64
    → All (λ d. d.receive_time < 2 ^ 64) ds
    → Leaves c now ds (young c now ds)
unfolding young
young-Leaves c now [] h k = none_left
young-Leaves c now (d ∷ ds) h (k, ks) = elim (Bool-cases (is_outdated c now d)) [
  | inl e ↦ rw e (goes d (is_outdated-IsOld c now d h k e) (young-Leaves c now ds h ks))
  | inr e ↦ rw e (stays d (is_outdated-IsYoung c now d h k e) (young-Leaves c now ds h ks))
]

length-young :
    (c : Currency) (now : ℕ) (ds : List TransactionDetails) → length (young c now ds) ≤ length ds
unfolding young
length-young c now [] = omega arith
length-young c now (d ∷ ds) = ground (arith, length-young c now ds)

any_outdated-length :
    (c : Currency) (now : ℕ) (ds : List TransactionDetails)
    → any_outdated c now ds ≡ ltb (length (young c now ds)) (length ds)
unfolding young any_outdated
any_outdated-length c now [] = ground arith
any_outdated-length c now (d ∷ ds) =
    ground (arith, length-young c now ds, any_outdated-length c now ds)

-- From a consistent pool, with a time and times of reception of 64 bits: the transactions stay, in
-- their order, whose age, counted in 64 bits, is not above the time to live, which is another one
-- where a block keeps the transaction; the others go; the pool stays consistent, and the result
-- tells whether it has become smaller.
pub remove_expired_transactions_lem :
    (c : Currency) (now : ℕ) (p : Pool)
    → IsConsistent p
    → now < 2 ^ 64
    → All (λ d. d.receive_time < 2 ^ 64) p.transactions
    → let (q, removed) = remove_expired_transactions c now p in
      IsConsistent q
      × Leaves c now p.transactions q.transactions
      × (removed ≡ ltb (length q.transactions) (length p.transactions))
remove_expired_transactions_lem c now p ok h times =
    let (good, rest, flag) = remove_expired_transactions-young c now p ok in
    (
      good,
      subst (Leaves c now p.transactions) (sym rest) (young-Leaves c now p.transactions h times),
      flag
          ∙ any_outdated-length c now p.transactions
          ∙ ap (λ (l : List TransactionDetails). ltb (length l) (length p.transactions)) (sym rest),
    )

pub on_idle-IsConsistent :
    (c : Currency) (now later : ℕ) (p : Pool)
    → IsConsistent p
    → IsConsistent (on_idle c now later p)
unfolding on_idle
on_idle-IsConsistent c now later p ok =
    let good = (remove_expired_transactions-young c now p ok).0 in
    elim (Bool-cases (ltb (p.last_worked_time + 60) now)) [
      | inl s ↦ rw s (record {
        ids = good.ids;
        held = good.held;
        filled = good.filled;
        outputs = good.outputs;
        single_images = good.single_images;
        single_outputs = good.single_outputs;
        distinct = good.distinct;
      })
      | inr s ↦ rw s ok
    ]

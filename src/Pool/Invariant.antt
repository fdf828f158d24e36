-- ===== src/Pool/Invariant.antt =====
-- What holds of the pool after any sequence of its calls.
use bytecoin.Common.{
  ℕ, ◌+◌, ◌≤◌, ◌≡◌, ◌≢◌, refl, sym, ap, ◌∙◌, inl, inr, false, none, some, List, [], ◌∷◌, ◌==◌,
  if◌then◌else◌, arith, Bool-cases, ==_iff, ==_ne,
}
use bytecoin.Currency.{Currency}
use bytecoin.Transaction.{Hash}
use bytecoin.Pool.{TransactionDetails, Pool, TransactionValidator}
use bytecoin.Pool.Order.{find_transaction, erase_transaction}
use bytecoin.Pool.Template.{
  BlockTemplate, fill_step, fill_loop, fill_block_template, max_template_size, empty_template,
}
use bytecoin.Pool.Totals.{
  Weight, total, images_of, outputs_of, with_id, holding, free_image, free_output,
  total-erase_transaction,
}
use bytecoin.Pool.Marking.{occurrences}
use bytecoin.Pool.Consistency.{AreDistinctWithin, IsConsistent}
use bytecoin.Pool.Expiry.{on_idle-IsConsistent}
use bytecoin.Pool.Steps.{
  Step, adds, takes, idles, fills, Reaches, here, after, add_tx-IsConsistent, take_tx-IsConsistent,
  total-fill_loop, fill_step_tx,
}

AreDistinctWithin-fill_loop :
    (v : TransactionValidator) (limit : ℕ) (t : BlockTemplate) (ds : List TransactionDetails)
    → AreDistinctWithin ds
    → AreDistinctWithin (fill_loop v limit t ds).0
unfolding fill_loop
AreDistinctWithin-fill_loop v limit t [] a = tt
AreDistinctWithin-fill_loop v limit t (d ∷ ds) (h, a) = (
  rw (fill_step_tx v limit t d) h,
  AreDistinctWithin-fill_loop v limit (fill_step v limit t d).1 ds a,
)

pub fill_block_template-IsConsistent :
    (v : TransactionValidator) (c : Currency) (p : Pool) (median_size max_cumulative_size : ℕ)
    → IsConsistent p
    → IsConsistent (fill_block_template v c p median_size max_cumulative_size).0
unfolding fill_block_template
fill_block_template-IsConsistent v c p median_size max_cumulative_size ok =
    let limit = max_template_size c median_size max_cumulative_size in
    let t = empty_template in
    let ds = p.transactions in
    record {
      ids = λ h. rw (total-fill_loop v limit (with_id h) (λ d a b. refl) t ds) (ok.ids h);
      held = λ k h. rw (total-fill_loop v limit (holding k h) (λ d a b. refl) t ds) (ok.held k h);
      filled = ok.filled;
      outputs = λ a i.
          rw (total-fill_loop v limit (free_output a i) (λ d a b. refl) t ds) (ok.outputs a i);
      single_images = λ k.
          rw (total-fill_loop v limit (free_image k) (λ d a b. refl) t ds) (ok.single_images k);
      single_outputs = λ a i.
          rw (total-fill_loop v limit (free_output a i) (λ d a b. refl) t ds)
            (ok.single_outputs a i);
      distinct = AreDistinctWithin-fill_loop v limit t ds ok.distinct;
    }

pub Step-IsConsistent : {c : Currency} {p q : Pool} → IsConsistent p → Step c p q → IsConsistent q
Step-IsConsistent {c} {p} ok (adds v tx id blob_size tvc kept now distinct) =
    add_tx-IsConsistent c v p tx id blob_size tvc kept now ok distinct
Step-IsConsistent {c} {p} ok (takes id t {q} e) = (take_tx-IsConsistent p q id t ok e).0
Step-IsConsistent {c} {p} ok (idles now later) = on_idle-IsConsistent c now later p ok
Step-IsConsistent {c} {p} ok (fills v median_size max_cumulative_size) =
    fill_block_template-IsConsistent v c p median_size max_cumulative_size ok

-- The pool before the first call.
abbrev pub empty_pool : Pool
empty_pool = record {
  transactions = [];
  spent_key_images = λ k. none;
  spent_outputs = λ a i. false;
  last_worked_time = 0;
}

empty_pool-IsConsistent : IsConsistent empty_pool
unfolding total occurrences
empty_pool-IsConsistent = record {
  ids = λ h. omega arith;
  held = λ k h. refl;
  filled = λ k e. cc e;
  outputs = λ a i. refl;
  single_images = λ k. omega arith;
  single_outputs = λ a i. omega arith;
  distinct = tt;
}

pub Reaches-IsConsistent :
    {c : Currency} {p q : Pool} → IsConsistent p → Reaches c p q → IsConsistent q
Reaches-IsConsistent ok here = ok
Reaches-IsConsistent ok (after r s) = Step-IsConsistent (Reaches-IsConsistent ok r) s

find-erase_ne :
    (id j : Hash) (ds : List TransactionDetails)
    → id ≢ j
    → find_transaction id (erase_transaction j ds) ≡ find_transaction id ds
unfolding find_transaction erase_transaction
find-erase_ne id j [] ne = refl
find-erase_ne id j (x ∷ ds) ne = elim (Bool-cases (x.id == j)) [
  | inl s ↦ rw (s, ==_ne x.id id (λ q. ne (sym q ∙ (==_iff x.id j).0 s)))
  | inr s ↦ rw s (ap (λ o. if x.id == id then some x else o) (find-erase_ne id j ds ne))
]

-- Two transactions of the pool weigh at most what all of them do.
two_of_total :
    (f : Weight) (ds : List TransactionDetails) (d e : TransactionDetails)
    → find_transaction d.id ds ≡ some d
    → find_transaction e.id ds ≡ some e
    → d.id ≢ e.id
    → f d + f e ≤ total f ds
two_of_total f ds d e fd fe ne = omega (
  arith,
  total-erase_transaction f d.id ds fd,
  total-erase_transaction f e.id (erase_transaction d.id ds)
      (find-erase_ne e.id d.id ds (λ q. ne (sym q)) ∙ fe),
)

-- Whatever calls are made on a new pool, with any validators and at any times, where a transaction
-- is added only with distinct inputs: no hash stands twice, the set of every key image holds
-- exactly the transactions that spend it and is not empty, the set of outputs is that of the
-- transactions that no block keeps, and those spend no key image and no output twice, all
-- together.
pub reached-IsConsistent : (c : Currency) (p : Pool) → Reaches c empty_pool p → IsConsistent p
reached-IsConsistent c p r = Reaches-IsConsistent empty_pool-IsConsistent r

-- Two transactions of a reached pool that no block keeps share no key image and no output.
pub reached_no_double_spend :
    (c : Currency) (p : Pool) (d e : TransactionDetails)
    → Reaches c empty_pool p
    → find_transaction d.id p.transactions ≡ some d
    → find_transaction e.id p.transactions ≡ some e
    → d.id ≢ e.id
    → d.kept_by_block ≡ false
    → e.kept_by_block ≡ false
    → ((k : ℕ) → images_of k d.tx.vin + images_of k e.tx.vin ≤ 1)
      × ((a i : ℕ) → outputs_of a i d.tx.vin + outputs_of a i e.tx.vin ≤ 1)
reached_no_double_spend c p d e r fd fe ne kd ke =
    let ok = reached-IsConsistent c p r in
    let two = λ (f : Weight). two_of_total f p.transactions d e fd fe ne in
    (
      λ k. omega (arith, rw (kd, ke) at (two (free_image k)), ok.single_images k),
      λ a i. omega (arith, rw (kd, ke) at (two (free_output a i)), ok.single_outputs a i),
    )

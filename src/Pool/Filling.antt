-- ===== src/Pool/Filling.antt =====
-- The theorem on `fill_block_template`: the block that the pool proposes.
use bytecoin.Common.{
  ℕ, ◌+◌, ◌%◌, ◌^◌, ◌≤◌, ◌<◌, ◌≡◌, refl, inl, inr, List, [], ◌∷◌, ◌++◌, arith, All, append-nil,
  append_assoc,
}
use bytecoin.Currency.{Currency}
use bytecoin.Pool.{TransactionDetails, Pool, TransactionValidator}
use bytecoin.Pool.Template.{empty_template, fill_block_template, max_template_size}
use bytecoin.Pool.Totals.{total}
use bytecoin.Pool.Consistency.{AreDistinctWithin, HasDistinctInputs, IsConsistent}
use bytecoin.Pool.TemplateLaws.{
  image_weight, output_weight, total_blob_size, total_fee, ids_of, Conflicts, Picks, finished, left,
  picked, Represents, total-snoc, fill_loop_lem,
}

-- No image and no output is spent twice by all elements together.
record SpendsOnce (cs : List TransactionDetails) : Type 0 where
  images : (k : ℕ) → total (image_weight k) cs ≤ 1
  outputs : (a i : ℕ) → total (output_weight a i) cs ≤ 1

at_most_one : (n m : ℕ) → n ≤ 1 → m ≤ 1 → ¬ ((0 < m) × (0 < n)) → n + m ≤ 1
at_most_one n m h k apart = ground (arith, apart)

SpendsOnce-snoc :
    (before : List TransactionDetails) (d : TransactionDetails)
    → SpendsOnce before
    → HasDistinctInputs d.tx
    → ¬ Conflicts before d
    → SpendsOnce (before ++ d ∷ [])
SpendsOnce-snoc before d once distinct apart = record {
  images = λ k.
      rw (total-snoc (image_weight k) before d)
        (at_most_one _ _ (once.images k) (distinct.images k) (λ (h, s). apart (inl (k, h, s))));
  outputs = λ a i. rw (total-snoc (output_weight a i) before d) (
      at_most_one _ _ (once.outputs a i) (distinct.outputs a i)
        (λ (h, s). apart (inr (a, i, h, s))));
}

Picks-SpendsOnce :
    {v : TransactionValidator} {limit : ℕ} (before : List TransactionDetails)
    {ds cs : List TransactionDetails}
    → Picks v limit before ds cs
    → AreDistinctWithin ds
    → SpendsOnce before
    → SpendsOnce (before ++ cs)
Picks-SpendsOnce before (finished _) a once = rw append-nil once
Picks-SpendsOnce before (left _ d reason picks) (h, a) once = Picks-SpendsOnce before picks a once
Picks-SpendsOnce before (picked _ d {ds} {cs} fit ready apart picks) (h, a) once =
    rw (← append_assoc before (d ∷ []) cs)
      (Picks-SpendsOnce (before ++ d ∷ []) picks a (SpendsOnce-snoc before d once h apart))

empty-Represents : (limit : ℕ) → Represents limit empty_template []
unfolding total
empty-Represents limit = record {
  hashes = refl;
  size = refl;
  fits = omega arith;
  fees = omega arith;
  images = λ k. refl;
  outs = λ a i. refl;
}

empty-SpendsOnce : SpendsOnce []
unfolding total
empty-SpendsOnce = record { images = λ k. omega arith; outputs = λ a i. omega arith }

-- From a consistent pool whose sizes do not overflow on top of the limit, the template holds the
-- hashes of the transactions that are picked greedily in the order of the container: each that
-- still fits, is ready and spends nothing that one before it spends. The size is the sum of their
-- sizes and within the limit, the fee is the sum of their fees in 64 bits, and no key image and no
-- output of multisignatures is spent twice by them.
pub fill_block_template_lem :
    (v : TransactionValidator) (c : Currency) (p : Pool) (median_size max_cumulative_size : ℕ)
    → IsConsistent p
    → let limit = max_template_size c median_size max_cumulative_size in
      let (_, t) = fill_block_template v c p median_size max_cumulative_size in
      All (λ d. limit + d.blob_size < 2 ^ 64) p.transactions
      → (cs : List TransactionDetails) × Picks v limit [] p.transactions cs
        × (t.tx_hashes ≡ ids_of cs)
        × (t.total_size ≡ total_blob_size cs)
        × (total_blob_size cs ≤ limit)
        × (t.fee ≡ total_fee cs % 2 ^ 64)
        × ((k : ℕ) → total (image_weight k) cs ≤ 1)
        × ((a i : ℕ) → total (output_weight a i) cs ≤ 1)
unfolding fill_block_template
fill_block_template_lem v c p median_size max_cumulative_size ok small =
    let limit = max_template_size c median_size max_cumulative_size in
    let (cs, picks, rep) =
      fill_loop_lem v limit empty_template [] p.transactions (empty-Represents limit) small in
    let once = Picks-SpendsOnce [] picks ok.distinct empty-SpendsOnce in
    (cs, picks, rep.hashes, rep.size, rep.fits, rep.fees, once.images, once.outputs)

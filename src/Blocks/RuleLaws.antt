-- ===== src/Blocks/RuleLaws.antt =====
-- What the rules for coinbase transactions and for the header of a block amount to.
use bytecoin.Common.{
  ℕ, ◌≡◌, ◌↔◌, ◌≢◌, refl, ap, ◌∙◌, inl, inr, Bool, true, false, not, Option, none, some, arith, ltb,
  ◌==◌, if◌then◌else◌, Bool-cases, Option-cases, length, ==_iff,
}
use bytecoin.Currency.{Currency}
use bytecoin.Currency.Reward.{BlockReward, get_block_reward}
use bytecoin.Transaction.Amounts.{add_outs}
use bytecoin.Checkpoints.{is_in_checkpoint_zone, check_block}
use bytecoin.BlockIndex.{has_block, get_tail_id}
use bytecoin.Blocks.{Block, Blockchain, Environment}
use bytecoin.Blocks.Header.{BlockResult, added, rejected, no_difficulty, check_header}
use bytecoin.Blocks.Rules.{
  median_value, get_last_n_blocks_sizes, get_block_major_version_for_height,
  get_difficulty_for_next_block, check_block_timestamp_main, check_block_version,
  check_parent_block_size, prevalidate_miner_transaction, validate_miner_transaction,
}

exactly :
    (q r : BlockReward) (spent : ℕ)
    → ((if ltb q.reward spent then none else if ltb spent q.reward then none else some q) ≡ some r)
    → (spent ≡ q.reward) × (some q ≡ some r)
exactly q r spent e = elim (Bool-cases (ltb q.reward spent)) [
  | inl t ↦ let e' = rw t at e in cc e'
  | inr t ↦ elim (Bool-cases (ltb spent q.reward)) [
    | inl u ↦ let e' = rw u at (rw t at e) in cc e'
    | inr u ↦ (ground arith, rw u at (rw t at e))
  ]
]

not_below : (a : ℕ) → ltb a a ≡ false
not_below a = ground arith

-- The reward that the rules give a block on top of `s`.
abbrev pub granted : Currency → Blockchain → ℕ → ℕ → ℕ → ℕ → Option BlockReward
granted c s height size coins fee =
    get_block_reward c (median_value (get_last_n_blocks_sizes s.blocks c.reward_blocks_window)) size
      coins fee (ltb 1 (get_block_major_version_for_height c s.upgrade_detector height))

-- A coinbase transaction passes with a reward exactly when that is the reward that the rules grant
-- the block, and the outputs of the transaction, summed as the code sums them, spend it to the
-- last unit.
pub validate_miner_transaction_lem :
    (c : Currency) (s : Blockchain) (b : Block) (height size coins fee : ℕ) (r : BlockReward)
    → (validate_miner_transaction c s b height size coins fee ≡ some r)
      ↔ ((granted c s height size coins fee ≡ some r) × (add_outs 0 b.miner_tx.vout ≡ r.reward))
unfolding validate_miner_transaction
validate_miner_transaction_lem c s b height size coins fee r = (
  λ e. elim (Option-cases (granted c s height size coins fee)) [
    | inl n ↦ let e' = rw (n, validate_miner_transaction) at e in cc e'
    | inr (q, n) ↦
        let (same, whole) =
          exactly q r (add_outs 0 b.miner_tx.vout) (rw (n, validate_miner_transaction) at e) in
        let eq : q ≡ r = cc whole in (n ∙ whole, same ∙ ap (λ (x : BlockReward). x.reward) eq)
  ],
  λ (n, same). rw (n, validate_miner_transaction) (rw same (rw (not_below r.reward))),
)

pass :
    {A : Type 0} (t : Bool) (x : A) (rest : Option A)
    → (if t then some x else rest) ≡ none
    → (t ≡ false) × (rest ≡ none)
pass true x rest e = cc e
pass false x rest e = (refl, e)

eq_true_of_not : (t : Bool) → not t ≡ false → t ≡ true
eq_true_of_not true e = refl
eq_true_of_not false e = cc e

-- What the header of a block has that passes every test.
pub record IsAcceptable (env : Environment) (c : Currency) (s : Blockchain) (b : Block)
    : Type 0 where
  pub is_new : has_block s.block_index (env.block_hash b) ≡ false
  pub has_version : check_block_version c s.upgrade_detector b ≡ true
  pub has_parent_size : check_parent_block_size env b ≡ true
  pub follows_tail : b.prev_id ≡ get_tail_id s.block_index
  pub has_timestamp : check_block_timestamp_main env c s.blocks b ≡ true
  pub has_difficulty : (get_difficulty_for_next_block c s.blocks == 0) ≡ false
  pub is_proved :
      (if is_in_checkpoint_zone s.checkpoints (length s.blocks)
        then (check_block s.checkpoints (length s.blocks) (env.block_hash b)).passed
        else env.check_proof_of_work b (get_difficulty_for_next_block c s.blocks))
      ≡ true
  pub has_coinbase : prevalidate_miner_transaction c b (length s.blocks) ≡ true

pub check_header-IsAcceptable :
    (env : Environment) (c : Currency) (s : Blockchain) (b : Block)
    → check_header env c s b ≡ none
    → IsAcceptable env c s b
unfolding check_header
check_header-IsAcceptable env c s b e =
    let (e1, r1) = pass _ _ _ e in
    let (e2, r2) = pass _ _ _ r1 in
    let (e3, r3) = pass _ _ _ r2 in
    let (e4, r4) = pass _ _ _ r3 in
    let (e5, r5) = pass _ _ _ r4 in
    let (e6, r6) = pass _ _ _ r5 in
    let (e7, r7) = pass _ _ _ r6 in
    let (e8, _) = pass _ _ _ r7 in
    record {
      is_new = e1;
      has_version = eq_true_of_not _ e2;
      has_parent_size = eq_true_of_not _ e3;
      follows_tail = (==_iff b.prev_id (get_tail_id s.block_index)).0 (eq_true_of_not _ e4);
      has_timestamp = eq_true_of_not _ e5;
      has_difficulty = e6;
      is_proved = eq_true_of_not _ e7;
      has_coinbase = eq_true_of_not _ e8;
    }

stop :
    {A : Type 0} (t : Bool) (x : A) (rest : Option A) {y : A}
    → (if t then some x else rest) ≡ some y
    → x ≢ y
    → rest ≡ some y
stop true x rest e n = absurd (n (cc e))
stop false x rest e n = e

none-ne_some : (y : BlockResult) → none ≢ some y
none-ne_some y e = cc e

pub check_header-ne_added :
    (env : Environment) (c : Currency) (s : Blockchain) (b : Block)
    → check_header env c s b ≢ some added
unfolding check_header
check_header-ne_added env c s b e =
    let r : rejected ≢ added = λ q. cc q in
    let d : no_difficulty ≢ added = λ q. cc q in
    let e1 = stop (has_block s.block_index (env.block_hash b)) _ _ e r in
    let e2 = stop (not (check_block_version c s.upgrade_detector b)) _ _ e1 r in
    let e3 = stop (not (check_parent_block_size env b)) _ _ e2 r in
    let e4 = stop (not (b.prev_id == get_tail_id s.block_index)) _ _ e3 r in
    let e5 = stop (not (check_block_timestamp_main env c s.blocks b)) _ _ e4 r in
    let e6 = stop (get_difficulty_for_next_block c s.blocks == 0) _ _ e5 d in
    let e7 =
      stop
        (not (
          if is_in_checkpoint_zone s.checkpoints (length s.blocks)
          then (check_block s.checkpoints (length s.blocks) (env.block_hash b)).passed
          else env.check_proof_of_work b (get_difficulty_for_next_block c s.blocks)))
        _ _ e6 r in
    let e8 = stop (not (prevalidate_miner_transaction c b (length s.blocks))) _ _ e7 r in
    none-ne_some added e8

-- ===== src/BlockIndex/History.antt =====
-- `getShortChainHistory`: the loop ends, and gives blocks of the chain from the tail to the genesis block.
use bytecoin.Common.{
  ℕ, zero, suc, ◌+◌, ◌-◌, ◌*◌, ◌≤◌, ◌<◌, ◌≡◌, refl, sym, ap, inl, inr, true, false, List, [], ◌∷◌,
  ◌++◌, arith, ltb, if◌then◌else◌, Bool-cases, length, All, ==_self, ltb→lt,
}
use bytecoin.Transaction.{Hash}
use bytecoin.BlockIndex.{BlockIndex, has_block, history_loop, get_short_chain_history}
use bytecoin.BlockIndex.Laws.{has_block-get_or}

history_loop-known :
    (fuel : ℕ) (index : BlockIndex) (i multiplier offset : ℕ)
    → 0 < offset
    → All (λ h. has_block index h ≡ true) (history_loop fuel index i multiplier offset)
unfolding history_loop
history_loop-known zero index i multiplier offset p = tt
history_loop-known (suc fuel) index i multiplier offset p =
    elim (Bool-cases (ltb offset (length index))) [
      | inl e ↦ rw e (
          let l = ltb→lt offset (length index) e in
          (
            has_block-get_or index (length index - offset) (omega arith),
            history_loop-known fuel index (suc i) (if ltb i 10 then multiplier else multiplier * 2)
                (offset + (if ltb i 10 then 1 else multiplier * 2)) (omega arith),
          ))
      | inr e ↦ rw e tt
    ]

over :
    (index : BlockIndex) (fuel i multiplier offset : ℕ)
    → length index ≤ offset
    → history_loop fuel index i multiplier offset ≡ []
unfolding history_loop
over index zero i multiplier offset l = refl
over index (suc fuel) i multiplier offset l =
    let past : ltb offset (length index) ≡ false = ground arith in rw past

-- Rounds beyond the offsets below the size make no difference.
history_loop-fuel :
    (f g : ℕ) (index : BlockIndex) (i multiplier offset : ℕ)
    → 0 < multiplier
    → length index ≤ f + offset
    → length index ≤ g + offset
    → history_loop f index i multiplier offset ≡ history_loop g index i multiplier offset
unfolding history_loop
history_loop-fuel zero g index i multiplier offset m k l =
    sym (over index g i multiplier offset (omega arith))
history_loop-fuel (suc f) zero index i multiplier offset m k l =
    over index (suc f) i multiplier offset (omega arith)
history_loop-fuel (suc f) (suc g) index i multiplier offset m k l =
    let next = if ltb i 10 then multiplier else multiplier * 2 in
    let step = if ltb i 10 then 1 else multiplier * 2 in
    let positive : 0 < next = ground arith in
    let moves : 0 < step = ground arith in
    rw (
      history_loop-fuel f g index (suc i) next (offset + step) positive (omega arith) (omega arith))

known-append :
    (index : BlockIndex) (l : List Hash) (x : Hash)
    → All (λ h. has_block index h ≡ true) l
    → has_block index x ≡ true
    → All (λ h. has_block index h ≡ true) (l ++ x ∷ [])
known-append index [] x a h = (h, tt)
known-append index (y ∷ l) x (k, a) h = (k, known-append index l x a h)

first : (genesis : Hash) (later : List Hash) → has_block (genesis ∷ later) genesis ≡ true
unfolding has_block
first genesis later = rw (==_self genesis)

-- The history of a chain that is not empty holds blocks of the chain, and its loop has the rounds
-- it needs: with any greater number of rounds, the hashes of the loop, followed by the genesis
-- block, are the same.
pub get_short_chain_history_lem :
    (genesis : Hash) (later : List Hash)
    → All (λ h. has_block (genesis ∷ later) h ≡ true) (get_short_chain_history (genesis ∷ later))
      × ((k : ℕ)
          → get_short_chain_history (genesis ∷ later)
            ≡ history_loop (suc (length later) + k) (genesis ∷ later) 0 1 1 ++ genesis ∷ [])
unfolding get_short_chain_history
get_short_chain_history_lem genesis later = (
  known-append (genesis ∷ later) (history_loop (suc (length later)) (genesis ∷ later) 0 1 1) genesis
      (history_loop-known (suc (length later)) (genesis ∷ later) 0 1 1 (omega arith))
      (first genesis later),
  λ k.
      ap (λ l. l ++ genesis ∷ [])
        (history_loop-fuel (suc (length later)) (suc (length later) + k) (genesis ∷ later) 0 1 1
          (omega arith) (omega arith) (omega arith)),
)

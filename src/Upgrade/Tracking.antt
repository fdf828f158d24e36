-- ===== src/Upgrade/Tracking.antt =====
-- The detector keeps the first height at which the voting was complete, over pushes and pops.
use bytecoin.Common.{
  ℕ, suc, ◌-◌, ◌^◌, ◌≤◌, ◌<◌, ◌≡◌, refl, sym, ◌∙◌, ◌≢◌, inl, inr, Bool, true, false, [], ◌∷◌, ◌++◌,
  arith, if◌then◌else◌, Bool-cases, length, length-append, ==_self, ==_ne, ==_iff,
}
use bytecoin.Currency.{Currency}
use bytecoin.Upgrade.{
  Chain, BlockVersion, Detector, undef_height, is_voting_complete, block_pushed, block_popped,
}
use bytecoin.Upgrade.Voting.{IsFirstIn, is_voting_complete-append}

-- The vote decides the upgrade, and the detector's height is the first where it was complete.
abbrev pub IsTracking : Currency → Chain → Detector → Type 0
IsTracking c chain d = IsFirstIn c chain d.target_version 0 (length chain) d.voting_complete_height

abbrev pub Decides : Currency → Chain → Type 0
Decides c chain =
    (c.upgrade_height ≡ undef_height)
    × (c.upgrade_voting_window < 2 ^ 64)
    × (length chain < 2 ^ 64 - 1)

length-snoc : (chain : Chain) (b : BlockVersion) → length (chain ++ b ∷ []) ≡ suc (length chain)
length-snoc chain b = omega (arith, length-append chain (b ∷ []))

defined-kept :
    (c : Currency) (chain : Chain) (d : Detector)
    → d.voting_complete_height ≢ undef_height
    → block_pushed c chain d ≡ d
unfolding block_pushed
defined-kept c chain d n = ground (arith, ==_ne d.voting_complete_height undef_height n)

decided :
    (c : Currency) (chain : Chain) (d : Detector) (last : ℕ) (t : Bool)
    → c.upgrade_height ≡ undef_height
    → d.voting_complete_height ≡ undef_height
    → length chain - 1 ≡ last
    → is_voting_complete c chain d.target_version last ≡ t
    → block_pushed c chain d ≡ (if t then record d { voting_complete_height = last } else d)
unfolding block_pushed
decided c chain d last t u e l v =
    let fixed = (==_iff c.upgrade_height undef_height).1 u in
    let open_vote = (==_iff d.voting_complete_height undef_height).1 e in
    rw fixed (rw open_vote (rw l (rw v)))

kept :
    (c : Currency) (chain : Chain) (b : BlockVersion) (target : ℕ)
    → Decides c (chain ++ b ∷ [])
    → (h : ℕ) → h < length chain
    → is_voting_complete c (chain ++ b ∷ []) target h ≡ is_voting_complete c chain target h
kept c chain b target (u, w, n) h q = is_voting_complete-append c chain (b ∷ []) target h w q

-- Where the vote decides the upgrade, and the voting window and the size of the chain fit 64 bits,
-- a pushed block keeps the detector on the first height at which the voting was complete.
pub block_pushed-IsTracking :
    (c : Currency) (chain : Chain) (b : BlockVersion) (d : Detector)
    → Decides c (chain ++ b ∷ [])
    → IsTracking c chain d
    → IsTracking c (chain ++ b ∷ []) (block_pushed c (chain ++ b ∷ []) d)
block_pushed-IsTracking c chain b d s (inr (l, m, t, f)) =
    let size = length-snoc chain b in
    let k = kept c chain b d.target_version s in
    let n = s.2 in
    let v = d.voting_complete_height in
    rw (defined-kept c (chain ++ b ∷ []) d (λ e. omega (arith, e)))
      (inr (l, omega arith, k v m ∙ t, λ h p q. k h (omega arith) ∙ f h p q))
block_pushed-IsTracking c chain b d s (inl (e, f)) =
    let size = length-snoc chain b in
    let k = kept c chain b d.target_version s in
    let last : length (chain ++ b ∷ []) - 1 ≡ length chain = omega arith in
    elim (Bool-cases (is_voting_complete c (chain ++ b ∷ []) d.target_version (length chain))) [
      | inl t ↦
          rw (decided c (chain ++ b ∷ []) d (length chain) true s.0 e last t)
            (inr (omega arith, omega arith, t, λ h p q. k h q ∙ f h p q))
      | inr t ↦
          rw (decided c (chain ++ b ∷ []) d (length chain) false s.0 e last t)
            (inl (e, λ h p q. below c chain b d.target_version s f t h (omega arith)))
    ]
  where
    below :
        (c : Currency) (chain : Chain) (b : BlockVersion) (target : ℕ)
        → Decides c (chain ++ b ∷ [])
        → ((h : ℕ) → 0 ≤ h → h < length chain → is_voting_complete c chain target h ≡ false)
        → is_voting_complete c (chain ++ b ∷ []) target (length chain) ≡ false
        → (h : ℕ) → h ≤ length chain
        → is_voting_complete c (chain ++ b ∷ []) target h ≡ false
    below c chain b target s f t h l = elim (native.Mathlib.Decide.ℕ_discrete h (length chain)) [
      | yes same ↦ rw same t
      | no differ ↦ kept c chain b target s h (omega arith) ∙ f h (omega arith) (omega arith)
    ]

undefined-kept :
    (chain : Chain) (d : Detector)
    → d.voting_complete_height ≢ length chain
    → block_popped chain d ≡ d
unfolding block_popped
undefined-kept chain d n =
    let differ = ==_ne (length chain) d.voting_complete_height (λ e. n (sym e)) in ground arith

cancelled :
    (chain : Chain) (d : Detector)
    → d.voting_complete_height ≡ length chain
    → length chain < undef_height
    → block_popped chain d ≡ record d { voting_complete_height = undef_height }
unfolding block_popped
cancelled chain d e n =
    let differ = ==_ne d.voting_complete_height undef_height (omega arith) in
    rw differ (rw e (rw (==_self (length chain)) refl))

-- Where the vote decides the upgrade, and the voting window and the size of the chain fit 64 bits,
-- popping the last block keeps the detector on the first height at which the voting was complete.
pub block_popped-IsTracking :
    (c : Currency) (chain : Chain) (b : BlockVersion) (d : Detector)
    → Decides c (chain ++ b ∷ [])
    → IsTracking c (chain ++ b ∷ []) d
    → IsTracking c chain (block_popped chain d)
block_popped-IsTracking c chain b d s (inl (e, f)) =
    let size = length-snoc chain b in
    let n = s.2 in
    let k = kept c chain b d.target_version s in
    rw (undefined-kept chain d (λ q. omega (arith, q)))
      (inl (e, λ h p q. sym (k h q) ∙ f h p (omega arith)))
block_popped-IsTracking c chain b d s (inr (l, m, t, f)) =
    let size = length-snoc chain b in
    let n = s.2 in
    let k = kept c chain b d.target_version s in
    elim (native.Mathlib.Decide.ℕ_discrete d.voting_complete_height (length chain)) [
      | yes same ↦
          rw (cancelled chain d same (omega arith))
            (inl (refl, λ h p q. sym (k h q) ∙ f h p (omega arith)))
      | no differ ↦ rw (undefined-kept chain d differ) (
          inr (
            l,
            omega arith,
            sym (k d.voting_complete_height (omega arith)) ∙ t,
            λ h p q. sym (k h (omega arith)) ∙ f h p q,
          ))
    ]

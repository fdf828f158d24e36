-- ===== src/Reorganisation/Endings.antt =====
-- The ways in which the parts of `add_new_block` end, as cases.
use bytecoin.Common.{◌≡◌, refl, ◌⊎◌, inl, inr, Bool, List}
use bytecoin.Blocks.{BlockEntry}
use bytecoin.Blocks.Header.{BlockResult, added, rejected, no_difficulty, exception}
use bytecoin.Reorganisation.{Alternatives, Outcome, returned, thrown, unfinished}
use bytecoin.Reorganisation.Judgement.{
  Judgement, refused, orphaned, out_of_range, endless, accepted,
}
use bytecoin.Reorganisation.Switch.{Connection, connected, stopped, broken}

pub BlockResult-cases :
    (r : BlockResult) → (r ≡ added) ⊎ (r ≡ rejected) ⊎ (r ≡ no_difficulty) ⊎ (r ≡ exception)
BlockResult-cases added = inl refl
BlockResult-cases rejected = inr (inl refl)
BlockResult-cases no_difficulty = inr (inr (inl refl))
BlockResult-cases exception = inr (inr (inr refl))

pub Connection-cases :
    {A : Type 0} (r : Connection A)
    → (r ≡ connected) ⊎ ((l : List A) × (r ≡ stopped l)) ⊎ (r ≡ broken)
Connection-cases connected = inl refl
Connection-cases (stopped l) = inr (inl (l, refl))
Connection-cases broken = inr (inr refl)

pub Outcome-cases :
    (q : Outcome) → ((r : Bool) × (q ≡ returned r)) ⊎ (q ≡ thrown) ⊎ (q ≡ unfinished)
Outcome-cases (returned r) = inl (r, refl)
Outcome-cases thrown = inr (inl refl)
Outcome-cases unfinished = inr (inr refl)

pub Judgement-cases :
    (j : Judgement)
    → ((z : Bool) × (f : Bool) × (j ≡ refused z f))
      ⊎ (j ≡ orphaned)
      ⊎ (j ≡ out_of_range)
      ⊎ (j ≡ endless)
      ⊎ ((e : BlockEntry) × (chain : Alternatives) × (k : Bool) × (j ≡ accepted e chain k))
Judgement-cases (refused z f) = inl (z, f, refl)
Judgement-cases orphaned = inr (inl refl)
Judgement-cases out_of_range = inr (inr (inl refl))
Judgement-cases endless = inr (inr (inr (inl refl)))
Judgement-cases (accepted e chain k) = inr (inr (inr (inr (e, chain, k, refl))))

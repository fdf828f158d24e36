-- ===== src/Reorganisation.antt =====
-- Alternative chains and the switch to them, in src/cryptonote_core/blockchain_storage.cpp: the state
-- that add_new_block works on, and how its parts end.
pub mod Judgement
pub mod Switch
pub mod Linked
pub mod Endings
pub mod Rollback
pub mod Keeping
pub mod Soundness
pub mod Result
pub mod Starts
pub mod Contract
pub mod SwitchLaws
use bytecoin.Common.{
  ℕ, Bool, true, false, ◌&&◌, Option, none, some, List, [], ◌∷◌, ◌==◌, if◌then◌else◌,
}
use bytecoin.Transaction.{Hash}
use bytecoin.Blocks.{BlockEntry, Blockchain}

-- m_alternative_chains, an unordered_map from hashes to entries, as an association list.
abbrev pub Alternatives : Type 0
Alternatives = List (Hash × BlockEntry)

-- The main chain, the pool that it takes transactions from, and the alternative blocks.
pub record Chains (P : Type 0) : Type 0 where
  pub main : Blockchain
  pub pool : P
  pub alternatives : Alternatives

-- block_verification_context.
pub record BlockContext : Type 0 where
  pub added_to_main_chain : Bool
  pub verifivation_failed : Bool
  pub marked_as_orphaned : Bool
  pub already_exists : Bool

-- How a call ends: it returns, it throws or reads outside a vector, or the rounds given to the model
-- are used up.
pub data Outcome : Type 0 where
  returned : Bool → Outcome
  thrown : Outcome
  unfinished : Outcome

unfoldable pub find_alternative : Hash → Alternatives → Option BlockEntry
find_alternative id [] = none
find_alternative id ((h, e) ∷ alts) = if h == id then some e else find_alternative id alts

unfoldable pub erase_alternative : Hash → Alternatives → Alternatives
erase_alternative id [] = []
erase_alternative id ((h, e) ∷ alts) = if h == id then alts else (h, e) ∷ erase_alternative id alts

-- The erasure of the entries that the second list names.
unfoldable pub erase_alternatives : Alternatives → Alternatives → Alternatives
unfolding erase_alternative
erase_alternatives alts [] = alts
erase_alternatives alts ((h, _) ∷ chain) = erase_alternatives (erase_alternative h alts) chain

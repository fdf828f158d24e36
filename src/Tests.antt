-- ===== src/Tests.antt =====
-- Concrete runs of the code of the other modules, and their theorems at concrete inputs.
mod Transactions
mod Numbers
mod Chains
mod World
mod Blocks
mod Moving
mod Pool
mod Reorganisation
mod Core
mod Branches

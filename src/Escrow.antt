-- ===== src/Escrow.antt =====
-- The escrow contract, contracts/escrow/src.
pub mod Types
pub mod Validation
pub mod Lifecycle
pub mod Batch
pub mod Parties
pub mod Locked
pub mod Solvency
pub mod Coverage
pub mod Creation
pub mod Rounds
pub mod Batches
pub mod PassSolvency
pub mod BatchSolvency
pub mod BatchCounts
pub mod DoublePay
pub mod Finality
pub mod Reachable
mod Examples

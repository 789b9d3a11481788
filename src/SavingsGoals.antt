-- ===== src/SavingsGoals.antt =====
-- The savings goals contract, contracts/savings-goals/src.
pub mod ErrorCode
pub mod Types
pub mod Validation
pub mod Milestones
pub mod Funds
pub mod Merging
pub mod Goals
pub mod Upkeep
pub mod Marks
pub mod Alerts
pub mod Emission
pub mod Contributions
pub mod Reversals
pub mod Withdrawals
pub mod Merges
pub mod Frozen
pub mod Certificates
pub mod Edits
pub mod InPlace
pub mod Notices
pub mod Sound
pub mod Creation
pub mod Batches
pub mod Reachable
pub mod Balances
pub mod Samples
mod Examples
pub mod Prerequisites
pub mod Reaches
pub mod Search
pub mod Fuel
pub mod Walks
pub mod Cycles

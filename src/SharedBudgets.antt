-- ===== src/SharedBudgets.antt =====
-- The shared budgets contract, contracts/shared-budgets/src.
pub mod Types
pub mod Floats
pub mod Budgets
pub mod Spending
pub mod Archive
pub mod Reports
pub mod Spends
pub mod Changes
pub mod Steps
pub mod Calls
pub mod Locked
pub mod Lifecycle
mod Examples

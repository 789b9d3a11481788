-- ===== src/SpendingLimits.antt =====
-- The spending limits contract, contracts/spending-limits/src.
pub mod Types
pub mod Validation
pub mod Administration
pub mod BatchUpdate
pub mod Enforcement
pub mod Access
pub mod Requests
pub mod BatchLimits
pub mod Overrides
pub mod Acceptance
mod Examples
pub mod Windows
pub mod RollOver
pub mod Charges
pub mod Caps

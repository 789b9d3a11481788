-- ===== src/BatchTransfer.antt =====
-- The batch transfer contract, contracts/batch-transfer/src.
pub mod Types
pub mod Validation
pub mod Transfers
pub mod Recipients
pub mod Accounting
pub mod Batches
pub mod Burns
pub mod BurnCounts
pub mod BurnRuns
mod Examples

-- ===== src/RecurringPayment.antt =====
-- The recurring payment contract, contracts/recurring-payment/src.
pub mod Types
pub mod Payments
pub mod Income
pub mod Schedule
pub mod Executions
pub mod Cancellation
pub mod Payouts
pub mod Pace
pub mod Acceptance
mod Examples

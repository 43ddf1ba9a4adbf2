-- ===== src/Payment.antt =====
-- internal/payment: what a payment, an attempt and a refund are, and the moves each may make.
pub mod Asset
pub mod Money
pub mod AttemptStatus
pub mod RefundStatus
pub mod Problem
pub mod Status
pub mod Units
pub mod Metadata
pub mod Aggregate
pub mod Lifecycle
pub mod Attempt
pub mod Refund
pub mod Evidence
pub mod Store
pub mod Service

-- ===== src/Scenarios.antt =====
-- Concrete payments, attempts, refunds and endpoints, and the theorems at them.
pub mod Samples
mod Money
mod Payments
mod Attempts
mod Transfers
mod Refunds
mod Endpoints
mod Databases
mod Services
mod Pages
mod Networks
mod Reissues
mod Sightings
mod Rounds
mod Spans
mod Hooks
mod Credentials

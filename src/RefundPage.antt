-- ===== src/RefundPage.antt =====
-- internal/refund: what the page of a refund shows, and what its merchant signs.
pub mod Typed
pub mod State
pub mod Promise

-- ===== src/Checkout.antt =====
-- internal/checkout: what the page of a payment shows, and what its payer signs.
pub mod Typed
pub mod State
pub mod Promise

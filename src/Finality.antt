-- ===== src/Finality.antt =====
-- internal/finality: whether a transfer that was recorded is one the chain will keep.
pub mod Ask
pub mod Worker

-- ===== src/Observe.antt =====
-- internal/observe: how far each network has been read, and which instance reads it.
pub mod Lease
pub mod Cursor
pub mod Pace
pub mod Chain
pub mod Reading
pub mod Tick

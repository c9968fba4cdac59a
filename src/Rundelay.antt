-- ===== src/Rundelay.antt =====
-- The run delay of a thread from /proc: steal/get_rundelay.c.
pub mod Stats
pub mod Decimal
pub mod Samples
pub mod Sums
mod Tests

-- ===== src/Taskinfo.antt =====
-- The module taskinfo: taskinfo/taskinfo.c.
pub mod State
pub mod Show
mod Tests

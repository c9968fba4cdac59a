-- ===== src/Nosched.antt =====
-- trace/trace-noschedule/trace_noschedule.c: a tracer that finds threads which run in the kernel
-- for long without a call of the scheduler. `Data` holds the state, `Record` what a timer tick
-- records, `Switch` the probe of the scheduler, `Control` the files under /proc/trace_noschedule
-- and `Init` the module's load and unload.
pub mod Data
pub mod Record
pub mod Switch
pub mod Control
pub mod Init
mod Tests

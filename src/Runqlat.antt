-- ===== src/Runqlat.antt =====
-- trace/runqlat/trace_runqlat.c: a tracer that records for one thread how long it waits in a run
-- queue, and which tasks ran meanwhile. `Data` holds the state, `Record` the recorded tasks,
-- `Probes` the probes of the scheduler, `Control` the files under /proc/trace_runqlat and `Init`
-- the module's load and unload.
pub mod Data
pub mod Record
pub mod Probes
pub mod Control
pub mod Init
mod Tests

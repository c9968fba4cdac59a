-- ===== src/Trace.antt =====
-- What the three tracers of trace/ share: the loop that finds a histogram bucket, the buffer of
-- recorded stacks, the printed histogram, and the search for the
-- kernel's tracepoints.
pub mod Shift
pub mod Counters
pub mod Stacks
pub mod Histogram
pub mod Lookup

-- ===== src/Irqoff.antt =====
-- trace/trace-irqoff/trace_irqoff.c: a tracer that finds out how long a CPU runs with its
-- interrupts, or its soft interrupts, switched off, by the delay of two timers of each CPU.
-- `Data` holds the state, `Record` what a timer does with a delay, `Timers` the timers and their
-- handlers, `Control` the files under /proc/trace_irqoff and `Init` the module's load and unload.
pub mod Data
pub mod Record
pub mod Timers
pub mod Control
pub mod Init
mod Tests

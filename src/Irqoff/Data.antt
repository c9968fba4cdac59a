-- ===== src/Irqoff/Data.antt =====
-- The state of trace_irqoff.c, and what a handler reads of the kernel at one moment.
use uio_linux_sample.Prelude.{
  ℕ, ◌+◌, ◌*◌, ◌/◌, ◌≤◌, Bool, true, false, Option, none, some, List, length, if◌then◌else◌,
}
use uio_linux_sample.Trace.Stacks.{Stacks}

-- SZ_1K / sizeof(unsigned long)
abbrev pub max_trace_entries : ℕ
max_trace_entries = 1024 / 8

-- PER_TRACE_ENTRIES_AVERAGE
abbrev pub per_trace_entries_average : ℕ
per_trace_entries_average = 8 + 8

-- MAX_STACE_TRACE_ENTRIES
abbrev pub max_stack_trace_entries : ℕ
max_stack_trace_entries = max_trace_entries / per_trace_entries_average

-- MAX_LATENCY_RECORD
abbrev pub max_latency_record : ℕ
max_latency_record = 10

-- TASK_COMM_LEN, of the kernel
abbrev pub task_comm_len : ℕ
task_comm_len = 16

-- The three globals, in nanoseconds.
pub record Settings : Type 0 where
  pub trace_enable : Bool
  pub sampling_period : ℕ
  pub trace_irqoff_latency : ℕ

abbrev pub default_settings : Settings
default_settings = record {
  trace_enable = false;
  sampling_period = 10 * 1000 * 1000;
  trace_irqoff_latency = 50 * 1000 * 1000;
}

-- What is kept of a trace beside its stack: comms[i], pids[i] and the bit fields of latency[i].
pub record TraceInfo : Type 0 where
  pub comm : List ℕ
  pub pid : ℕ
  pub nsecs : ℕ
  pub more : Bool

-- `struct stack_trace_metadata`
pub record Metadata : Type 0 where
  pub last_timestamp : ℕ
  pub stacks : Stacks TraceInfo
  pub latency_count : List ℕ

-- `struct per_cpu_stack_trace`. A timer is `none` while it is not queued; a queued hrtimer has
-- the period by which it was forwarded, and a queued timer the jiffies at which it expires.
pub record Cpu : Type 0 where
  pub timer : Option ℕ
  pub hrtimer : Option ℕ
  pub hardirq_trace : Metadata
  pub softirq_trace : Metadata
  pub softirq_delayed : Bool

-- hardirq ? &cpu_stack_trace->hardirq_trace : &cpu_stack_trace->softirq_trace
abbrev pub metadata : Bool → Cpu → Metadata
metadata hardirq p = if hardirq then p.hardirq_trace else p.softirq_trace

-- A store through that pointer.
abbrev pub set_metadata : Bool → Metadata → Cpu → Cpu
set_metadata true m p = record p { hardirq_trace = m }
set_metadata false m p = record p { softirq_trace = m }

-- What the kernel gives to a handler: the clock, the task that is current, the registers of the
-- interrupt (their address), its functions that copy a string and save a stack (given a size and
-- a number of frames to skip), and the conversion to jiffies. `stack_trace_save_regs` is `none`
-- where kallsyms has no such symbol.
pub record Context : Type 0 where
  pub local_clock : ℕ
  pub jiffies : ℕ
  pub comm : List ℕ
  pub pid : ℕ
  pub irq_regs : Option ℕ
  pub strlcpy : List ℕ → ℕ → List ℕ
  pub stack_trace_save : ℕ → ℕ → List ℕ
  pub stack_trace_save_regs : Option (ℕ → ℕ → ℕ → List ℕ)
  pub msecs_to_jiffies : ℕ → ℕ

-- A lookup that succeeded found a function that stores no more than `size` words.
abbrev pub SavesWithin : Option (ℕ → ℕ → ℕ → List ℕ) → Type 0
SavesWithin none = Unit
SavesWithin (some save) = (regs size skip : ℕ) → length (save regs size skip) ≤ size

-- The documented bound of the kernel's functions: at most `size` words are stored.
pub record IsKernel (c : Context) : Type 0 where
  pub save_bound : (size skip : ℕ) → length (c.stack_trace_save size skip) ≤ size
  pub save_regs_bound : SavesWithin c.stack_trace_save_regs

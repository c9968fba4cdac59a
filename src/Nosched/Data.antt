-- ===== src/Nosched/Data.antt =====
-- The state of trace_noschedule.c, and what its handlers read of the kernel at one moment.
use uio_linux_sample.Prelude.{ℕ, ◌*◌, ◌/◌, ◌≤◌, Bool, false, Option, none, some, List, length}
use uio_linux_sample.Trace.Stacks.{Stacks}

-- DURATION_HISTOGRAM_ENTRY
abbrev pub duration_histogram_entry : ℕ
duration_histogram_entry = 12

-- SZ_1K / sizeof(void *)
abbrev pub max_trace_entries : ℕ
max_trace_entries = 1024 / 8

-- PER_TRACE_ENTRIES_AVERAGE
abbrev pub per_trace_entries_average : ℕ
per_trace_entries_average = 8

-- MAX_STACE_TRACE_ENTRIES
abbrev pub max_stack_trace_entries : ℕ
max_stack_trace_entries = max_trace_entries / per_trace_entries_average

-- TASK_COMM_LEN, of the kernel
abbrev pub task_comm_len : ℕ
task_comm_len = 16

-- The three globals; the times are nanoseconds.
pub record Settings : Type 0 where
  pub trace_enable : Bool
  pub sampling_period : ℕ
  pub duration_threshold : ℕ

abbrev pub default_settings : Settings
default_settings = record {
  trace_enable = false;
  sampling_period = 10 * 1000 * 1000;
  duration_threshold = 50 * 1000 * 1000;
}

-- comms[i], pids[i] and duration[i].
pub record TraceInfo : Type 0 where
  pub comm : List ℕ
  pub pid : ℕ
  pub duration : ℕ

-- `struct per_cpu_stack_trace`. `skip` is the task whose trace is already recorded, if any; the
-- hrtimer is `none` while it is not queued, and has its period otherwise.
pub record Cpu : Type 0 where
  pub last_timestamp : ℕ
  pub hrtimer : Option ℕ
  pub skip : Option ℕ
  pub stacks : Stacks TraceInfo
  pub hist : List ℕ

-- What the kernel gives to a handler. Tasks and registers are known by their addresses.
pub record Context : Type 0 where
  pub local_clock : ℕ
  pub current : ℕ
  pub comm : List ℕ
  pub pid : ℕ
  pub irq_regs : Option ℕ
  pub is_idle_task : ℕ → Bool
  pub user_mode : ℕ → Bool
  pub single_task_running : Bool
  pub strlcpy : List ℕ → ℕ → List ℕ
  pub stack_trace_save : ℕ → ℕ → List ℕ
  pub stack_trace_save_regs : Option (ℕ → ℕ → ℕ → List ℕ)

abbrev pub SavesWithin : Option (ℕ → ℕ → ℕ → List ℕ) → Type 0
SavesWithin none = Unit
SavesWithin (some save) = (regs size skip : ℕ) → length (save regs size skip) ≤ size

-- The documented bound of the kernel's functions: at most `size` words are stored.
pub record IsKernel (c : Context) : Type 0 where
  pub save_bound : (size skip : ℕ) → length (c.stack_trace_save size skip) ≤ size
  pub save_regs_bound : SavesWithin c.stack_trace_save_regs

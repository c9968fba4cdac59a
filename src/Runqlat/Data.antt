-- ===== src/Runqlat/Data.antt =====
-- The state of trace_runqlat.c, and what its probes read of the kernel at one moment.
use uio_linux_sample.Prelude.{ℕ, ◌*◌, Bool, Option, none, List, replicate}
use uio_linux_sample.Prelude.Words.{ℤ, negsuc}

-- MAX_TRACE_ENTRIES
abbrev pub max_trace_entries : ℕ
max_trace_entries = 128

-- PER_TRACE_ENTRY_TASKS
abbrev pub per_trace_entry_tasks : ℕ
per_trace_entry_tasks = 16

-- MAX_TRACE_ENTRY_TASKS
abbrev pub max_trace_entry_tasks : ℕ
max_trace_entry_tasks = max_trace_entries * per_trace_entry_tasks

-- THRESHOLD_DEFAULT
abbrev pub threshold_default : ℕ
threshold_default = 20 * 1000 * 1000

-- INVALID_PID and INVALID_CPU
abbrev pub invalid : ℤ
invalid = negsuc 0

-- LATENCY_HISTOGRAM_ENTRY
abbrev pub latency_histogram_entry : ℕ
latency_histogram_entry = 12

-- TASK_COMM_LEN, of the kernel
abbrev pub task_comm_len : ℕ
task_comm_len = 16

pub record TaskEntry : Type 0 where
  pub runtime : ℕ
  pub pid : ℕ
  pub comm : List ℕ

-- `entries` is a pointer into `task_entries`, as an index, or NULL.
pub record TraceEntry : Type 0 where
  pub latency : ℕ
  pub nr_tasks : ℕ
  pub entries : Option ℕ

-- The four fields of `struct runqlat_info` that hold what is recorded.
pub record Records : Type 0 where
  pub nr_trace : ℕ
  pub trace_entries : List TraceEntry
  pub nr_task : ℕ
  pub task_entries : List TaskEntry

-- `struct runqlat_info`; a task is known by its address. The lock is taken around each handler's
-- changes, so that a handler is one step, and what it reads before comes as `Seen`.
pub record Info : Type 0 where
  pub cpu : ℤ
  pub pid : ℤ
  pub rq_start : ℕ
  pub run_start : ℕ
  pub threshold : ℕ
  pub curr : Option ℕ
  pub latency_hist : List ℕ
  pub sum_lat : ℕ
  pub records : Records

-- The memory after vzalloc.
abbrev pub zero_task : TaskEntry
zero_task = record { runtime = 0; pid = 0; comm = replicate task_comm_len 0 }

abbrev pub zero_trace : TraceEntry
zero_trace = record { latency = 0; nr_tasks = 0; entries = none }

abbrev pub runqlat_info : Info
runqlat_info = record {
  cpu = invalid;
  pid = invalid;
  rq_start = 0;
  run_start = 0;
  threshold = threshold_default;
  curr = none;
  latency_hist = replicate latency_histogram_entry 0;
  sum_lat = 0;
  records = record {
    nr_trace = 0;
    trace_entries = replicate max_trace_entries zero_trace;
    nr_task = 0;
    task_entries = replicate max_trace_entry_tasks zero_task;
  };
}

-- What the kernel gives to a probe.
pub record Context : Type 0 where
  pub clock : ℕ
  pub pid : ℕ → ℕ
  pub comm : ℕ → List ℕ
  pub is_running : ℕ → Bool
  pub is_idle_task : ℕ → Bool
  pub task_cpu : ℕ → ℕ
  pub strncpy : List ℕ → ℕ → List ℕ

-- The fields as a handler reads them before it takes the lock, each read by itself: another CPU
-- may write between any two of them.
pub record Seen : Type 0 where
  pub pid : ℤ
  pub cpu : ℤ
  pub cpu_then : ℤ
  pub cpu_last : ℤ
  pub pid_last : ℤ

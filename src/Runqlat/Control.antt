-- ===== src/Runqlat/Control.antt =====
-- The files under /proc/trace_runqlat: `pid`, `threshold`, `runqlat` and `distribution`. What a
-- user writes comes as the number that the kernel parsed (`none` where it refused the text).
pub mod Laws
pub mod Shown
pub mod Steps
use uio_linux_sample.Prelude.{
  ℕ, ◌/◌, not, ◌&&◌, Option, none, some, List, [], map, take, if◌then◌else◌,
}
use uio_linux_sample.Prelude.Words.{ℤ, eqb_ℤ}
use uio_linux_sample.Trace.Stacks.{slice}
use uio_linux_sample.Trace.Histogram.{Line, histogram_show}
use uio_linux_sample.Runqlat.Data.{
  TaskEntry, TraceEntry, Records, Info, zero_task, zero_trace, invalid,
}
use uio_linux_sample.Runqlat.Record.{runqlat_info_reset}

pub data Reply : Type 0 where
  done einval eperm : Reply

unfoldable pub trace_pid_show : Info → ℤ
trace_pid_show info = info.pid

abbrev pub zero_count : ℕ → ℕ
zero_count n = 0

abbrev pub zeroed_trace : TraceEntry → TraceEntry
zeroed_trace t = zero_trace

abbrev pub zeroed_task : TaskEntry → TaskEntry
zeroed_task t = zero_task

-- The stores before a new thread is traced: the counters, the memset and the histogram.
unfoldable pub zero_records : Info → Info
zero_records info = record info {
  records = record {
    nr_trace = 0;
    trace_entries = map zeroed_trace info.records.trace_entries;
    nr_task = 0;
    task_entries = map zeroed_task info.records.task_entries;
  };
  latency_hist = map zero_count info.latency_hist;
}

-- The handler's part under the lock.
unfoldable pub set_pid : ℤ → Info → Info
set_pid pid info =
    if eqb_ℤ info.pid pid
    then info
    else if not (eqb_ℤ pid invalid)
    then record (runqlat_info_reset (zero_records info)) { pid = pid }
    else record (runqlat_info_reset info) { pid = pid }

-- `seen` is the pid as it is read before the lock is taken.
unfoldable pub trace_pid_store : ℤ → Option ℤ → Info → Reply × Info
trace_pid_store seen none info = (einval, info)
trace_pid_store seen (some pid) info =
    if not (eqb_ℤ seen invalid) && not (eqb_ℤ pid invalid)
    then (eperm, info)
    else (done, set_pid pid info)

unfoldable pub threshold_show : Info → ℕ
threshold_show info = info.threshold

unfoldable pub threshold_store : Option ℕ → Info → Reply × Info
threshold_store none info = (einval, info)
threshold_store (some threshold) info = (done, record info { threshold = threshold })

-- One printed task, with its runtime in microseconds.
pub record TaskLine : Type 0 where
  pub comm : List ℕ
  pub pid : ℕ
  pub runtime : ℕ

-- One printed trace, with its latency in microseconds.
pub record TraceLine : Type 0 where
  pub latency : ℕ
  pub runqlen : ℕ
  pub tasks : List TaskLine

abbrev pub task_line : TaskEntry → TaskLine
task_line t = record { comm = t.comm; pid = t.pid; runtime = t.runtime / 1000 }

-- entry->entries + j for j < nr_tasks
abbrev pub tasks_at : List TaskEntry → Option ℕ → ℕ → List TaskEntry
tasks_at tasks none n = []
tasks_at tasks (some start) n = slice tasks start n

abbrev pub trace_line : List TaskEntry → TraceEntry → TraceLine
trace_line tasks t = record {
  latency = t.latency / 1000;
  runqlen = t.nr_tasks;
  tasks = map task_line (tasks_at tasks t.entries t.nr_tasks);
}

-- `none` is -EPERM: nothing is shown while a thread is traced.
unfoldable pub runqlat_show : Info → Option (List TraceLine)
runqlat_show info =
    if not (eqb_ℤ info.pid invalid)
    then none
    else some (
        map (trace_line info.records.task_entries)
          (take info.records.nr_trace info.records.trace_entries))

abbrev pub with_sum : ℕ → Option (List Line) → Option (ℕ × List Line)
with_sum sum none = none
with_sum sum (some ls) = some (sum, ls)

-- This histogram_show prints the sum of the latencies before the lines.
unfoldable pub distribution_show : Info → Option (ℕ × List Line)
distribution_show info = with_sum info.sum_lat (histogram_show info.latency_hist 1)

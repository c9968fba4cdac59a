-- ===== src/Runqlat/Record.antt =====
-- What is recorded while the traced thread waits: record_task, record_task_commit and the
-- histogram of the latencies.
pub mod Laws
pub mod Stores
pub mod Refines
pub mod Bucket
use uio_linux_sample.Prelude.{
  ℕ, ◌+◌, ◌-◌, ◌/◌, Bool, true, false, not, Option, none, some, ltb, leb, ◌==◌, if◌then◌else◌, set,
  get_or,
}
use uio_linux_sample.Prelude.Words.{u64, u32, sub32}
use uio_linux_sample.Trace.Shift.{shift_while}
use uio_linux_sample.Runqlat.Data.{
  TaskEntry, TraceEntry, Records, Info, Context, zero_trace, invalid, max_trace_entries,
  max_trace_entry_tasks, latency_histogram_entry, task_comm_len,
}

unfoldable pub runqlat_info_reset : Info → Info
runqlat_info_reset info = record info { rq_start = 0; run_start = 0; cpu = invalid; curr = none }

-- info->trace_entries + info->nr_trace
abbrev pub current_trace : Records → TraceEntry
current_trace r = get_or r.trace_entries r.nr_trace zero_trace

-- if (trace->nr_tasks == 0) trace->entries = task
abbrev pub begun : ℕ → TraceEntry → TraceEntry
begun task t = if t.nr_tasks == 0 then record t { entries = some task } else t

-- Whether the trace's tasks do not end where the next one is stored.
abbrev pub misplaced : ℕ → ℕ → Option ℕ → Bool
misplaced task nr_tasks none = true
misplaced task nr_tasks (some entries) = not (entries + nr_tasks == task)

-- The condition of the WARN_ON_ONCE.
unfoldable pub warns : Records → Bool
warns r = misplaced r.nr_task (current_trace r).nr_tasks (begun r.nr_task (current_trace r)).entries

-- The stores of record_task. A store outside an array would be lost here.
unfoldable pub add_task : TaskEntry → Records → Records
add_task task r =
    let t = current_trace r in
    record {
      nr_trace = r.nr_trace;
      trace_entries =
          set r.trace_entries r.nr_trace
            (record (begun r.nr_task t) { nr_tasks = u32 (t.nr_tasks + 1) });
      nr_task = u32 (r.nr_task + 1);
      task_entries = set r.task_entries r.nr_task task;
    }

abbrev pub task_entry : Context → ℕ → ℕ → TaskEntry
task_entry c p runtime = record {
  runtime = runtime;
  pid = c.pid p;
  comm = c.strncpy (c.comm p) task_comm_len;
}

-- Force disable trace
abbrev pub disabled : Info → Info
disabled info = record info { pid = invalid }

unfoldable pub record_task : Context → ℕ → ℕ → Info → Info
unfolding runqlat_info_reset
record_task c p runtime info =
    let q = record info { records = add_task (task_entry c p runtime) info.records } in
    if leb max_trace_entry_tasks q.records.nr_task then disabled (runqlat_info_reset q) else q

-- The loop of latency_histogram_store, for the latency in milliseconds.
unfoldable pub histogram_index : ℕ → ℕ
histogram_index delta = shift_while 64 (λ x. ltb 0 x) (delta / 2) 0

unfoldable pub histogram_bucket : ℕ → ℕ
histogram_bucket delta =
    if leb latency_histogram_entry (histogram_index delta)
    then latency_histogram_entry - 1
    else histogram_index delta

unfoldable pub latency_histogram_store : ℕ → Info → Info
latency_histogram_store latency info =
    let delta = latency / 1000000 in
    let index = histogram_bucket delta in
    record info {
      sum_lat = u64 (info.sum_lat + delta);
      latency_hist = set info.latency_hist index (u64 (get_or info.latency_hist index 0 + 1));
    }

-- The branch of record_task_commit that keeps the trace.
unfoldable pub keep_trace : ℕ → Records → Records
keep_trace latency r = record r {
  trace_entries = set r.trace_entries r.nr_trace (record (current_trace r) { latency = latency });
  nr_trace = u32 (r.nr_trace + 1);
}

-- The branch that drops it.
unfoldable pub drop_trace : Records → Records
drop_trace r = record r {
  nr_task = sub32 r.nr_task (current_trace r).nr_tasks;
  trace_entries =
      set r.trace_entries r.nr_trace (record (current_trace r) { nr_tasks = 0; entries = none });
}

abbrev pub kept : ℕ → Info → Info
kept latency info = record info { records = keep_trace latency info.records }

unfoldable pub record_task_commit : ℕ → Info → Bool × Info
unfolding runqlat_info_reset
record_task_commit latency info =
    let q = latency_histogram_store latency info in
    if (current_trace q.records).nr_tasks == 0
    then (false, q)
    else if leb q.threshold latency
    then (
      true,
      if leb max_trace_entries (kept latency q).records.nr_trace
          then disabled (runqlat_info_reset (kept latency q))
          else kept latency q,
    )
    else (true, record q { records = drop_trace q.records })

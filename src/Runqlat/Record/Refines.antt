-- ===== src/Runqlat/Record/Refines.antt =====
-- What record_task and record_task_commit make of the log and of the room that is left.
use uio_linux_sample.Prelude.{
  ℕ, ◌+◌, ◌/◌, ◌<◌, ◌≡◌, refl, ◌∙◌, ◌⊎◌, inl, inr, Bool, true, false, List, [], ◌∷◌, ◌++◌, arith,
  leb, ◌==◌, if◌then◌else◌, length, get_or, Bool-cases, length-set,
}
use uio_linux_sample.Prelude.Words.{ℤ, u64}
use uio_linux_sample.Runqlat.Data.{
  TaskEntry, Info, Context, Records, invalid, latency_histogram_entry, max_trace_entries,
  max_trace_entry_tasks,
}
use uio_linux_sample.Runqlat.Record.{
  current_trace, runqlat_info_reset, add_task, task_entry, disabled, record_task,
  latency_histogram_store, keep_trace, drop_trace, kept, record_task_commit, histogram_bucket,
}
use uio_linux_sample.Runqlat.Record.Laws.{Log, Holds}
use uio_linux_sample.Runqlat.Record.Stores.{
  HasRoom, add_task-Added, Kept, keep_trace-Kept, Dropped, drop_trace-Dropped,
  current_trace-nr_tasks,
}

-- The traces that are kept, and the tasks recorded in the wait that is not over.
abbrev pub Abstract : Type 0
Abstract = Log × List TaskEntry

-- The arrays hold the log and the pending tasks, and have room for more while a thread is traced.
pub record Refines (a : Abstract) (n : Info) : Type 0 where
  pub holds : Holds a.0 a.1 n.records
  pub room : (n.pid ≡ invalid) ⊎ HasRoom n.records
  pub hist : length n.latency_hist ≡ latency_histogram_entry

abbrev pub added : Context → ℕ → ℕ → Abstract → Abstract
added c p runtime (log, pending) = (log, pending ++ task_entry c p runtime ∷ [])

-- The end of a wait: a trace without tasks is none, and a short one is forgotten.
abbrev pub closed : ℕ → ℕ → Abstract → Abstract
closed latency threshold (log, []) = (log, [])
closed latency threshold (log, y ∷ ys) =
    if leb threshold latency then (log ++ (latency, y ∷ ys) ∷ [], []) else (log, [])

-- In a state that represents a log and pending tasks, and with room in the arrays, record_task adds
-- one task to the pending ones and leaves the log; then either room is left or tracing ends, and an
-- entry for the open trace is left in both cases.
pub record_task-Refines :
    (c : Context) (p runtime : ℕ) (a : Abstract) (n : Info)
    → Refines a n
    → HasRoom n.records
    → Refines (added c p runtime a) (record_task c p runtime n)
      × ((record_task c p runtime n).records.nr_trace < max_trace_entries)
unfolding record_task
record_task-Refines c p runtime (log, pending) n r room =
    let x = task_entry c p runtime in
    let d = add_task-Added x log pending n.records r.holds room in
    elim (Bool-cases (leb max_trace_entry_tasks (add_task x n.records).nr_task)) [
      | inl full ↦ rw full (
        record { holds = d.holds; room = inl refl; hist = r.hist },
        omega (arith, d.nr_trace, room.trace_free),
      )
      | inr free ↦ rw free (
        record {
          holds = d.holds;
          room = inr (record {
            trace_free = omega (arith, d.nr_trace, room.trace_free);
            task_free = ground (arith, free);
          });
          hist = r.hist;
        },
        omega (arith, d.nr_trace, room.trace_free),
      )
    ]

pub stored-Refines :
    (latency : ℕ) (a : Abstract) (n : Info)
    → Refines a n
    → Refines a (latency_histogram_store latency n)
unfolding latency_histogram_store
stored-Refines latency a n r = record {
  holds = r.holds;
  room = r.room;
  hist =
      length-set n.latency_hist (histogram_bucket (latency / 1000000))
        (u64 (get_or n.latency_hist (histogram_bucket (latency / 1000000)) 0 + 1))
      ∙ r.hist;
}

-- What the call does after the histogram is counted.
abbrev closes : ℕ → Info → Bool × Info
closes latency q =
    if (current_trace q.records).nr_tasks == 0
    then (false, q)
    else if leb q.threshold latency
    then (
      true,
      if leb max_trace_entries (kept latency q).records.nr_trace
          then disabled (runqlat_info_reset (kept latency q))
          else kept latency q,
    )
    else (true, record q { records = drop_trace q.records })

room_dropping :
    (log : Log) (r q : Records) (b : ℤ)
    → Dropped log r q
    → (b ≡ invalid) ⊎ HasRoom r
    → (b ≡ invalid) ⊎ HasRoom q
room_dropping log r q b d (inl e) = inl e
room_dropping log r q b d (inr room) = inr (record {
  trace_free = omega (arith, d.nr_trace, room.trace_free);
  task_free = omega (arith, d.nr_task, room.task_free);
})

room_keeping :
    (log : Log) (r q : Records) (b : ℤ)
    → Kept log r q
    → q.nr_trace < max_trace_entries
    → (b ≡ invalid) ⊎ HasRoom r
    → (b ≡ invalid) ⊎ HasRoom q
room_keeping log r q b d lt (inl e) = inl e
room_keeping log r q b d lt (inr room) =
    inr (record { trace_free = lt; task_free = omega (arith, d.nr_task, room.task_free) })

closes-Refines :
    (latency : ℕ) (log : Log) (pending : List TaskEntry) (q : Info)
    → Refines (log, pending) q
    → q.records.nr_trace < max_trace_entries
    → (current_trace q.records).nr_tasks ≡ length pending
    → Refines (closed latency q.threshold (log, pending)) (closes latency q).1
unfolding runqlat_info_reset
closes-Refines latency log [] q r lt e = rw e r
closes-Refines latency log (y ∷ ys) q r lt e =
    let nonzero : ((current_trace q.records).nr_tasks == 0) ≡ false = ground (arith, e) in
    elim (Bool-cases (leb q.threshold latency)) [
      | inl long ↦
          let k = keep_trace-Kept latency log y ys q.records r.holds lt in
          elim (Bool-cases (leb max_trace_entries (keep_trace latency q.records).nr_trace)) [
            | inl full ↦
                rw (nonzero, long, full)
                  (record { holds = k.holds; room = inl refl; hist = r.hist })
            | inr free ↦
                rw (nonzero, long, free)
                  (record {
                    holds = k.holds;
                    room =
                        room_keeping (log ++ (latency, y ∷ ys) ∷ []) q.records
                          (keep_trace latency q.records) q.pid k (ground (arith, free)) r.room;
                    hist = r.hist;
                  })
          ]
      | inr short ↦
          let d = drop_trace-Dropped log (y ∷ ys) q.records r.holds lt in
          rw (nonzero, short)
            (record {
              holds = d.holds;
              room = room_dropping log q.records (drop_trace q.records) q.pid d r.room;
              hist = r.hist;
            })
    ]

-- In a state that represents a log and pending tasks, with an entry for the open trace, the end of a wait moves its tasks into the log exactly if there
-- are any and the latency reaches the threshold, and forgets them otherwise; the traces of the log
-- stay as they are. The arrays keep room for what follows, or tracing ends.
pub record_task_commit-Refines :
    (latency : ℕ) (a : Abstract) (n : Info)
    → Refines a n
    → n.records.nr_trace < max_trace_entries
    → Refines (closed latency n.threshold a) (record_task_commit latency n).1
unfolding record_task_commit latency_histogram_store
record_task_commit-Refines latency (log, pending) n r lt =
    closes-Refines latency log pending (latency_histogram_store latency n)
      (stored-Refines latency (log, pending) n r) lt
      (current_trace-nr_tasks log pending n.records r.holds lt)

-- ===== src/Runqlat/Record/Stores.antt =====
-- What the stores of record_task and record_task_commit make of the log and the open trace.
use mathlib.Core.List.{append_assoc, append-nil}
use uio_linux_sample.Prelude.{
  ℕ, suc, ◌+◌, ◌≤◌, ◌<◌, ◌≡◌, refl, sym, ap, subst, ◌∙◌, false, Option, none, some, List, [], ◌∷◌,
  ◌++◌, arith, length, All, length-append, get_or-append, set-append,
}
use uio_linux_sample.Runqlat.Data.{
  TaskEntry, TraceEntry, Records, zero_trace, max_trace_entries, max_trace_entry_tasks,
}
use uio_linux_sample.Runqlat.Record.{
  current_trace, begun, misplaced, warns, add_task, keep_trace, drop_trace,
}
use uio_linux_sample.Runqlat.Record.Laws.{
  Log, flat, laid_out, IsClean, IsCurrent, Others, layout, Holds, length-laid_out, flat-append,
  laid_out-append, records_ext, grown, add_task-layout, grown-IsCurrent, begun-zero, begun-suc,
}

trace_ext :
    (l : ℕ) (t : TraceEntry) (n : ℕ) (o : Option ℕ)
    → t.nr_tasks ≡ n
    → t.entries ≡ o
    → record t { latency = l } ≡ record { latency = l; nr_tasks = n; entries = o }
trace_ext l t n o e f = λ i. record { latency = l; nr_tasks = e i; entries = f i }

keep_trace-layout :
    (l : ℕ) (t : TraceEntry) (log : Log) (y : TaskEntry) (ys : List TaskEntry)
    (ts : List TraceEntry) (free : List TaskEntry)
    → length (laid_out 0 log) < max_trace_entries
    → IsCurrent t (length (flat log)) (y ∷ ys)
    → keep_trace l (layout log (y ∷ ys) (t ∷ ts) free) ≡ layout (log ++ (l, y ∷ ys) ∷ []) [] ts free
unfolding keep_trace
keep_trace-layout l t log y ys ts free h c = rw (get_or-append (laid_out 0 log) t ts zero_trace) (
    records_ext
      (omega (
        arith,
        length-laid_out 0 log,
        length-laid_out 0 (log ++ (l, y ∷ ys) ∷ []),
        length-append log ((l, y ∷ ys) ∷ []),
      ))
      (set-append (laid_out 0 log) t ts (record t { latency = l })
        ∙ ap (λ e. laid_out 0 log ++ e ∷ ts)
            (trace_ext l t (suc (length ys)) (some (0 + length (flat log))) c.0
              (c.1 ∙ ap some (omega arith)))
        ∙ sym (
            append_assoc (laid_out 0 log)
              (record {
                latency = l;
                nr_tasks = suc (length ys);
                entries = some (0 + length (flat log));
              }
                ∷ [])
              ts)
        ∙ ap (λ es. es ++ ts) (sym (laid_out-append 0 log l (y ∷ ys))))
      (ap length
        (sym (flat-append log l (y ∷ ys)) ∙ sym (append-nil (flat (log ++ (l, y ∷ ys) ∷ [])))))
      (ap (λ us. us ++ free)
        (sym (flat-append log l (y ∷ ys)) ∙ sym (append-nil (flat (log ++ (l, y ∷ ys) ∷ []))))))

abbrev dropped : TraceEntry → TraceEntry
dropped t = record t { nr_tasks = 0; entries = none }

IsCurrent-nr_tasks :
    (t : TraceEntry) (start : ℕ) (pending : List TaskEntry)
    → IsCurrent t start pending
    → t.nr_tasks ≡ length pending
IsCurrent-nr_tasks t start [] c = c
IsCurrent-nr_tasks t start (y ∷ ys) c = c.0

drop_trace-layout :
    (t : TraceEntry) (log : Log) (pending : List TaskEntry) (ts : List TraceEntry)
    (free : List TaskEntry)
    → length (flat log ++ pending) ≤ max_trace_entry_tasks
    → IsCurrent t (length (flat log)) pending
    → drop_trace (layout log pending (t ∷ ts) free)
      ≡ layout log [] (dropped t ∷ ts) (pending ++ free)
unfolding drop_trace
drop_trace-layout t log pending ts free h c = rw (get_or-append (laid_out 0 log) t ts zero_trace) (
    records_ext refl (set-append (laid_out 0 log) t ts (dropped t))
      (omega (
        arith,
        IsCurrent-nr_tasks t (length (flat log)) pending c,
        length-append (flat log) pending,
        ap length (append-nil (flat log)),
      ))
      (append_assoc (flat log) pending free
        ∙ ap (λ us. us ++ (pending ++ free)) (sym (append-nil (flat log)))))

-- After the probes' tests there is an open trace entry and room for a task.
pub record HasRoom (r : Records) : Type 0 where
  pub trace_free : r.nr_trace < max_trace_entries
  pub task_free : r.nr_task < max_trace_entry_tasks

-- One more pending task.
pub record Added (log : Log) (pending : List TaskEntry) (r q : Records) : Type 0 where
  pub holds : Holds log pending q
  pub nr_trace : q.nr_trace ≡ r.nr_trace
  pub nr_task : q.nr_task ≡ suc r.nr_task

layout-Added :
    (x : TaskEntry) (log : Log) (pending : List TaskEntry) (others : List TraceEntry)
    (free : List TaskEntry)
    → Others others (length (flat log)) pending
    → length (laid_out 0 log ++ others) ≡ max_trace_entries
    → length ((flat log ++ pending) ++ free) ≡ max_trace_entry_tasks
    → HasRoom (layout log pending others free)
    → Added log
        (pending ++ x ∷ [])
        (layout log pending others free)
        (add_task x (layout log pending others free))
layout-Added x log pending [] free o a b room =
    absurd (omega (arith, length-append (laid_out 0 log) [], room.trace_free))
layout-Added x log pending (t ∷ ts) [] o a b room =
    absurd (omega (arith, length-append (flat log ++ pending) [], room.task_free))
layout-Added x log pending (t ∷ ts) (f ∷ fs) o a b room =
    rw (add_task-layout x f t log pending ts fs room.task_free) (record {
      holds = record {
        others = grown (length (flat log ++ pending)) t ∷ ts;
        free = fs;
        shape = refl;
        current = (
          subst (λ n. IsCurrent (grown n t) (length (flat log)) (pending ++ x ∷ []))
              (sym (length-append (flat log) pending))
              (grown-IsCurrent x t (length (flat log)) pending
                (omega (arith, room.task_free, length-append (flat log) pending)) o.0),
          o.1,
        );
        traces_size = omega (
          arith,
          a,
          length-append (laid_out 0 log) (t ∷ ts),
          length-append (laid_out 0 log) (grown (length (flat log ++ pending)) t ∷ ts),
        );
        tasks_size = omega (
          arith,
          b,
          length-append (flat log ++ pending) (f ∷ fs),
          length-append (flat log ++ (pending ++ x ∷ [])) fs,
          length-append (flat log) pending,
          length-append (flat log) (pending ++ x ∷ []),
          length-append pending (x ∷ []),
        );
      };
      nr_trace = refl;
      nr_task = omega (
        arith,
        length-append (flat log) pending,
        length-append (flat log) (pending ++ x ∷ []),
        length-append pending (x ∷ []),
      );
    })

pub add_task-Added :
    (x : TaskEntry) (log : Log) (pending : List TaskEntry) (r : Records)
    → Holds log pending r
    → HasRoom r
    → Added log (pending ++ x ∷ []) r (add_task x r)
add_task-Added x log pending r h room =
    subst (λ q. Added log (pending ++ x ∷ []) q (add_task x q)) (sym h.shape)
      (layout-Added x log pending h.others h.free h.current
        (ap (λ q. length q.trace_entries) (sym h.shape) ∙ h.traces_size)
        (ap (λ q. length q.task_entries) (sym h.shape) ∙ h.tasks_size) (subst HasRoom h.shape room))

-- The layout's lengths, for the arrays as the record holds them.
abbrev Sized : List TraceEntry → List TaskEntry → Type 0
Sized ts xs = (length ts ≡ max_trace_entries) × (length xs ≡ max_trace_entry_tasks)

Holds-Sized :
    (log : Log) (pending : List TaskEntry) (r : Records) (h : Holds log pending r)
    → Sized (laid_out 0 log ++ h.others) ((flat log ++ pending) ++ h.free)
Holds-Sized log pending r h = (
  ap (λ q. length q.trace_entries) (sym h.shape) ∙ h.traces_size,
  ap (λ q. length q.task_entries) (sym h.shape) ∙ h.tasks_size,
)

layout-IsCurrent :
    (log : Log) (pending : List TaskEntry) (others : List TraceEntry) (free : List TaskEntry)
    → Others others (length (flat log)) pending
    → length (laid_out 0 log ++ others) ≡ max_trace_entries
    → length (laid_out 0 log) < max_trace_entries
    → IsCurrent (current_trace (layout log pending others free)) (length (flat log)) pending
layout-IsCurrent log pending [] free o a lt =
    absurd (omega (arith, length-append (laid_out 0 log) []))
layout-IsCurrent log pending (t ∷ ts) free o a lt =
    rw (get_or-append (laid_out 0 log) t ts zero_trace) o.0

current_trace-IsCurrent :
    (log : Log) (pending : List TaskEntry) (r : Records)
    → Holds log pending r
    → r.nr_trace < max_trace_entries
    → IsCurrent (current_trace r) (length (flat log)) pending
current_trace-IsCurrent log pending r h lt =
    subst (λ q. IsCurrent (current_trace q) (length (flat log)) pending) (sym h.shape)
      (layout-IsCurrent log pending h.others h.free h.current (Holds-Sized log pending r h).0
        (subst (λ q. q.nr_trace < max_trace_entries) h.shape lt))

-- The open trace counts the pending tasks.
pub current_trace-nr_tasks :
    (log : Log) (pending : List TaskEntry) (r : Records)
    → Holds log pending r
    → r.nr_trace < max_trace_entries
    → (current_trace r).nr_tasks ≡ length pending
current_trace-nr_tasks log pending r h lt =
    IsCurrent-nr_tasks (current_trace r) (length (flat log)) pending
      (current_trace-IsCurrent log pending r h lt)

misplaced-IsCurrent :
    (t : TraceEntry) (start task : ℕ) (pending : List TaskEntry)
    → IsCurrent t start pending
    → task ≡ start + length pending
    → misplaced task t.nr_tasks (begun task t).entries ≡ false
misplaced-IsCurrent t start task [] c e = rw (begun-zero task t c) (ground (arith, c))
misplaced-IsCurrent t start task (y ∷ ys) c e =
    rw (begun-suc task (length ys) t c.0 ∙ c.1) (ground (arith, c.0))

Holds-nr_task :
    (log : Log) (pending : List TaskEntry) (r : Records)
    → Holds log pending r
    → r.nr_task ≡ length (flat log) + length pending
Holds-nr_task log pending r h = ap (λ q. q.nr_task) h.shape ∙ length-append (flat log) pending

-- The warning of record_task is never given.
pub warns-never :
    (log : Log) (pending : List TaskEntry) (r : Records)
    → Holds log pending r
    → r.nr_trace < max_trace_entries
    → warns r ≡ false
unfolding warns
warns-never log pending r h lt =
    misplaced-IsCurrent (current_trace r) (length (flat log)) r.nr_task pending
      (current_trace-IsCurrent log pending r h lt) (Holds-nr_task log pending r h)

Others-nil : (ts : List TraceEntry) (start : ℕ) → All IsClean ts → Others ts start []
Others-nil [] start h = refl
Others-nil (t ∷ ts) start h = h

-- One more trace in the log, and no pending task.
pub record Kept (log : Log) (r q : Records) : Type 0 where
  pub holds : Holds log [] q
  pub nr_trace : q.nr_trace ≡ suc r.nr_trace
  pub nr_task : q.nr_task ≡ r.nr_task

layout-Kept :
    (l : ℕ) (log : Log) (y : TaskEntry) (ys : List TaskEntry) (others : List TraceEntry)
    (free : List TaskEntry)
    → Others others (length (flat log)) (y ∷ ys)
    → Sized (laid_out 0 log ++ others) ((flat log ++ (y ∷ ys)) ++ free)
    → length (laid_out 0 log) < max_trace_entries
    → Kept
        (log ++ (l, y ∷ ys) ∷ [])
        (layout log (y ∷ ys) others free)
        (keep_trace l (layout log (y ∷ ys) others free))
layout-Kept l log y ys [] free o (a, b) lt =
    absurd (omega (arith, length-append (laid_out 0 log) []))
layout-Kept l log y ys (t ∷ ts) free o (a, b) lt =
    let log' = log ++ (l, y ∷ ys) ∷ [] in
    let tasks = sym (flat-append log l (y ∷ ys)) ∙ sym (append-nil (flat log')) in
    let len : length (laid_out 0 log') ≡ suc (length (laid_out 0 log)) = omega (
      arith,
      length-laid_out 0 log,
      length-laid_out 0 log',
      length-append log ((l, y ∷ ys) ∷ []),
    ) in
    rw (keep_trace-layout l t log y ys ts free lt o.0) (record {
      holds = record {
        others = ts;
        free = free;
        shape = refl;
        current = Others-nil ts (length (flat log')) o.1;
        traces_size = omega (
          arith,
          a,
          len,
          length-append (laid_out 0 log) (t ∷ ts),
          length-append (laid_out 0 log') ts,
        );
        tasks_size = ap (λ us. length (us ++ free)) (sym tasks) ∙ b;
      };
      nr_trace = len;
      nr_task = ap length (sym tasks);
    })

pub keep_trace-Kept :
    (l : ℕ) (log : Log) (y : TaskEntry) (ys : List TaskEntry) (r : Records)
    → Holds log (y ∷ ys) r
    → r.nr_trace < max_trace_entries
    → Kept (log ++ (l, y ∷ ys) ∷ []) r (keep_trace l r)
keep_trace-Kept l log y ys r h lt =
    subst (λ q. Kept (log ++ (l, y ∷ ys) ∷ []) q (keep_trace l q)) (sym h.shape)
      (layout-Kept l log y ys h.others h.free h.current (Holds-Sized log (y ∷ ys) r h)
        (subst (λ q. q.nr_trace < max_trace_entries) h.shape lt))

-- The log as it was, and no pending task.
pub record Dropped (log : Log) (r q : Records) : Type 0 where
  pub holds : Holds log [] q
  pub nr_trace : q.nr_trace ≡ r.nr_trace
  pub nr_task : q.nr_task ≤ r.nr_task

layout-Dropped :
    (log : Log) (pending : List TaskEntry) (others : List TraceEntry) (free : List TaskEntry)
    → Others others (length (flat log)) pending
    → Sized (laid_out 0 log ++ others) ((flat log ++ pending) ++ free)
    → length (laid_out 0 log) < max_trace_entries
    → Dropped log (layout log pending others free) (drop_trace (layout log pending others free))
layout-Dropped log pending [] free o (a, b) lt =
    absurd (omega (arith, length-append (laid_out 0 log) []))
layout-Dropped log pending (t ∷ ts) free o (a, b) lt =
    rw
      (drop_trace-layout t log pending ts free
        (omega (arith, length-append (flat log ++ pending) free)) o.0)
      (record {
        holds = record {
          others = dropped t ∷ ts;
          free = pending ++ free;
          shape = refl;
          current = (refl, o.1);
          traces_size = omega (
            arith,
            a,
            length-append (laid_out 0 log) (t ∷ ts),
            length-append (laid_out 0 log) (dropped t ∷ ts),
          );
          tasks_size =
              ap (λ us. length (us ++ (pending ++ free))) (append-nil (flat log))
              ∙ ap length (sym (append_assoc (flat log) pending free))
              ∙ b;
        };
        nr_trace = refl;
        nr_task =
            omega (arith, length-append (flat log) pending, ap length (append-nil (flat log)));
      })

pub drop_trace-Dropped :
    (log : Log) (pending : List TaskEntry) (r : Records)
    → Holds log pending r
    → r.nr_trace < max_trace_entries
    → Dropped log r (drop_trace r)
drop_trace-Dropped log pending r h lt =
    subst (λ q. Dropped log q (drop_trace q)) (sym h.shape)
      (layout-Dropped log pending h.others h.free h.current (Holds-Sized log pending r h)
        (subst (λ q. q.nr_trace < max_trace_entries) h.shape lt))

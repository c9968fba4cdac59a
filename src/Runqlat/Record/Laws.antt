-- ===== src/Runqlat/Record/Laws.antt =====
-- The recorded tasks as a log of traces and the tasks of the trace that is still open.
use mathlib.Core.List.{append_assoc, append-nil}
use uio_linux_sample.Prelude.{
  ℕ, suc, ◌+◌, ◌<◌, ◌≡◌, refl, sym, ap, ◌∙◌, some, List, [], ◌∷◌, ◌++◌, arith, length, All,
  length-append, get_or-append, set-append,
}
use uio_linux_sample.Prelude.Words.{u32}
use uio_linux_sample.Runqlat.Data.{
  TaskEntry, TraceEntry, Records, zero_trace, max_trace_entries, max_trace_entry_tasks,
}
use uio_linux_sample.Runqlat.Record.{begun, add_task}

abbrev pub Log : Type 0
Log = List (ℕ × List TaskEntry)

-- The tasks of the log, in the order in which they were recorded.
abbrev pub flat : Log → List TaskEntry
flat [] = []
flat ((latency, tasks) ∷ log) = tasks ++ flat log

-- The trace entries for a log whose tasks start at index `start`.
abbrev pub laid_out : ℕ → Log → List TraceEntry
laid_out start [] = []
laid_out start ((latency, tasks) ∷ log) =
    record { latency = latency; nr_tasks = length tasks; entries = some start }
    ∷ laid_out (start + length tasks) log

abbrev pub IsClean : TraceEntry → Type 0
IsClean t = t.nr_tasks ≡ 0

abbrev pub IsCurrent : TraceEntry → ℕ → List TaskEntry → Type 0
IsCurrent t start [] = IsClean t
IsCurrent t start (x ∷ xs) = (t.nr_tasks ≡ suc (length xs)) × (t.entries ≡ some start)

-- The entries behind the log's: the open trace with its tasks, and unused ones.
abbrev pub Others : List TraceEntry → ℕ → List TaskEntry → Type 0
Others [] start pending = pending ≡ []
Others (t ∷ ts) start pending = IsCurrent t start pending × All IsClean ts

-- The arrays filled with the log's traces and the pending tasks, one behind the other.
abbrev pub layout : Log → List TaskEntry → List TraceEntry → List TaskEntry → Records
layout log pending others free = record {
  nr_trace = length (laid_out 0 log);
  trace_entries = laid_out 0 log ++ others;
  nr_task = length (flat log ++ pending);
  task_entries = (flat log ++ pending) ++ free;
}

pub record Holds (log : Log) (pending : List TaskEntry) (r : Records) : Type 0 where
  pub others : List TraceEntry
  pub free : List TaskEntry
  pub shape : r ≡ layout log pending others free
  pub current : Others others (length (flat log)) pending
  pub traces_size : length r.trace_entries ≡ max_trace_entries
  pub tasks_size : length r.task_entries ≡ max_trace_entry_tasks

pub length-laid_out : (start : ℕ) (log : Log) → length (laid_out start log) ≡ length log
length-laid_out start [] = refl
length-laid_out start ((l, ts) ∷ log) = ap suc (length-laid_out (start + length ts) log)

pub flat-append :
    (log : Log) (l : ℕ) (ts : List TaskEntry) → flat (log ++ (l, ts) ∷ []) ≡ flat log ++ ts
flat-append [] l ts = append-nil ts
flat-append ((k, us) ∷ log) l ts =
    ap (◌++◌ us) (flat-append log l ts) ∙ sym (append_assoc us (flat log) ts)

pub laid_out-append :
    (start : ℕ) (log : Log) (l : ℕ) (ts : List TaskEntry)
    → laid_out start (log ++ (l, ts) ∷ [])
      ≡ laid_out start log
        ++ record { latency = l; nr_tasks = length ts; entries = some (start + length (flat log)) }
          ∷ []
laid_out-append start [] l ts =
    ap (λ n. record { latency = l; nr_tasks = length ts; entries = some n } ∷ []) (omega arith)
laid_out-append start ((k, us) ∷ log) l ts =
    ap (◌∷◌ (record { latency = k; nr_tasks = length us; entries = some start })) (
      laid_out-append (start + length us) log l ts
      ∙ ap
          (λ n.
            laid_out (start + length us) log
            ++ record { latency = l; nr_tasks = length ts; entries = some n } ∷ [])
          (omega (arith, length-append us (flat log))))

abbrev pub records_of : ℕ → List TraceEntry → ℕ → List TaskEntry → Records
records_of a ts c xs = record { nr_trace = a; trace_entries = ts; nr_task = c; task_entries = xs }

pub records_ext :
    {a b : ℕ} {ts us : List TraceEntry} {c d : ℕ} {xs ys : List TaskEntry}
    → a ≡ b
    → ts ≡ us
    → c ≡ d
    → xs ≡ ys
    → records_of a ts c xs ≡ records_of b us d ys
records_ext e f g h = λ i. records_of (e i) (f i) (g i) (h i)

-- The entry of the open trace after one more task.
abbrev pub grown : ℕ → TraceEntry → TraceEntry
grown task t = record (begun task t) { nr_tasks = u32 (t.nr_tasks + 1) }

pub add_task-layout :
    (x f : TaskEntry) (t : TraceEntry) (log : Log) (pending : List TaskEntry) (ts : List TraceEntry)
    (fs : List TaskEntry)
    → length (flat log ++ pending) < max_trace_entry_tasks
    → add_task x (layout log pending (t ∷ ts) (f ∷ fs))
      ≡ layout log (pending ++ x ∷ []) (grown (length (flat log ++ pending)) t ∷ ts) fs
unfolding add_task
add_task-layout x f t log pending ts fs h = rw (get_or-append (laid_out 0 log) t ts zero_trace) (
    records_ext refl (set-append (laid_out 0 log) t ts (grown (length (flat log ++ pending)) t))
      (omega (
        arith,
        length-append (flat log) pending,
        length-append (flat log) (pending ++ x ∷ []),
        length-append pending (x ∷ []),
      ))
      (set-append (flat log ++ pending) f fs x
        ∙ sym (append_assoc (flat log ++ pending) (x ∷ []) fs)
        ∙ ap (λ u. u ++ fs) (append_assoc (flat log) pending (x ∷ []))))

pub begun-zero : (task : ℕ) (t : TraceEntry) → t.nr_tasks ≡ 0 → (begun task t).entries ≡ some task
begun-zero task t e = simp e refl

pub begun-suc :
    (task n : ℕ) (t : TraceEntry) → t.nr_tasks ≡ suc n → (begun task t).entries ≡ t.entries
begun-suc task n t e = ground arith

pub grown-IsCurrent :
    (x : TaskEntry) (t : TraceEntry) (start : ℕ) (pending : List TaskEntry)
    → length pending < max_trace_entry_tasks
    → IsCurrent t start pending
    → IsCurrent (grown (start + length pending) t) start (pending ++ x ∷ [])
grown-IsCurrent x t start [] h c =
    (omega (arith, c), begun-zero (start + 0) t c ∙ ap some (omega arith))
grown-IsCurrent x t start (y ∷ ys) h c = (
  omega (arith, c.0, length-append ys (x ∷ [])),
  begun-suc (start + suc (length ys)) (length ys) t c.0 ∙ c.1,
)

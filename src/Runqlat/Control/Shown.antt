-- ===== src/Runqlat/Control/Shown.antt =====
-- What a reader of the file `runqlat` sees.
use mathlib.Core.List.{append_assoc}
use uio_linux_sample.Prelude.{
  ℕ, ◌/◌, ◌≡◌, refl, sym, ap, ap₂, ◌∙◌, some, List, [], ◌∷◌, ◌++◌, map, length, take, length-append,
  take-append, drop-append,
}
use uio_linux_sample.Trace.Stacks.{slice}
use uio_linux_sample.Runqlat.Data.{TaskEntry, Records, Info, invalid}
use uio_linux_sample.Runqlat.Record.Laws.{Log, flat, laid_out, Holds}
use uio_linux_sample.Runqlat.Record.Refines.{Abstract, Refines}
use uio_linux_sample.Runqlat.Control.{TraceLine, task_line, trace_line, runqlat_show}

-- A trace of the log as it is printed.
abbrev pub shown : ℕ × List TaskEntry → TraceLine
shown (latency, tasks) = record {
  latency = latency / 1000;
  runqlen = length tasks;
  tasks = map task_line tasks;
}

slice-append :
    (pre ts rest : List TaskEntry) → slice (pre ++ (ts ++ rest)) (length pre) (length ts) ≡ ts
slice-append pre ts rest = rw (drop-append pre (ts ++ rest)) (take-append ts rest)

lines-shown :
    (pre : List TaskEntry) (log : Log) (rest : List TaskEntry)
    → map (trace_line (pre ++ (flat log ++ rest))) (laid_out (length pre) log) ≡ map shown log
lines-shown pre [] rest = refl
lines-shown pre ((l, ts) ∷ log) rest =
    let line : List TaskEntry → TraceLine =
      λ us. record { latency = l / 1000; runqlen = length ts; tasks = map task_line us } in
    ap₂ ◌∷◌
      (ap line (
        ap (λ us. slice (pre ++ us) (length pre) (length ts)) (append_assoc ts (flat log) rest)
        ∙ slice-append pre ts (flat log ++ rest)))
      (ap₂ (λ us n. map (trace_line us) (laid_out n log))
          (ap (◌++◌ pre) (append_assoc ts (flat log) rest)
            ∙ sym (append_assoc pre ts (flat log ++ rest)))
          (sym (length-append pre ts))
        ∙ lines-shown (pre ++ ts) log rest)

abbrev lines_of : Records → List TraceLine
lines_of r = map (trace_line r.task_entries) (take r.nr_trace r.trace_entries)

lines_of-shown :
    (log : Log) (pending : List TaskEntry) (r : Records)
    → Holds log pending r
    → lines_of r ≡ map shown log
lines_of-shown log pending r h =
    ap lines_of h.shape
    ∙ ap (map (trace_line ((flat log ++ pending) ++ h.free)))
        (take-append (laid_out 0 log) h.others)
    ∙ ap (λ us. map (trace_line us) (laid_out 0 log)) (append_assoc (flat log) pending h.free)
    ∙ lines-shown [] log (pending ++ h.free)

-- In a state that represents a log and traces no thread, the file shows the traces of the log, each with exactly the tasks
-- that were recorded for it, in their order; tasks of a wait that was not over are not shown.
pub runqlat_show-log :
    (a : Abstract) (n : Info)
    → Refines a n
    → n.pid ≡ invalid
    → runqlat_show n ≡ some (map shown a.0)
unfolding runqlat_show
runqlat_show-log a n r e = simp e (ap some (lines_of-shown a.0 a.1 n.records r.holds))

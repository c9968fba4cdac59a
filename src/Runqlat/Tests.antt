-- ===== src/Runqlat/Tests.antt =====
-- A run of the tracer, and its theorems at inputs that meet their hypotheses.
use uio_linux_sample.Prelude.{
  ℕ, ◌<◌, ◌≡◌, refl, subst, ◌⊎◌, true, false, some, [], ◌∷◌, take, arith,
}
use uio_linux_sample.Prelude.Words.{ℤ, pos}
use uio_linux_sample.Trace.Shift.{shift_while}
use uio_linux_sample.Runqlat.Data.{Info, Context, Seen, runqlat_info, invalid, max_trace_entries}
use uio_linux_sample.Runqlat.Record.{
  task_entry, warns, add_task, record_task, keep_trace, record_task_commit, histogram_index,
  histogram_bucket, latency_histogram_store, runqlat_info_reset,
}
use uio_linux_sample.Runqlat.Record.Stores.{HasRoom}
use uio_linux_sample.Runqlat.Record.Refines.{
  Abstract, Refines, added, closed, record_task-Refines, record_task_commit-Refines,
}
use uio_linux_sample.Runqlat.Probes.{
  probe_sched_wakeup, probe_sched_switch, charge, follow_trace, switched_in, others_switch,
}
use uio_linux_sample.Runqlat.Probes.Switched.{SwitchCase, probe_sched_switch-SwitchCase}
use uio_linux_sample.Runqlat.Control.{trace_pid_store, set_pid, zero_records, runqlat_show}
use uio_linux_sample.Runqlat.Control.Shown.{runqlat_show-log}
use uio_linux_sample.Runqlat.Control.Steps.{
  Reach, here, more, wakes, switches, writes_pid, runqlat_info-Refines, Reach-safe,
}
use uio_linux_sample.Runqlat.Init.{
  Answers, sched_wakeup, sched_wakeup_new, sched_switch, sched_migrate_task,
}

-- Task `t` has the pid `t`, and all are on CPU 1. Task 5 is traced.
abbrev at : ℕ → Context
at clock = record {
  clock = clock;
  pid = λ t. t;
  comm = λ t. b't' ∷ [];
  is_running = λ t. true;
  is_idle_task = λ t. false;
  task_cpu = λ t. 1;
  strncpy = λ s n. take n s;
}

abbrev seen_cpu : ℤ → Seen
seen_cpu cpu = record { pid = pos 5; cpu = cpu; cpu_then = cpu; cpu_last = cpu; pid_last = pos 5 }

-- A pid is written, task 5 is woken while task 8 runs, task 9 gets the CPU, then task 5.
abbrev traced : Info
traced = (trace_pid_store invalid (some (pos 5)) runqlat_info).1

abbrev woken : Info
woken = probe_sched_wakeup (at 1000000) 5 (seen_cpu invalid) traced

abbrev waiting : Info
waiting = probe_sched_switch (at 11000000) 1 8 9 (seen_cpu (pos 1)) woken

abbrev arrived : Info
arrived = probe_sched_switch (at 41000000) 1 9 5 (seen_cpu (pos 1)) waiting

abbrev stopped : Info
stopped = (trace_pid_store (pos 5) (some invalid) arrived).1

-- It has waited for 40 ms: 10 ms behind task 8 and 30 ms behind task 9.
shown_run :
    runqlat_show stopped
    ≡ some (
        record {
          latency = 40000;
          runqlen = 2;
          tasks =
              record { comm = b't' ∷ []; pid = 8; runtime = 10000 }
              ∷ record { comm = b't' ∷ []; pid = 9; runtime = 30000 }
              ∷ [];
        }
        ∷ [])
unfolding runqlat_show trace_pid_store set_pid zero_records runqlat_info_reset probe_sched_wakeup
    probe_sched_switch follow_trace switched_in others_switch charge record_task add_task
    record_task_commit latency_histogram_store keep_trace
shown_run = refl

stopped-Reach : Reach runqlat_info stopped
stopped-Reach =
    more
      (more
        (more
          (more (more here (writes_pid invalid (some (pos 5))))
            (wakes (at 1000000) 5 (seen_cpu invalid)))
          (switches (at 11000000) 1 8 9 (seen_cpu (pos 1))))
        (switches (at 41000000) 1 9 5 (seen_cpu (pos 1))))
      (writes_pid (pos 5) (some invalid))

Reach-safe_example :
    ((a : Abstract) × Refines a stopped)
    × ((stopped.pid ≡ invalid) ⊎ (HasRoom stopped.records × (warns stopped.records ≡ false)))
Reach-safe_example = Reach-safe stopped stopped-Reach

waiting-Reach : Reach runqlat_info waiting
waiting-Reach =
    more
      (more (more here (writes_pid invalid (some (pos 5))))
        (wakes (at 1000000) 5 (seen_cpu invalid)))
      (switches (at 11000000) 1 8 9 (seen_cpu (pos 1)))

-- What the arrays hold while task 5 waits.
abbrev waiting_log : (a : Abstract) × Refines a waiting
waiting_log = (Reach-safe waiting waiting-Reach).0

switch_log_example :
    SwitchCase
      (at 41000000)
      1
      9
      5
      (seen_cpu (pos 1))
      waiting_log.0
      waiting
      (probe_sched_switch (at 41000000) 1 9 5 (seen_cpu (pos 1)) waiting)
switch_log_example =
    probe_sched_switch-SwitchCase (at 41000000) 1 9 5 (seen_cpu (pos 1)) waiting_log.0 waiting
      waiting_log.1

-- The state with one pending task, and the one after a wait of 40 ms.
abbrev charged : Info
charged = record_task (at 0) 8 10000000 runqlat_info

record_charged :
    Refines (added (at 0) 8 10000000 ([], [])) charged
    × (charged.records.nr_trace < max_trace_entries)
record_charged =
    record_task-Refines (at 0) 8 10000000 ([], []) runqlat_info runqlat_info-Refines
      (record { trace_free = omega arith; task_free = omega arith })

commit_example :
    Refines
      (closed 40000000 charged.threshold (added (at 0) 8 10000000 ([], [])))
      (record_task_commit 40000000 charged).1
commit_example =
    record_task_commit-Refines 40000000 (added (at 0) 8 10000000 ([], [])) charged record_charged.0
      record_charged.1

abbrev committed : Info
committed = (record_task_commit 40000000 charged).1

committed_pid : committed.pid ≡ invalid
unfolding record_task_commit record_task add_task latency_histogram_store keep_trace
committed_pid = refl

committed_trace :
    closed 40000000 charged.threshold (added (at 0) 8 10000000 ([], []))
    ≡ ((40000000, task_entry (at 0) 8 10000000 ∷ []) ∷ [], [])
unfolding record_task add_task
committed_trace = refl

committed-Refines : Refines ((40000000, task_entry (at 0) 8 10000000 ∷ []) ∷ [], []) committed
committed-Refines =
    subst (λ a. Refines a committed) committed_trace
      (record_task_commit-Refines 40000000 (added (at 0) 8 10000000 ([], [])) charged
        record_charged.0 record_charged.1)

runqlat_show_example :
    runqlat_show committed
    ≡ some (
        record {
          latency = 40000;
          runqlen = 1;
          tasks = record { comm = b't' ∷ []; pid = 8; runtime = 10000 } ∷ [];
        }
        ∷ [])
runqlat_show_example =
    runqlat_show-log ((40000000, task_entry (at 0) 8 10000000 ∷ []) ∷ [], []) committed
      committed-Refines committed_pid

histogram_40 : histogram_bucket 40 ≡ 5
unfolding histogram_bucket histogram_index shift_while
histogram_40 = refl

abbrev answers : Answers
answers = record {
  kernel_tracepoints =
      (sched_switch, 4096)
      ∷ (sched_wakeup, 4160)
      ∷ (sched_wakeup_new, 4224)
      ∷ (sched_migrate_task, 4288)
      ∷ [];
  vzalloc = true;
  proc_mkdir = true;
  create_pid = true;
  create_threshold = true;
  create_runqlat = true;
  create_distribution = true;
  register = λ i. pos 0;
}

-- ===== src/Runqlat/Control/Steps.antt =====
-- The module as a transition system: probes on any CPU, between writes to its files.
use uio_linux_sample.Prelude.{
  ℕ, zero, suc, ◌≡◌, ◌⊎◌, refl, false, inl, inr, Option, [], replicate, All, length-replicate,
}
use uio_linux_sample.Prelude.Words.{ℤ}
use uio_linux_sample.Runqlat.Data.{
  Info, Context, Seen, runqlat_info, invalid, zero_trace, zero_task, max_trace_entries,
  max_trace_entry_tasks,
}
use uio_linux_sample.Runqlat.Record.{warns}
use uio_linux_sample.Runqlat.Record.Laws.{IsClean}
use uio_linux_sample.Runqlat.Record.Stores.{HasRoom, warns-never}
use uio_linux_sample.Runqlat.Record.Refines.{Abstract, Refines}
use uio_linux_sample.Runqlat.Probes.{
  probe_sched_wakeup, probe_sched_switch, probe_sched_migrate_task,
}
use uio_linux_sample.Runqlat.Probes.Laws.{probe_sched_wakeup-Refines}
use uio_linux_sample.Runqlat.Probes.Switched.{SwitchCase, probe_sched_switch-SwitchCase}
use uio_linux_sample.Runqlat.Probes.Migrated.{MigrateCase, probe_sched_migrate_task-MigrateCase}
use uio_linux_sample.Runqlat.Control.{trace_pid_store, threshold_store}
use uio_linux_sample.Runqlat.Control.Laws.{
  Written, trace_pid_store-Written, threshold_store-Refines,
}

-- A handler may have read anything before it took the lock.
pub data Step (n : Info) : Info → Type 0 where
  wakes : (c : Context) (p : ℕ) (seen : Seen) → Step n (probe_sched_wakeup c p seen n)
  switches :
      (c : Context) (cpu prev next : ℕ) (seen : Seen)
      → Step n (probe_sched_switch c cpu prev next seen n)
  migrates :
      (c : Context) (p cpu : ℕ) (seen : Seen) → Step n (probe_sched_migrate_task c p cpu seen n)
  writes_pid : (seen : ℤ) (input : Option ℤ) → Step n (trace_pid_store seen input n).1
  writes_threshold : (input : Option ℕ) → Step n (threshold_store input n).1

pub data Reach (s : Info) : Info → Type 0 where
  here : Reach s s
  more : {t u : Info} → Reach s t → Step t u → Reach s u

Represented : Info → Type 0
Represented n = (a : Abstract) × Refines a n

SwitchCase-Represented :
    (c : Context) (cpu prev next : ℕ) (seen : Seen) (a : Abstract) (n q : Info)
    → Refines a n
    → SwitchCase c cpu prev next seen a n q
    → Represented q
unfolding Represented
SwitchCase-Represented c cpu prev next seen a n q r (inl (_, _, e)) = (a, rw e r)
SwitchCase-Represented c cpu prev next seen a n q r (inr (inl (_, s))) = (a, s.refines)
SwitchCase-Represented c cpu prev next seen a n q r (inr (inr (_, inl (_, ended)))) = (_, ended)
SwitchCase-Represented c cpu prev next seen a n q r (inr (inr (_, inr (inl (_, _, l))))) =
    (a, l.refines)
SwitchCase-Represented c cpu prev next seen a n q r (inr (inr (_, inr (inr (_, _, w))))) =
    (_, w.refines)

MigrateCase-Represented :
    (c : Context) (p cpu : ℕ) (seen : Seen) (a : Abstract) (n q : Info)
    → Refines a n
    → MigrateCase c p cpu seen a n q
    → Represented q
unfolding Represented
MigrateCase-Represented c p cpu seen a n q r (inl (_, e)) = (a, rw e r)
MigrateCase-Represented c p cpu seen a n q r (inr (_, m)) = (_, m.refines)

Written-Represented : (a : Abstract) (q : Info) → Written a q → Represented q
unfolding Represented
Written-Represented a q (inl r) = (a, r)
Written-Represented a q (inr r) = (([], []), r)

Step-Represented : {n q : Info} → Represented n → Step n q → Represented q
unfolding Represented
Step-Represented (a, r) (wakes c p seen) = (a, probe_sched_wakeup-Refines c p seen a _ r)
Step-Represented (a, r) (switches c cpu prev next seen) =
    SwitchCase-Represented c cpu prev next seen a _ _ r
      (probe_sched_switch-SwitchCase c cpu prev next seen a _ r)
Step-Represented (a, r) (migrates c p cpu seen) =
    MigrateCase-Represented c p cpu seen a _ _ r
      (probe_sched_migrate_task-MigrateCase c p cpu seen a _ r)
Step-Represented (a, r) (writes_pid seen input) =
    Written-Represented a _ (trace_pid_store-Written seen input a _ r)
Step-Represented (a, r) (writes_threshold input) = (a, threshold_store-Refines input a _ r)

IsClean-replicate : (n : ℕ) → All IsClean (replicate n zero_trace)
IsClean-replicate zero = tt
IsClean-replicate (suc n) = (refl, IsClean-replicate n)

pub runqlat_info-Refines : Refines ([], []) runqlat_info
runqlat_info-Refines = record {
  holds = record {
    others = runqlat_info.records.trace_entries;
    free = runqlat_info.records.task_entries;
    shape = refl;
    current = (refl, IsClean-replicate 127);
    traces_size = length-replicate max_trace_entries zero_trace;
    tasks_size = length-replicate max_trace_entry_tasks zero_task;
  };
  room = inl refl;
  hist = refl;
}

Reach-Represented : (n : Info) → Reach runqlat_info n → Represented n
unfolding Represented
Reach-Represented n here = (([], []), runqlat_info-Refines)
Reach-Represented n (more h step) = Step-Represented (Reach-Represented _ h) step

-- After any probes and writes, in any order and with whatever the handlers read before they took
-- the lock, the arrays hold a log of traces and the tasks of the open one, one behind the other.
-- While a thread is traced, the indices of the next stores are within the arrays and the warning
-- of record_task is not given.
pub Reach-safe :
    (n : Info)
    → Reach runqlat_info n
    → ((a : Abstract) × Refines a n)
      × ((n.pid ≡ invalid) ⊎ (HasRoom n.records × (warns n.records ≡ false)))
unfolding Represented
Reach-safe n h =
    let (a, r) = Reach-Represented n h in
    (
      (a, r),
      elim r.room [
        | inl e ↦ inl e
        | inr room ↦ inr (room, warns-never a.0 a.1 n.records r.holds room.trace_free)
      ],
    )

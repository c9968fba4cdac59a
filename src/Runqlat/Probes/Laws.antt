-- ===== src/Runqlat/Probes/Laws.antt =====
-- What the probes record of a task that ran, and the probe of a wakeup, on a log of traces and the
-- tasks of the trace that is still open.
use uio_linux_sample.Prelude.{
  Bool, none, ℕ, ◌<◌, ◌≡◌, refl, inl, inr, true, false, not, ◌&&◌, ◌+◌, suc, leb, arith, ◌==◌,
  if◌then◌else◌, Bool-cases,
}
use uio_linux_sample.Prelude.Words.{pos, eqb_ℤ, u32, sub64}
use uio_linux_sample.Runqlat.Data.{
  Info, Context, Seen, invalid, max_trace_entries, max_trace_entry_tasks,
}
use uio_linux_sample.Runqlat.Record.{runqlat_info_reset, record_task, add_task, task_entry}
use uio_linux_sample.Runqlat.Record.Stores.{HasRoom}
use uio_linux_sample.Runqlat.Record.Refines.{Abstract, Refines, added, record_task-Refines}
use uio_linux_sample.Runqlat.Probes.{probe_sched_wakeup, charge}

-- The pending tasks after a time that `p` ran, if the measurement of one was started.
abbrev pub charged : Context → ℕ → Info → Abstract → Abstract
charged c p n a = if n.run_start == 0 then a else added c p (sub64 c.clock n.run_start) a

-- Whether that takes the last entry for a task, which resets what is known of the wait.
abbrev pub resets : Info → Bool
resets n = not (n.run_start == 0) && leb max_trace_entry_tasks (suc n.records.nr_task)

-- From when the wait is measured after such a time.
abbrev pub started_at : Info → ℕ
started_at n = if resets n then 0 else n.rq_start

pub traced-HasRoom :
    (a : Abstract) (n : Info) → Refines a n → eqb_ℤ n.pid invalid ≡ false → HasRoom n.records
traced-HasRoom a n r h = elim r.room [ inl e ↦ cc (rw e at h) | inr room ↦ room ]

pub traced_pos-HasRoom :
    (a : Abstract) (n : Info) (p : ℕ) → Refines a n → eqb_ℤ (pos p) n.pid ≡ true → HasRoom n.records
traced_pos-HasRoom a n p r h = elim r.room [ inl e ↦ cc (rw e at h) | inr room ↦ room ]

record_task-wait :
    (c : Context) (p runtime : ℕ) (n : Info)
    → HasRoom n.records
    → let full = leb max_trace_entry_tasks (suc n.records.nr_task) in
      ((record_task c p runtime n).rq_start ≡ (if full then 0 else n.rq_start))
      × ((record_task c p runtime n).curr ≡ (if full then none else n.curr))
unfolding record_task add_task runqlat_info_reset
record_task-wait c p runtime n room =
    let e : u32 (n.records.nr_task + 1) ≡ suc n.records.nr_task = omega (arith, room.task_free) in
    elim (Bool-cases (leb max_trace_entry_tasks (suc n.records.nr_task))) [
      | inl full ↦ rw (e, full) (refl, refl)
      | inr free ↦ rw (e, free) (refl, refl)
    ]

record_task-threshold :
    (c : Context) (p runtime : ℕ) (n : Info) → (record_task c p runtime n).threshold ≡ n.threshold
unfolding record_task runqlat_info_reset
record_task-threshold c p runtime n =
    let q = add_task (task_entry c p runtime) n.records in
    elim (Bool-cases (leb max_trace_entry_tasks q.nr_task)) [
      | inl full ↦ rw full refl
      | inr free ↦ rw free refl
    ]

-- The result of `charge`.
pub record Charged (c : Context) (p : ℕ) (a : Abstract) (n q : Info) : Type 0 where
  pub refines : Refines (charged c p n a) q
  pub open_trace : q.records.nr_trace < max_trace_entries
  pub start : q.rq_start ≡ started_at n
  pub curr : q.curr ≡ (if resets n then none else n.curr)
  pub threshold : q.threshold ≡ n.threshold

pub charge-Charged :
    (c : Context) (p : ℕ) (a : Abstract) (n : Info)
    → Refines a n
    → HasRoom n.records
    → Charged c p a n (charge c p n)
unfolding charge
charge-Charged c p a n r room =
    let runtime = sub64 c.clock n.run_start in
    let d = record_task-Refines c p runtime a n r room in
    elim (Bool-cases (n.run_start == 0)) [
      | inl e ↦ simp e (record {
        refines = simp e r;
        open_trace = room.trace_free;
        start = simp e refl;
        curr = simp e refl;
        threshold = refl;
      })
      | inr e ↦ simp e (record {
        refines = simp e d.0;
        open_trace = d.1;
        start = simp e (record_task-wait c p runtime n room).0;
        curr = simp e (record_task-wait c p runtime n room).1;
        threshold = record_task-threshold c p runtime n;
      })
    ]

pub probe_sched_wakeup-Refines :
    (c : Context) (p : ℕ) (seen : Seen) (a : Abstract) (n : Info)
    → Refines a n
    → Refines a (probe_sched_wakeup c p seen n)
unfolding probe_sched_wakeup
probe_sched_wakeup-Refines c p seen a n r = elim (Bool-cases (eqb_ℤ (pos (c.pid p)) seen.pid)) [
  | inl e ↦ elim (Bool-cases (eqb_ℤ (pos (c.pid p)) n.pid)) [
    | inl f ↦ rw (e, f) (record { holds = r.holds; room = r.room; hist = r.hist })
    | inr f ↦ rw (e, f) r
  ]
  | inr e ↦ rw e r
]

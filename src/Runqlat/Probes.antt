-- ===== src/Runqlat/Probes.antt =====
-- The probes of the scheduler's tracepoints. What a probe read before it took the lock is `Seen`;
-- under the lock it reads the state itself.
pub mod Laws
pub mod Switched
pub mod Migrated
use uio_linux_sample.Prelude.{
  ℕ, Bool, true, false, not, ◌&&◌, ◌||◌, Option, none, some, ◌==◌, if◌then◌else◌,
}
use uio_linux_sample.Prelude.Words.{ℤ, pos, eqb_ℤ, sub64}
use uio_linux_sample.Runqlat.Data.{Info, Context, Seen, invalid}
use uio_linux_sample.Runqlat.Record.{runqlat_info_reset, record_task, record_task_commit}

unfoldable pub probe_sched_wakeup : Context → ℕ → Seen → Info → Info
probe_sched_wakeup c p seen info =
    if not (eqb_ℤ (pos (c.pid p)) seen.pid)
    then info
    else if not (eqb_ℤ (pos (c.pid p)) info.pid)
    then info
    else record info { rq_start = c.clock; run_start = c.clock; cpu = pos (c.task_cpu p) }

-- if (info->run_start) record_task(info, p, now - info->run_start)
unfoldable pub charge : Context → ℕ → Info → Info
charge c p info =
    if info.run_start == 0 then info else record_task c p (sub64 c.clock info.run_start) info

-- if (!is_idle_task(next)) info->curr = next
abbrev pub set_curr : Context → ℕ → Info → Info
set_curr c next info = record info { curr = if c.is_idle_task next then info.curr else some next }

-- The first branch of probe_sched_switch, under the lock: the traced thread is preempted.
unfoldable pub start_trace : Context → ℕ → ℕ → Info → Info
start_trace c prev next info =
    if not (eqb_ℤ info.cpu invalid) || not (eqb_ℤ info.pid (pos (c.pid prev)))
    then info
    else set_curr c next
        (record info { rq_start = c.clock; run_start = c.clock; cpu = pos (c.task_cpu prev) })

-- The three cases of the second branch, after `curr` is set.
unfoldable pub switched_in : Context → ℕ → Info → Info
switched_in c prev info =
    let q = charge c prev info in (record_task_commit (sub64 c.clock q.rq_start) q).1

unfoldable pub switched_out : Context → ℕ → Info → Info
switched_out c prev info =
    if c.is_running prev
    then record info { rq_start = c.clock; run_start = c.clock }
    else runqlat_info_reset info

unfoldable pub others_switch : Context → ℕ → Info → Info
others_switch c prev info = record (charge c prev info) { run_start = c.clock }

-- The second branch of probe_sched_switch, under the lock.
unfoldable pub follow_trace : Context → ℕ → ℕ → ℕ → Info → Info
follow_trace c cpu prev next info =
    if not (eqb_ℤ info.cpu (pos cpu)) || eqb_ℤ info.pid invalid
    then info
    else let q = set_curr c next info in
      if eqb_ℤ q.pid (pos (c.pid next))
      then switched_in c prev q
      else if eqb_ℤ q.pid (pos (c.pid prev))
      then switched_out c prev q
      else others_switch c prev q

-- `cpu` is the processor on which the switch happens.
unfoldable pub probe_sched_switch : Context → ℕ → ℕ → ℕ → Seen → Info → Info
probe_sched_switch c cpu prev next seen info =
    if eqb_ℤ seen.pid invalid
    then info
    else if not (eqb_ℤ seen.cpu invalid) && not (eqb_ℤ seen.cpu (pos cpu))
    then info
    else if eqb_ℤ seen.cpu_then invalid
    then if not (eqb_ℤ seen.pid_last (pos (c.pid prev))) || not (c.is_running prev)
      then info
      else start_trace c prev next info
    else if not (eqb_ℤ seen.cpu_last (pos cpu)) || eqb_ℤ seen.pid_last invalid
    then info
    else follow_trace c cpu prev next info

abbrev pub charge_curr : Context → Option ℕ → Info → Info
charge_curr c none info = info
charge_curr c (some curr) info = charge c curr info

-- `cpu` is the processor to which the task moves.
unfoldable pub probe_sched_migrate_task : Context → ℕ → ℕ → Seen → Info → Info
probe_sched_migrate_task c p cpu seen info =
    if not (eqb_ℤ (pos (c.pid p)) seen.pid) || eqb_ℤ seen.cpu invalid
    then info
    else if not (eqb_ℤ (pos (c.pid p)) info.pid) || eqb_ℤ info.cpu invalid
    then info
    else record (charge_curr c info.curr info) { cpu = pos cpu; run_start = c.clock }

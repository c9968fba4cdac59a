-- ===== src/Irqoff/Timers.antt =====
-- The two timer handlers, the function that queues the timers on a CPU, and the one that clears
-- what the CPU has recorded.
pub mod Laws
use uio_linux_sample.Prelude.{
  ℕ, zero, suc, ◌+◌, ◌/◌, ◌*◌, ◌^◌, Bool, true, false, not, Option, none, some, List, [], ◌∷◌, leb,
  if◌then◌else◌,
}
use uio_linux_sample.Prelude.Words.{u64, sub64}
use uio_linux_sample.Trace.Counters.{zero_counts}
use uio_linux_sample.Trace.Stacks.{clear}
use uio_linux_sample.Irqoff.Data.{Settings, Metadata, Cpu, Context, max_latency_record}
use uio_linux_sample.Irqoff.Record.{trace_irqoff_record}

-- __this_cpu_write(….last_timestamp, now)
abbrev pub stamp : ℕ → Metadata → Metadata
stamp now m = record m { last_timestamp = now }

abbrev pub stamp_hardirq : ℕ → Cpu → Cpu
stamp_hardirq now p = record p { hardirq_trace = stamp now p.hardirq_trace }

abbrev pub stamp_softirq : ℕ → Cpu → Cpu
stamp_softirq now p = record p { softirq_trace = stamp now p.softirq_trace }

-- The branch for a delay of the soft timer that goes on while the hard timer is on time.
unfoldable pub check_softirq : Settings → Context → Cpu → Cpu
check_softirq g c p =
    let delta_soft = sub64 c.local_clock p.softirq_trace.last_timestamp in
    if not p.softirq_delayed
    then if leb g.trace_irqoff_latency delta_soft
      then (trace_irqoff_record g c delta_soft false true (record p { softirq_delayed = true })).1
      else p
    else p

unfoldable pub trace_irqoff_hrtimer_handler : Settings → Context → Cpu → Cpu
trace_irqoff_hrtimer_handler g c p =
    let now = c.local_clock in
    let delta = sub64 now p.hardirq_trace.last_timestamp in
    let (late, q) = trace_irqoff_record g c delta true true (stamp_hardirq now p) in
    let r = (if late then stamp_softirq now q else check_softirq g c q) in
    record r { hrtimer = some g.sampling_period }

-- jiffies + msecs_to_jiffies(sampling_period / 1000000UL)
abbrev pub next_expiry : Settings → Context → ℕ
next_expiry g c = u64 (c.jiffies + c.msecs_to_jiffies (g.sampling_period / 1000000))

unfoldable pub trace_irqoff_timer_handler : Settings → Context → Cpu → Cpu
trace_irqoff_timer_handler g c p =
    let now = c.local_clock in
    let delta = sub64 now p.softirq_trace.last_timestamp in
    let q = record (stamp_softirq now p) { softirq_delayed = false } in
    let r = (trace_irqoff_record g c delta false false q).1 in
    record r { timer = some (next_expiry g c) }

abbrev pub clear_trace : Metadata → Metadata
clear_trace m = record m {
  stacks = clear m.stacks;
  latency_count = zero_counts max_latency_record m.latency_count;
}

unfoldable pub smp_clear_stack_trace : Cpu → Cpu
smp_clear_stack_trace p = record p {
  hardirq_trace = clear_trace p.hardirq_trace;
  softirq_trace = clear_trace p.softirq_trace;
}

unfoldable pub smp_timers_start : Settings → Context → Cpu → Cpu
smp_timers_start g c p = record (stamp_softirq c.local_clock (stamp_hardirq c.local_clock p)) {
  hrtimer = some g.sampling_period;
  timer = some (next_expiry g c);
}

-- hrtimer_cancel and del_timer_sync of one CPU, in trace_irqoff_cancel_timers
unfoldable pub cancel_timers : Cpu → Cpu
cancel_timers p = record p { hrtimer = none; timer = none }

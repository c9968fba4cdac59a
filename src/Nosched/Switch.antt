-- ===== src/Nosched/Switch.antt =====
-- The probe of the scheduler's tracepoint, and the function that clears a CPU.
pub mod Laws
use uio_linux_sample.Prelude.{
  ℕ, zero, suc, Bool, not, ◌&&◌, Option, none, some, List, [], ◌∷◌, if◌then◌else◌, replicate,
}
use uio_linux_sample.Prelude.Words.{sub64, sub32}
use uio_linux_sample.Trace.Counters.{zero_counts}
use uio_linux_sample.Trace.Stacks.{Slot, Stacks, clear}
use uio_linux_sample.Nosched.Data.{Settings, TraceInfo, Cpu, Context, duration_histogram_entry}
use uio_linux_sample.Nosched.Record.{update_at, hist_update}

abbrev pub set_duration : ℕ → Slot TraceInfo → Slot TraceInfo
set_duration d t = record t { info = record t.info { duration = d } }

abbrev store_slots : Cpu → Option (List (Slot TraceInfo)) → Option Cpu
store_slots p none = none
store_slots p (some slots) =
    some (record p { skip = none; stacks = record p.stacks { slots = slots } })

-- The branch for a task whose trace was recorded: duration[nr_stack_entries - 1] = now - last, with
-- an `unsigned int` index.
unfoldable pub finish_skipped : ℕ → Cpu → Option Cpu
finish_skipped elapsed p =
    store_slots p (update_at (set_duration elapsed) p.stacks.slots (sub32 p.stacks.nr_slots 1))

-- if (unlikely(cpu_stack_trace->skip))
unfoldable pub finish : Option ℕ → ℕ → Cpu → Option Cpu
finish none elapsed p = some p
finish (some task) elapsed p = finish_skipped elapsed p

abbrev pub update_if : Bool → Settings → ℕ → Cpu → Option Cpu
update_if counted g elapsed p = if counted then hist_update g elapsed p else some p

-- `prev` is the task that is switched out; `none` is a store outside the array.
unfoldable pub probe_sched_switch : Settings → Context → ℕ → Cpu → Option Cpu
probe_sched_switch g c prev p =
    if not g.trace_enable
    then some p
    else let elapsed = sub64 c.local_clock p.last_timestamp in
      let q = record p { last_timestamp = c.local_clock } in
      elim (finish p.skip elapsed q) [
        | none ↦ none
        | some r ↦ update_if (not (c.is_idle_task prev) && not c.single_task_running) g elapsed r
      ]

unfoldable pub each_stack_trace_clear : Cpu → Cpu
each_stack_trace_clear p = record p {
  stacks = clear p.stacks;
  hist = zero_counts duration_histogram_entry p.hist;
}

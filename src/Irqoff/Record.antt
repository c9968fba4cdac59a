-- ===== src/Irqoff/Record.antt =====
-- `save_trace` and `trace_irqoff_record`.
pub mod Bucket
pub mod Saved
pub mod Counted
use uio_linux_sample.Prelude.{
  ℕ, ◌+◌, ◌-◌, ◌*◌, ◌/◌, ◌%◌, ◌^◌, Bool, true, false, not, ◌&&◌, Option, none, some, List, ltb, leb,
  if◌then◌else◌, set, get_or,
}
use uio_linux_sample.Prelude.Words.{u64}
use uio_linux_sample.Trace.Shift.{shift_while}
use uio_linux_sample.Trace.Stacks.{append}
use uio_linux_sample.Irqoff.Data.{
  Settings, TraceInfo, Metadata, Cpu, Context, metadata, set_metadata, max_trace_entries,
  max_stack_trace_entries, max_latency_record, task_comm_len,
}

-- The stack that store_stack_trace stores, in the variant for kernels from 5.1 on.
unfoldable pub store_stack_trace : Context → Option ℕ → ℕ → ℕ → List ℕ
store_stack_trace c none max_entries skip = c.stack_trace_save max_entries skip
store_stack_trace c (some regs) max_entries skip = elim c.stack_trace_save_regs [
  | none ↦ c.stack_trace_save max_entries skip
  | some save ↦ save regs max_entries skip
]

abbrev pub is_some {ℓ} : {A : Type ℓ} → Option A → Bool
is_some none = false
is_some (some a) = true

-- comms[i], pids[i] and latency[i] of a new trace.
unfoldable pub trace_info : Context → Option ℕ → Bool → ℕ → TraceInfo
trace_info c regs hardirq latency = record {
  comm = c.strlcpy c.comm task_comm_len;
  pid = c.pid;
  nsecs = latency % 2 ^ 63;
  more = not hardirq && is_some regs;
}

-- `save_trace` on the buffer that its first line chooses.
unfoldable pub save_into : Context → Option ℕ → Bool → ℕ → Metadata → Bool × Metadata
save_into c regs hardirq latency m =
    if leb max_stack_trace_entries m.stacks.nr_slots
    then (false, m)
    else if leb (max_trace_entries - 1) m.stacks.nr_entries
    then (false, m)
    else let stack = store_stack_trace c regs (max_trace_entries - m.stacks.nr_entries) 0 in
      let stacks = append (2 ^ 64) (trace_info c regs hardirq latency) stack m.stacks in
      (not (leb (max_trace_entries - 1) stacks.nr_entries), record m { stacks = stacks })

unfoldable pub save_trace : Context → Option ℕ → Bool → ℕ → Cpu → Bool × Cpu
unfolding save_into
save_trace c regs hardirq latency p =
    let (saved, m) = save_into c regs hardirq latency (metadata hardirq p) in
    (saved, set_metadata hardirq m p)

-- sampling_period << 1
abbrev pub throttle : Settings → ℕ
throttle g = u64 (g.sampling_period * 2)

-- The loop of trace_irqoff_record, from the `delta` that was already halved once.
unfoldable pub latency_index : ℕ → ℕ → ℕ
latency_index limit delta = shift_while 64 (λ x. ltb limit x) (delta / 2) 0

-- index >= MAX_LATENCY_RECORD is the last bucket.
unfoldable pub latency_bucket : ℕ → ℕ → ℕ
latency_bucket limit delta =
    if leb max_latency_record (latency_index limit delta)
    then max_latency_record - 1
    else latency_index limit delta

-- latency_count[index]++
unfoldable pub count_latency : ℕ → Metadata → Metadata
count_latency index m = record m {
  latency_count = set m.latency_count index (u64 (get_or m.latency_count index 0 + 1));
}

-- The three-way test between the two counters.
unfoldable pub count_delay : ℕ → Bool → Bool → Cpu → Cpu
unfolding count_latency
count_delay index true skip p = set_metadata true (count_latency index p.hardirq_trace) p
count_delay index false true p = p
count_delay index false false p = set_metadata false (count_latency index p.softirq_trace) p

unfoldable pub trace_irqoff_record : Settings → Context → ℕ → Bool → Bool → Cpu → Bool × Cpu
trace_irqoff_record g c delta hardirq skip p =
    if ltb delta (throttle g)
    then (false, p)
    else let counted = count_delay (latency_bucket (throttle g) delta) hardirq skip p in
      (
        true,
        (if leb g.trace_irqoff_latency delta
            then (save_trace c (if skip then c.irq_regs else none) hardirq delta counted).1
            else counted),
      )

-- ===== src/Nosched/Record.antt =====
-- What a tick of the timer records.
pub mod Laws
use uio_linux_sample.Prelude.{
  ℕ, ◌+◌, ◌-◌, ◌*◌, ◌/◌, ◌^◌, Bool, true, false, not, ◌&&◌, Option, none, some, List, ltb, leb,
  if◌then◌else◌, zero, suc, [], ◌∷◌,
}
use uio_linux_sample.Prelude.Words.{u64, sub64}
use uio_linux_sample.Trace.Shift.{shift_while}
use uio_linux_sample.Trace.Stacks.{append}
use uio_linux_sample.Nosched.Data.{
  Settings, TraceInfo, Cpu, Context, duration_histogram_entry, max_trace_entries,
  max_stack_trace_entries, task_comm_len,
}

-- xs[i] = f(xs[i]); `none` is a store outside the array.
unfoldable pub update_at {ℓ} : {A : Type ℓ} → (A → A) → List A → ℕ → Option (List A)
update_at f [] i = none
update_at f (x ∷ xs) zero = some (f x ∷ xs)
update_at f (x ∷ xs) (suc i) = elim (update_at f xs i) [ none ↦ none | some ys ↦ some (x ∷ ys) ]

-- The stack that store_stack_trace stores, in the variant for kernels from 5.1 on.
unfoldable pub store_stack_trace : Context → Option ℕ → ℕ → ℕ → List ℕ
store_stack_trace c none max_entries skip = c.stack_trace_save max_entries skip
store_stack_trace c (some regs) max_entries skip = elim c.stack_trace_save_regs [
  | none ↦ c.stack_trace_save max_entries skip
  | some save ↦ save regs max_entries skip
]

abbrev pub trace_info : Context → ℕ → TraceInfo
trace_info c duration = record {
  comm = c.strlcpy c.comm task_comm_len;
  pid = c.pid;
  duration = duration;
}

-- `__stack_trace_record`
unfoldable pub stack_trace_record_into : Context → Option ℕ → ℕ → Cpu → Bool × Cpu
stack_trace_record_into c regs duration p =
    if leb max_stack_trace_entries p.stacks.nr_slots
    then (false, p)
    else if leb max_trace_entries p.stacks.nr_entries
    then (false, p)
    else let stack = store_stack_trace c regs (max_trace_entries - p.stacks.nr_entries) 0 in
      let stacks = append (2 ^ 32) (trace_info c duration) stack p.stacks in
      (not (leb max_trace_entries stacks.nr_entries), record p { stacks = stacks })

unfoldable pub stack_trace_record : Settings → Context → ℕ → Cpu → Bool × Cpu
stack_trace_record g c delta p =
    if leb g.duration_threshold delta
    then stack_trace_record_into c c.irq_regs delta p
    else (false, p)

abbrev pub in_kernel : Context → Option ℕ → Bool
in_kernel c none = false
in_kernel c (some regs) = not (c.user_mode regs)

-- Whether the tick interrupted a thread that keeps others waiting in the kernel.
abbrev pub is_running : Context → Bool
is_running c =
    not (c.is_idle_task c.current) && (in_kernel c c.irq_regs && not c.single_task_running)

-- The body of the handler's test, for a thread that is not skipped yet.
unfoldable pub record_running : Settings → Context → Option ℕ → Cpu → Cpu
record_running g c (some task) p = p
record_running g c none p =
    let (saved, q) = stack_trace_record g c (sub64 c.local_clock p.last_timestamp) p in
    if saved then record q { skip = some c.current } else q

unfoldable pub trace_nosched_hrtimer_handler : Settings → Context → Cpu → Cpu
trace_nosched_hrtimer_handler g c p =
    let q =
      (if is_running c
        then record_running g c p.skip p
        else record p { last_timestamp = c.local_clock }) in
    record q { hrtimer = some g.sampling_period }

-- The loop of hist_update, for a delta that reaches `step`.
unfoldable pub hist_index : ℕ → ℕ → ℕ
hist_index step delta = shift_while 64 (λ x. leb step x) (delta / 2) 0

unfoldable pub hist_bucket : ℕ → ℕ → ℕ
hist_bucket step delta =
    if leb duration_histogram_entry (hist_index step delta)
    then duration_histogram_entry - 1
    else hist_index step delta

abbrev pub step : Settings → ℕ
step g = u64 (g.sampling_period * 2)

-- `none` is a store outside the array.
abbrev store_hist : Cpu → Option (List ℕ) → Option Cpu
store_hist p none = none
store_hist p (some hist) = some (record p { hist = hist })

unfoldable pub hist_update : Settings → ℕ → Cpu → Option Cpu
hist_update g delta p =
    if ltb delta (step g)
    then some p
    else store_hist p (update_at (λ n. u64 (n + 1)) p.hist (hist_bucket (step g) delta))

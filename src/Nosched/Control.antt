-- ===== src/Nosched/Control.antt =====
-- The files under /proc/trace_noschedule: `threshold`, `enable`, `distribution` and `stack_trace`.
-- What a user writes comes as the value that the kernel parsed (`none` where it refused the text).
pub mod Laws
pub mod Steps
use uio_linux_sample.Prelude.{
  ℕ, ◌+◌, ◌/◌, Bool, true, false, not, ◌&&◌, Option, none, some, List, [], ◌∷◌, map, ◌==◌,
  if◌then◌else◌, replicate,
}
use uio_linux_sample.Prelude.Words.{u64, u32, ℤ, pos, negsuc, eqb_ℤ}
use uio_linux_sample.Trace.Counters.{add_counts}
use uio_linux_sample.Trace.Stacks.{contents}
use uio_linux_sample.Trace.Histogram.{Line, histogram_show}
use uio_linux_sample.Nosched.Data.{Settings, TraceInfo, Cpu, Context, duration_histogram_entry}
use uio_linux_sample.Nosched.Record.{step}
use uio_linux_sample.Nosched.Switch.{each_stack_trace_clear}

-- `tps` says of each entry of the table of tracepoints whether its probe is registered.
pub record State : Type 0 where
  pub settings : Settings
  pub tps : List Bool
  pub cpus : List Cpu

pub data Reply : Type 0 where
  done einval eagain : Reply

-- -EEXIST and -ENOENT
abbrev pub eexist : ℤ
eexist = negsuc 16

abbrev pub enoent : ℤ
enoent = negsuc 1

-- ret && ret != allowed
abbrev pub fails : ℤ → ℤ → Bool
fails allowed ret = not (eqb_ℤ ret (pos 0)) && not (eqb_ℤ ret allowed)

-- The loop of trace_nosched_register_tp from entry `i` on, with the kernel's answer to each
-- registration. A failure unregisters the entries before it; `false` is the error.
unfoldable pub trace_nosched_register_tp : (ℕ → ℤ) → ℕ → List Bool → Bool × List Bool
trace_nosched_register_tp answer i [] = (true, [])
trace_nosched_register_tp answer i (b ∷ bs) =
    let (ok, rest) = trace_nosched_register_tp answer (i + 1) bs in
    if fails eexist (answer i) then (false, b ∷ bs) else (ok, ok ∷ rest)

-- The loop of trace_nosched_unregister_tp. A failure leaves the entries from there on.
unfoldable pub trace_nosched_unregister_tp : (ℕ → ℤ) → ℕ → List Bool → Bool × List Bool
trace_nosched_unregister_tp answer i [] = (true, [])
trace_nosched_unregister_tp answer i (b ∷ bs) =
    let (ok, rest) = trace_nosched_unregister_tp answer (i + 1) bs in
    if fails enoent (answer i) then (false, b ∷ bs) else (ok, false ∷ rest)

unfoldable pub each_hrtimer_start : Settings → Context → Cpu → Cpu
each_hrtimer_start g c p = record p {
  last_timestamp = c.local_clock;
  hrtimer = some g.sampling_period;
}

-- on_each_cpu, with the context of each CPU
unfoldable pub trace_nosched_hrtimer_start : Settings → (ℕ → Context) → ℕ → List Cpu → List Cpu
trace_nosched_hrtimer_start g at cpu [] = []
trace_nosched_hrtimer_start g at cpu (p ∷ ps) =
    each_hrtimer_start g (at cpu) p ∷ trace_nosched_hrtimer_start g at (cpu + 1) ps

abbrev pub hrtimer_cancel : Cpu → Cpu
hrtimer_cancel p = record p { hrtimer = none }

unfoldable pub trace_nosched_hrtimer_cancel : List Cpu → List Cpu
trace_nosched_hrtimer_cancel ps = map hrtimer_cancel ps

unfoldable pub threshold_store : Option ℕ → State → Reply × State
threshold_store none s = (einval, s)
threshold_store (some val) s =
    (done, record s { settings = record s.settings { duration_threshold = val } })

unfoldable pub threshold_show : State → ℕ
threshold_show s = s.settings.duration_threshold

unfoldable pub enable_show : State → Bool
enable_show s = s.settings.trace_enable

unfoldable pub enable : (ℕ → ℤ) → (ℕ → Context) → State → Reply × State
enable answer at s =
    let (ok, tps) = trace_nosched_register_tp answer 0 s.tps in
    if ok
    then (
      done,
      record {
        settings = record s.settings { trace_enable = true };
        tps = tps;
        cpus = trace_nosched_hrtimer_start s.settings at 0 s.cpus;
      },
    )
    else (eagain, record s { tps = tps })

unfoldable pub disable : (ℕ → ℤ) → State → Reply × State
disable answer s =
    let (ok, tps) = trace_nosched_unregister_tp answer 0 s.tps in
    let cpus = trace_nosched_hrtimer_cancel s.cpus in
    if ok
    then (
      done,
      record { settings = record s.settings { trace_enable = false }; tps = tps; cpus = cpus },
    )
    else (eagain, record s { tps = tps; cpus = cpus })

-- Writing the value that is set already is accepted and does nothing.
unfoldable pub enable_store : (ℕ → ℤ) → (ℕ → Context) → Option Bool → State → Reply × State
enable_store answer at none s = (einval, s)
enable_store answer at (some true) s =
    if s.settings.trace_enable then (done, s) else enable answer at s
enable_store answer at (some false) s =
    if s.settings.trace_enable then disable answer s else (done, s)

unfoldable pub sum_hist : List ℕ → List Cpu → List ℕ
sum_hist sums [] = sums
sum_hist sums (p ∷ ps) = sum_hist (add_counts sums p.hist) ps

unfoldable pub distribution_show : State → Option (List Line)
distribution_show s =
    histogram_show (sum_hist (replicate duration_histogram_entry 0) s.cpus)
      (u32 (step s.settings / 1000000))

-- One printed trace: the task, the duration in milliseconds and the stack.
pub record Entry : Type 0 where
  pub comm : List ℕ
  pub pid : ℕ
  pub msecs : ℕ
  pub stack : List ℕ

abbrev pub entry : TraceInfo × List ℕ → Entry
entry (t, stack) = record {
  comm = t.comm;
  pid = t.pid;
  msecs = t.duration / 1000000;
  stack = stack;
}

-- The CPUs that have recorded something, with their traces.
unfoldable pub stack_trace_show : ℕ → List Cpu → List (ℕ × List Entry)
stack_trace_show cpu [] = []
stack_trace_show cpu (p ∷ ps) =
    if p.stacks.nr_slots == 0
    then stack_trace_show (cpu + 1) ps
    else (cpu, map entry (contents p.stacks)) ∷ stack_trace_show (cpu + 1) ps

-- Only the number 0 is accepted.
unfoldable pub stack_trace_store : Option ℤ → State → Reply × State
stack_trace_store none s = (einval, s)
stack_trace_store (some clear) s =
    if eqb_ℤ clear (pos 0)
    then (done, record s { cpus = map each_stack_trace_clear s.cpus })
    else (einval, s)

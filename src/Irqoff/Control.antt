-- ===== src/Irqoff/Control.antt =====
-- The four files under /proc/trace_irqoff: `distribute`, `trace_latency`, `enable` and
-- `sampling_period`. What a user writes comes as the number that the kernel parsed (`none` where
-- it refused the text); a reply `done` is the count of bytes, `einval` is -EINVAL.
pub mod Steps
pub mod Thresholds
pub mod Sums
use uio_linux_sample.Prelude.{
  ℕ, zero, suc, ◌+◌, ◌*◌, ◌/◌, ◌^◌, Bool, true, false, Option, none, some, List, [], ◌∷◌, ◌++◌, map,
  ltb, leb, ◌==◌, if◌then◌else◌, replicate,
}
use uio_linux_sample.Prelude.Words.{u64, u32}
use uio_linux_sample.Trace.Stacks.{contents}
use uio_linux_sample.Trace.Counters.{add_counts}
use uio_linux_sample.Trace.Histogram.{Line, histogram_show}
use uio_linux_sample.Irqoff.Data.{
  Settings, TraceInfo, Metadata, Cpu, Context, metadata, max_latency_record,
}
use uio_linux_sample.Irqoff.Record.{throttle}
use uio_linux_sample.Irqoff.Timers.{smp_clear_stack_trace, smp_timers_start, cancel_timers}

-- The globals and the per-CPU structures of the online CPUs, in the order of for_each_online_cpu.
pub record State : Type 0 where
  pub settings : Settings
  pub cpus : List Cpu

pub data Reply : Type 0 where
  done einval : Reply

unfoldable pub gather : Bool → List ℕ → List Cpu → List ℕ
gather hardirq sums [] = sums
gather hardirq sums (p ∷ ps) =
    gather hardirq (add_counts sums (metadata hardirq p).latency_count) ps

-- (sampling_period << 1) / (1000 * 1000UL), as the `unsigned int` parameter
abbrev pub factor : Settings → ℕ
factor g = u32 (throttle g / 1000000)

unfoldable pub distribute_show_one : Bool → State → Option (List Line)
distribute_show_one hardirq s =
    histogram_show (gather hardirq (replicate max_latency_record 0) s.cpus) (factor s.settings)

unfoldable pub distribute_show : State → Option (List Line) × Option (List Line)
unfolding distribute_show_one
distribute_show s = (distribute_show_one true s, distribute_show_one false s)

-- One trace as it is printed: the task, the latency in milliseconds, "+ms" or "ms", the stack.
pub record Entry : Type 0 where
  pub comm : List ℕ
  pub pid : ℕ
  pub msecs : ℕ
  pub more : Bool
  pub stack : List ℕ

abbrev pub entry : TraceInfo × List ℕ → Entry
entry (t, stack) = record {
  comm = t.comm;
  pid = t.pid;
  msecs = t.nsecs / 1000000;
  more = t.more;
  stack = stack;
}

-- The CPUs that have recorded something, with their traces.
unfoldable pub trace_latency_show_one : Bool → ℕ → List Cpu → List (ℕ × List Entry)
trace_latency_show_one hardirq cpu [] = []
trace_latency_show_one hardirq cpu (p ∷ ps) =
    if (metadata hardirq p).stacks.nr_slots == 0
    then trace_latency_show_one hardirq (cpu + 1) ps
    else (cpu, map entry (contents (metadata hardirq p).stacks))
      ∷ trace_latency_show_one hardirq (cpu + 1) ps

pub record LatencyPage : Type 0 where
  pub threshold_ms : ℕ
  pub hardirq : List (ℕ × List Entry)
  pub softirq : List (ℕ × List Entry)

unfoldable pub trace_latency_show : State → LatencyPage
trace_latency_show s = record {
  threshold_ms = s.settings.trace_irqoff_latency / 1000000;
  hardirq = trace_latency_show_one true 0 s.cpus;
  softirq = trace_latency_show_one false 0 s.cpus;
}

unfoldable pub trace_latency_write : Option ℕ → State → Reply × State
trace_latency_write none s = (einval, s)
trace_latency_write (some latency) s =
    if latency == 0
    then (done, record s { cpus = map smp_clear_stack_trace s.cpus })
    else if ltb latency (throttle s.settings / 1000000)
    then (einval, s)
    else (
      done,
      record s { settings = record s.settings { trace_irqoff_latency = u64 (latency * 1000000) } },
    )

-- Each CPU runs smp_timers_start in its own context.
unfoldable pub trace_irqoff_start_timers : Settings → (ℕ → Context) → ℕ → List Cpu → List Cpu
trace_irqoff_start_timers g at cpu [] = []
trace_irqoff_start_timers g at cpu (p ∷ ps) =
    smp_timers_start g (at cpu) p ∷ trace_irqoff_start_timers g at (cpu + 1) ps

unfoldable pub trace_irqoff_cancel_timers : List Cpu → List Cpu
trace_irqoff_cancel_timers ps = map cancel_timers ps

abbrev same_flag : Bool → Bool → Bool
same_flag true b = b
same_flag false true = false
same_flag false false = true

unfoldable pub enable_write : (ℕ → Context) → Option Bool → State → Reply × State
enable_write at none s = (einval, s)
enable_write at (some enable) s = if same_flag enable s.settings.trace_enable then (done, s) else (
  done,
  record {
    settings = record s.settings { trace_enable = enable };
    cpus =
        if enable
        then trace_irqoff_start_timers s.settings at 0 s.cpus
        else trace_irqoff_cancel_timers s.cpus;
  },
)

-- "enabled" or "disabled"
unfoldable pub enable_show : State → Bool
enable_show s = s.settings.trace_enable

unfoldable pub sampling_period_show : State → ℕ
sampling_period_show s = s.settings.sampling_period / 1000000

-- The new settings for a period in nanoseconds.
unfoldable pub set_period : ℕ → Settings → Settings
set_period period g = record g {
  trace_irqoff_latency =
      if ltb (g.trace_irqoff_latency / 2) period then u64 (period * 2) else g.trace_irqoff_latency;
  sampling_period = period;
}

unfoldable pub sampling_period_write : Option ℕ → State → Reply × State
sampling_period_write input s = if s.settings.trace_enable then (einval, s) else elim input [
  | none ↦ (einval, s)
  | some period ↦ (done, record s { settings = set_period (u64 (period * 1000000)) s.settings })
]

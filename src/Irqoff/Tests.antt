-- ===== src/Irqoff/Tests.antt =====
-- Runs of the tracer on small inputs, and its theorems at inputs that meet their hypotheses.
use mathlib.Core.Logic.{◌⊎◌}
use uio_linux_sample.Prelude.{
  ℕ, ◌≤◌, ◌<◌, ◌≡◌, refl, true, false, none, some, List, [], ◌∷◌, ◌++◌, length, arith, take,
  replicate, length-take-le,
}
use uio_linux_sample.Prelude.Words.{u64}
use uio_linux_sample.Trace.Counters.{total}
use uio_linux_sample.Trace.Histogram.Laws.{Shows}
use uio_linux_sample.Trace.Stacks.{append, contents}
use uio_linux_sample.Trace.Shift.{shift_while}
use uio_linux_sample.Irqoff.Data.{
  default_settings, TraceInfo, Metadata, Cpu, Context, IsKernel, max_latency_record,
}
use uio_linux_sample.Irqoff.Record.{
  latency_index, latency_bucket, save_into, save_trace, count_delay, store_stack_trace, trace_info,
  trace_irqoff_record, throttle,
}
use uio_linux_sample.Irqoff.Record.Saved.{
  IsValidTrace, IsValidCpu, Refused, Appended, new_trace, save_into-cases,
}
use uio_linux_sample.Irqoff.Record.Counted.{Outcome, trace_irqoff_record-Outcome}
use uio_linux_sample.Irqoff.Timers.{
  smp_timers_start, trace_irqoff_hrtimer_handler, trace_irqoff_timer_handler,
}
use uio_linux_sample.Irqoff.Timers.Laws.{
  Late, Punctual, SoftTick, delay_hard, trace_irqoff_hrtimer_handler-cases,
  trace_irqoff_timer_handler-SoftTick,
}
use uio_linux_sample.Irqoff.Control.{
  State, enable_write, trace_irqoff_start_timers, set_period, sampling_period_write,
  distribute_show_one,
}
use uio_linux_sample.Irqoff.Control.Steps.{
  Reach, here, next, hrtimer_fires, writes_enable, writes_period,
}
use uio_linux_sample.Irqoff.Control.Steps.Counts.{late_ticks, distribute_show_one-late_ticks}
use uio_linux_sample.Irqoff.Control.Steps.Invariant.{Holds, Inv, Reach-Inv}

abbrev frames : List ℕ
frames = 101 ∷ 102 ∷ 103 ∷ []

-- 60 ms after the timers were last seen.
abbrev context : Context
context = record {
  local_clock = 60000000;
  jiffies = 1000;
  comm = b's' ∷ b'h' ∷ [];
  pid = 7;
  irq_regs = some 4096;
  strlcpy = λ s n. take n s;
  stack_trace_save = λ size skip. take size frames;
  stack_trace_save_regs = none;
  msecs_to_jiffies = λ n. n;
}

context-IsKernel : IsKernel context
context-IsKernel = record {
  save_bound = λ size skip. length-take-le size frames;
  save_regs_bound = tt;
}

abbrev no_info : TraceInfo
no_info = record { comm = []; pid = 0; nsecs = 0; more = false }

abbrev fresh : Metadata
fresh = record {
  last_timestamp = 0;
  stacks = record {
    slots = replicate 8 (record { info = no_info; start = 0; nr_entries = 0 });
    nr_slots = 0;
    entries = replicate 128 0;
    nr_entries = 0;
  };
  latency_count = replicate 10 0;
}

abbrev cpu : Cpu
cpu = record {
  timer = none;
  hrtimer = none;
  hardirq_trace = fresh;
  softirq_trace = fresh;
  softirq_delayed = false;
}

abbrev state : State
state = record { settings = default_settings; cpus = cpu ∷ cpu ∷ [] }

fresh-IsValidTrace : IsValidTrace fresh
fresh-IsValidTrace = omega arith

cpu-IsValidCpu : IsValidCpu cpu
cpu-IsValidCpu = record { hardirq = fresh-IsValidTrace; softirq = fresh-IsValidTrace }

cpu-Holds : Holds false 10000000 cpu
cpu-Holds = record { valid = cpu-IsValidCpu; timers = (refl, refl) }

-- 60 ms against a limit of 20 ms: the second bucket, which is printed as 40 -> 79.
bucket_60 : latency_bucket 20000000 60000000 ≡ 1
unfolding latency_bucket latency_index shift_while
bucket_60 = refl

late_tick :
    contents (trace_irqoff_hrtimer_handler default_settings context cpu).hardirq_trace.stacks
    ≡ (record { comm = b's' ∷ b'h' ∷ []; pid = 7; nsecs = 60000000; more = false }, frames) ∷ []
unfolding trace_irqoff_hrtimer_handler trace_irqoff_record save_trace count_delay store_stack_trace
    trace_info append latency_bucket latency_index shift_while
late_tick = refl

save_into_example :
    Refused fresh (save_into context none true 60000000 fresh)
    ⊎ Appended
        (new_trace context none true 60000000 fresh)
        fresh
        (save_into context none true 60000000 fresh)
save_into_example =
    save_into-cases context none true 60000000 fresh context-IsKernel fresh-IsValidTrace

record_example :
    Outcome default_settings context 60000000 true true cpu
      (trace_irqoff_record default_settings context 60000000 true true cpu)
record_example =
    trace_irqoff_record-Outcome default_settings context 60000000 true true cpu context-IsKernel
      fresh-IsValidTrace

hrtimer_example :
    ((throttle default_settings ≤ delay_hard context cpu)
      × Late default_settings context cpu
          (trace_irqoff_hrtimer_handler default_settings context cpu))
    ⊎ ((delay_hard context cpu < throttle default_settings)
        × Punctual default_settings context cpu
            (trace_irqoff_hrtimer_handler default_settings context cpu))
hrtimer_example =
    trace_irqoff_hrtimer_handler-cases default_settings context cpu context-IsKernel cpu-IsValidCpu

timer_example :
    SoftTick default_settings context cpu (trace_irqoff_timer_handler default_settings context cpu)
timer_example =
    trace_irqoff_timer_handler-SoftTick default_settings context cpu context-IsKernel cpu-IsValidCpu

state-Inv : Inv state
state-Inv = (cpu-Holds, (cpu-Holds, tt))

-- The sampling period is set to 1 ms, and then tracing is switched on.
abbrev faster : State
faster = (sampling_period_write (some 1) state).1

abbrev enabled : State
enabled = (enable_write (λ cpu. context) (some true) faster).1

enabled-Reach : Reach state enabled
enabled-Reach =
    next (next here (writes_period state (some 1)))
      (writes_enable faster (λ cpu. context) (some true))

Reach-Inv_example : Inv enabled
Reach-Inv_example = Reach-Inv state-Inv enabled-Reach

-- 140 ms after tracing was switched on, the hard timer of the first CPU fires.
abbrev later : Context
later = record context { local_clock = 200000000 }

later-IsKernel : IsKernel later
later-IsKernel = record {
  save_bound = λ size skip. length-take-le size frames;
  save_regs_bound = tt;
}

abbrev started : Cpu
started = smp_timers_start faster.settings context cpu

enabled_cpus : enabled.cpus ≡ [] ++ started ∷ started ∷ []
unfolding enable_write trace_irqoff_start_timers sampling_period_write set_period
enabled_cpus = refl

started_hrtimer : started.hrtimer ≡ some 1000000
unfolding smp_timers_start sampling_period_write set_period
started_hrtimer = refl

abbrev ticked_Reach : Reach state (record enabled {
  cpus = [] ++ trace_irqoff_hrtimer_handler enabled.settings later started ∷ started ∷ [];
})
ticked_Reach = next enabled-Reach (
    hrtimer_fires enabled later [] (started ∷ []) started 1000000 later-IsKernel enabled_cpus
      started_hrtimer)

ticked_once : late_ticks true ticked_Reach ≡ 1
unfolding enabled-Reach smp_timers_start sampling_period_write set_period enable_write
ticked_once = refl

distribute_example :
    (hist : List ℕ) × (length hist ≡ max_latency_record)
    × (u64 (total hist) ≡ u64 (late_ticks true ticked_Reach))
    × Shows hist (
        distribute_show_one true (record enabled {
          cpus = [] ++ trace_irqoff_hrtimer_handler enabled.settings later started ∷ started ∷ [];
        }))
distribute_example = distribute_show_one-late_ticks true ticked_Reach state-Inv refl

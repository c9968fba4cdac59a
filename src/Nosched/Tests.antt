-- ===== src/Nosched/Tests.antt =====
-- Runs of the tracer on small inputs, and its theorems at inputs that meet their hypotheses.
use uio_linux_sample.Prelude.{
  ℕ, ◌≡◌, refl, true, false, none, some, List, [], ◌∷◌, ◌++◌, inl, arith, All, length, map, take,
  replicate, length-take-le,
}
use uio_linux_sample.Prelude.Words.{u64, pos}
use uio_linux_sample.Trace.Counters.{total}
use uio_linux_sample.Trace.Histogram.Laws.{Shows}
use uio_linux_sample.Trace.Shift.{shift_while}
use uio_linux_sample.Trace.Stacks.{append, contents}
use uio_linux_sample.Trace.Lookup.{
  is_tracepoint_lookup_success, fill, tracepoint_lookup, for_each_kernel_tracepoint,
}
use uio_linux_sample.Trace.Lookup.Laws.{IsCounted, resolved, for_each_kernel_tracepoint-resolved}
use uio_linux_sample.Nosched.Data.{
  duration_histogram_entry, default_settings, Settings, Cpu, Context, IsKernel,
}
use uio_linux_sample.Nosched.Record.{
  store_stack_trace, stack_trace_record_into, stack_trace_record, record_running,
  trace_nosched_hrtimer_handler, hist_index, hist_bucket, hist_update, update_at,
}
use uio_linux_sample.Nosched.Record.Laws.{
  Inv, IsValidCpu, Ticked, trace_nosched_hrtimer_handler-Ticked,
}
use uio_linux_sample.Nosched.Switch.{finish, probe_sched_switch, each_stack_trace_clear}
use uio_linux_sample.Nosched.Switch.Laws.{
  Switched, probe_sched_switch-Switched, clear-then-switch_faults,
}
use uio_linux_sample.Nosched.Control.{
  State, enable_store, each_hrtimer_start, trace_nosched_hrtimer_start, distribution_show,
  stack_trace_store, enable, trace_nosched_register_tp,
}
use uio_linux_sample.Nosched.Control.Steps.{
  Reach, here, next, switches, writes_enable, clears, IsUnmarked,
}
use uio_linux_sample.Nosched.Control.Steps.Invariant.{IsSound, Ready, Reach-never_faults}
use uio_linux_sample.Nosched.Control.Steps.Counts.{distribution_show-Counted}
use uio_linux_sample.Nosched.Init.{Answers, nosched_info}
use uio_linux_sample.Nosched.Init.Unwinding.{sched_switch}

abbrev frames : List ℕ
frames = 201 ∷ 202 ∷ []

abbrev settings : Settings
settings = record default_settings { trace_enable = true }

-- Task 9 has been in the kernel for 60 ms, and others wait for the CPU.
abbrev context : Context
context = record {
  local_clock = 60000000;
  current = 9;
  comm = b'd' ∷ b'd' ∷ [];
  pid = 9;
  irq_regs = some 4096;
  is_idle_task = λ task. false;
  user_mode = λ regs. false;
  single_task_running = false;
  strlcpy = λ s n. take n s;
  stack_trace_save = λ size skip. take size frames;
  stack_trace_save_regs = none;
}

context-IsKernel : IsKernel context
context-IsKernel = record {
  save_bound = λ size skip. length-take-le size frames;
  save_regs_bound = tt;
}

abbrev cpu : Cpu
cpu = record {
  last_timestamp = 0;
  hrtimer = none;
  skip = none;
  stacks = record {
    slots =
        replicate 16 (record {
          info = record { comm = []; pid = 0; duration = 0 };
          start = 0;
          nr_entries = 0;
        });
    nr_slots = 0;
    entries = replicate 128 0;
    nr_entries = 0;
  };
  hist = replicate 12 0;
}

cpu-IsValidCpu : IsValidCpu cpu
cpu-IsValidCpu = omega arith

cpu-Inv : Inv cpu
cpu-Inv = record { valid = cpu-IsValidCpu; skipped = tt }

-- The CPU after the tick that records task 9.
abbrev recorded_cpu : Cpu
recorded_cpu = trace_nosched_hrtimer_handler settings context cpu

abbrev state : State
state = record { settings = default_settings; tps = false ∷ []; cpus = cpu ∷ cpu ∷ [] }

abbrev on_state : State
on_state = (enable_store (λ i. pos 0) (λ i. context) (some true) state).1

recorded_trace :
    contents recorded_cpu.stacks
    ≡ (record { comm = b'd' ∷ b'd' ∷ []; pid = 9; duration = 60000000 }, frames) ∷ []
unfolding trace_nosched_hrtimer_handler record_running stack_trace_record stack_trace_record_into
    store_stack_trace append
recorded_trace = refl

recorded_skip : recorded_cpu.skip ≡ some 9
unfolding trace_nosched_hrtimer_handler record_running stack_trace_record stack_trace_record_into
    store_stack_trace append
recorded_skip = refl

tick_example : Ticked settings context cpu (trace_nosched_hrtimer_handler settings context cpu)
tick_example = trace_nosched_hrtimer_handler-Ticked settings context cpu context-IsKernel cpu-Inv

-- 90 ms with a step of 20 ms goes to the range from 80 ms on.
hist_index_90 : hist_index 20000000 90000000 ≡ 2
unfolding hist_index shift_while
hist_index_90 = refl

recorded-Inv : Inv recorded_cpu
recorded-Inv =
    (trace_nosched_hrtimer_handler-Ticked settings context cpu context-IsKernel cpu-Inv).inv

switch_example :
    (q : Cpu) × (probe_sched_switch settings context 9 recorded_cpu ≡ some q)
    × Switched settings context 9 recorded_cpu q
switch_example = probe_sched_switch-Switched settings context 9 recorded_cpu refl recorded-Inv

clear_switch_example :
    probe_sched_switch settings context 9 (each_stack_trace_clear recorded_cpu) ≡ none
clear_switch_example =
    clear-then-switch_faults settings context 9 9 recorded_cpu refl recorded-Inv.valid recorded_skip

on_trace_enable : on_state.settings.trace_enable ≡ true
unfolding enable_store enable trace_nosched_register_tp
on_trace_enable = refl

-- Tracing is switched on, and 140 ms later a thread leaves the first CPU.
abbrev later : Context
later = record context { local_clock = 200000000 }

abbrev started : Cpu
started = each_hrtimer_start default_settings context cpu

on_cpus : on_state.cpus ≡ [] ++ started ∷ started ∷ []
unfolding enable_store enable trace_nosched_register_tp trace_nosched_hrtimer_start
on_cpus = refl

on-Reach : Reach state 0 on_state
on-Reach = next here (writes_enable state (λ i. pos 0) (λ i. context) (some true))

abbrev switched_cpu : Cpu
switched_cpu = record started {
  last_timestamp = 200000000;
  hist = 0 ∷ 0 ∷ 1 ∷ 0 ∷ 0 ∷ 0 ∷ 0 ∷ 0 ∷ 0 ∷ 0 ∷ 0 ∷ 0 ∷ [];
}

abbrev switched : State
switched = record on_state { cpus = [] ++ switched_cpu ∷ started ∷ [] }

switched-Reach : Reach state 1 switched
unfolding enable_store enable trace_nosched_register_tp probe_sched_switch finish each_hrtimer_start
    hist_update update_at hist_bucket hist_index shift_while
switched-Reach = next on-Reach (switches on_state later [] (started ∷ []) started 9 on_cpus)

state-IsSound : IsSound state
state-IsSound =
    let ready : Ready 10000000 cpu = record { inv = cpu-Inv; timer = inl refl } in
    record {
      cpus = (ready, (ready, tt));
      off = record { probes = (refl, tt); timers = (refl, (refl, tt)) };
    }

distribution_example :
    (hist : List ℕ) × (length hist ≡ duration_histogram_entry)
    × (u64 (total hist) ≡ u64 1)
    × Shows hist (distribution_show switched)
distribution_example = distribution_show-Counted state-IsSound refl switched-Reach

switched-IsUnmarked : All IsUnmarked switched.cpus
unfolding each_hrtimer_start
switched-IsUnmarked = (refl, (refl, tt))

-- From there a clear: no CPU has a task marked.
never_faults_example :
    (u : State) × (some (stack_trace_store (some (pos 0)) switched).1 ≡ some u) × IsSound u
never_faults_example =
    Reach-never_faults state-IsSound switched-Reach (clears switched switched-IsUnmarked)

abbrev tracepoints : List (List ℕ × ℕ)
tracepoints = (b'x' ∷ [], 4096) ∷ (sched_switch, 8192) ∷ (sched_switch, 12288) ∷ []

lookup_example :
    ((for_each_kernel_tracepoint tracepoints nosched_info).tp_entries
      ≡ map (resolved tracepoints) nosched_info.tp_entries)
    × IsCounted (for_each_kernel_tracepoint tracepoints nosched_info)
lookup_example =
    for_each_kernel_tracepoint-resolved tracepoints nosched_info (record { count = refl })

lookup_run :
    (for_each_kernel_tracepoint tracepoints nosched_info).tp_entries
    ≡ record { name = some sched_switch; tp = some 8192 } ∷ []
unfolding for_each_kernel_tracepoint tracepoint_lookup is_tracepoint_lookup_success fill
lookup_run = refl

abbrev answers : Answers
answers = record {
  kernel_tracepoints = tracepoints;
  alloc_percpu = true;
  proc_mkdir = true;
  create_threshold = true;
  create_enable = true;
  create_distribution = false;
  create_stack_trace = true;
}

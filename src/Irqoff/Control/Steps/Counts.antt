-- ===== src/Irqoff/Control/Steps/Counts.antt =====
-- What `distribute` shows after any steps: the late ticks since the last clear.
use uio_linux_sample.Prelude.{
  ℕ, ◌+◌, ◌/◌, ◌≡◌, refl, ap, ◌∙◌, inl, inr, Bool, true, false, not, ◌&&◌, Option, none, some, List,
  [], ◌∷◌, arith, length, leb, ltb, ◌==◌, le→leb, All, All-middle, All-map, Bool-cases,
  if◌then◌else◌,
}
use uio_linux_sample.Prelude.Words.{u64}
use uio_linux_sample.Trace.Counters.{
  total, sum_over-replace, sum_over-map, sum_over-zero, suc_if, suc_if_cong,
}
use uio_linux_sample.Trace.Histogram.Laws.{Shows}
use uio_linux_sample.Irqoff.Data.{Settings, Cpu, Context, IsKernel, max_latency_record}
use uio_linux_sample.Irqoff.Record.{throttle}
use uio_linux_sample.Irqoff.Record.Saved.{IsValidCpu}
use uio_linux_sample.Irqoff.Timers.{
  trace_irqoff_hrtimer_handler, trace_irqoff_timer_handler, smp_clear_stack_trace, smp_timers_start,
  cancel_timers,
}
use uio_linux_sample.Irqoff.Timers.Laws.{
  delay_hard, delay_soft, smp_clear_stack_trace-IsCleared, trace_irqoff_hrtimer_handler-cases,
  trace_irqoff_timer_handler-SoftTick,
}
use uio_linux_sample.Irqoff.Control.{
  State, trace_latency_write, trace_irqoff_start_timers, trace_irqoff_cancel_timers, enable_write,
  sampling_period_write, distribute_show_one,
}
use uio_linux_sample.Irqoff.Control.Sums.{hist_total, total_cpus, distribute_show_one-Shows}
use uio_linux_sample.Irqoff.Control.Steps.{
  Step, hrtimer_fires, timer_fires, writes_latency, writes_enable, writes_period, Reach, here, next,
}
use uio_linux_sample.Irqoff.Control.Steps.Invariant.{Holds, Inv, Reach-Inv}

-- Whether a tick of the hard timer is late for its own histogram; it never is for the soft one.
abbrev pub late_hard : Bool → Settings → Context → Cpu → Bool
late_hard hardirq g c p = hardirq && leb (throttle g) (delay_hard c p)

abbrev pub late_soft : Bool → Settings → Context → Cpu → Bool
late_soft hardirq g c p = not hardirq && leb (throttle g) (delay_soft c p)

-- The number of late ticks after a step, with `n` before it.
abbrev pub tally : {s t : State} → Bool → Step s t → ℕ → ℕ
tally hardirq (hrtimer_fires s c before after p period k e queued) n =
    suc_if (late_hard hardirq s.settings c p) n
tally hardirq (timer_fires s c before after p expires k e queued) n =
    suc_if (late_soft hardirq s.settings c p) n
tally hardirq (writes_latency s none) n = n
tally hardirq (writes_latency s (some latency)) n = if latency == 0 then 0 else n
tally hardirq (writes_enable s at input) n = n
tally hardirq (writes_period s input) n = n

-- The late ticks since the last clear.
abbrev pub late_ticks : {s t : State} → Bool → Reach s t → ℕ
late_ticks hardirq here = 0
late_ticks hardirq (next r st) = tally hardirq st (late_ticks hardirq r)

hrtimer-total :
    (hardirq : Bool) (g : Settings) (c : Context) (p : Cpu)
    → IsKernel c
    → IsValidCpu p
    → u64 (hist_total hardirq (trace_irqoff_hrtimer_handler g c p))
      ≡ u64 (suc_if (late_hard hardirq g c p) (hist_total hardirq p))
hrtimer-total true g c p k v = elim (trace_irqoff_hrtimer_handler-cases g c p k v) [
  | inl (h, r) ↦ rw (le→leb _ _ h) r.sum
  | inr (h, r) ↦
      let early : leb (throttle g) (delay_hard c p) ≡ false = ground arith in
      rw early (ap (λ xs. u64 (total xs)) r.hard_counts)
]
hrtimer-total false g c p k v = elim (trace_irqoff_hrtimer_handler-cases g c p k v) [
  | inl (h, r) ↦ ap (λ xs. u64 (total xs)) r.soft_counts
  | inr (h, r) ↦ ap (λ xs. u64 (total xs)) r.soft_counts
]

timer-total :
    (hardirq : Bool) (g : Settings) (c : Context) (p : Cpu)
    → IsKernel c
    → IsValidCpu p
    → u64 (hist_total hardirq (trace_irqoff_timer_handler g c p))
      ≡ u64 (suc_if (late_soft hardirq g c p) (hist_total hardirq p))
timer-total true g c p k v =
    ap (λ m. u64 (total m.latency_count)) (trace_irqoff_timer_handler-SoftTick g c p k v).hard
timer-total false g c p k v = (trace_irqoff_timer_handler-SoftTick g c p k v).sum

clear-zero :
    (hardirq enable : Bool) (period : ℕ) (p : Cpu)
    → Holds enable period p
    → hist_total hardirq (smp_clear_stack_trace p) ≡ 0
clear-zero true enable period p h = (smp_clear_stack_trace-IsCleared p h.valid).0.sum
clear-zero false enable period p h = (smp_clear_stack_trace-IsCleared p h.valid).1.sum

start_one-total :
    (hardirq : Bool) (g : Settings) (c : Context) (p : Cpu)
    → hist_total hardirq (smp_timers_start g c p) ≡ hist_total hardirq p
unfolding smp_timers_start
start_one-total true g c p = refl
start_one-total false g c p = refl

start-total :
    (hardirq : Bool) (g : Settings) (at : ℕ → Context) (cpu : ℕ) (ps : List Cpu)
    → total_cpus hardirq (trace_irqoff_start_timers g at cpu ps) ≡ total_cpus hardirq ps
unfolding trace_irqoff_start_timers
start-total hardirq g at cpu [] = refl
start-total hardirq g at cpu (p ∷ ps) =
    omega (arith, start_one-total hardirq g (at cpu) p, start-total hardirq g at (cpu + 1) ps)

cancel_one-total :
    (hardirq : Bool) (p : Cpu) → hist_total hardirq (cancel_timers p) ≡ hist_total hardirq p
unfolding cancel_timers
cancel_one-total true p = refl
cancel_one-total false p = refl

enable-total :
    (hardirq : Bool) (at : ℕ → Context) (input : Option Bool) (s : State) (on : Bool)
    → s.settings.trace_enable ≡ on
    → total_cpus hardirq (enable_write at input s).1.cpus ≡ total_cpus hardirq s.cpus
unfolding enable_write trace_irqoff_cancel_timers
enable-total hardirq at none s on e = refl
enable-total hardirq at (some true) s true e = simp e
enable-total hardirq at (some true) s false e = simp e (start-total hardirq s.settings at 0 s.cpus)
enable-total hardirq at (some false) s true e =
    simp e (sum_over-map (hist_total hardirq) cancel_timers (cancel_one-total hardirq) s.cpus)
enable-total hardirq at (some false) s false e = simp e

period-cpus : (input : Option ℕ) (s : State) → (sampling_period_write input s).1.cpus ≡ s.cpus
unfolding sampling_period_write
period-cpus none s = elim (Bool-cases s.settings.trace_enable) [ inl e ↦ simp e | inr e ↦ simp e ]
period-cpus (some n) s = elim (Bool-cases s.settings.trace_enable) [
  | inl e ↦ simp e
  | inr e ↦ simp e
]

latency-total :
    (hardirq : Bool) (latency : ℕ) (s : State)
    → Inv s
    → total_cpus hardirq (trace_latency_write (some latency) s).1.cpus
      ≡ (if latency == 0 then 0 else total_cpus hardirq s.cpus)
unfolding trace_latency_write
latency-total hardirq latency s h = elim (Bool-cases (latency == 0)) [
  | inl e ↦ rw e (
      sum_over-zero (Holds s.settings.trace_enable s.settings.sampling_period) (hist_total hardirq)
        smp_clear_stack_trace
        (clear-zero hardirq s.settings.trace_enable s.settings.sampling_period) s.cpus h)
  | inr e ↦ elim (Bool-cases (ltb latency (throttle s.settings / 1000000))) [
    | inl f ↦ simp (e, f)
    | inr f ↦ simp (e, f)
  ]
]

tally-cong :
    {s t : State} (hardirq : Bool) (st : Step s t) (m n : ℕ)
    → u64 m ≡ u64 n
    → u64 (tally hardirq st m) ≡ u64 (tally hardirq st n)
tally-cong hardirq (hrtimer_fires s c before after p period k e queued) m n h =
    suc_if_cong (late_hard hardirq s.settings c p) m n h
tally-cong hardirq (timer_fires s c before after p expires k e queued) m n h =
    suc_if_cong (late_soft hardirq s.settings c p) m n h
tally-cong hardirq (writes_latency s none) m n h = h
tally-cong hardirq (writes_latency s (some latency)) m n h = elim (Bool-cases (latency == 0)) [
  | inl e ↦ rw e
  | inr e ↦ rw e h
]
tally-cong hardirq (writes_enable s at input) m n h = h
tally-cong hardirq (writes_period s input) m n h = h

latency_none-cpus : (s : State) → (trace_latency_write none s).1.cpus ≡ s.cpus
unfolding trace_latency_write
latency_none-cpus s = refl

-- A step changes the number of delays in the histograms as it should.
Step-total :
    {s t : State} (hardirq : Bool) (st : Step s t)
    → Inv s
    → u64 (total_cpus hardirq t.cpus) ≡ u64 (tally hardirq st (total_cpus hardirq s.cpus))
Step-total hardirq (hrtimer_fires s c before after p period k e queued) h =
    let valid = (All-middle _ before p after (rw e at h)).valid in
    rw e (
      sum_over-replace (hist_total hardirq) (late_hard hardirq s.settings c p) before after p
        (trace_irqoff_hrtimer_handler s.settings c p)
        (hrtimer-total hardirq s.settings c p k valid))
Step-total hardirq (timer_fires s c before after p expires k e queued) h =
    let valid = (All-middle _ before p after (rw e at h)).valid in
    rw e (
      sum_over-replace (hist_total hardirq) (late_soft hardirq s.settings c p) before after p
        (trace_irqoff_timer_handler s.settings c p) (timer-total hardirq s.settings c p k valid))
Step-total hardirq (writes_latency s none) h =
    ap (λ ps. u64 (total_cpus hardirq ps)) (latency_none-cpus s)
Step-total hardirq (writes_latency s (some latency)) h = ap u64 (latency-total hardirq latency s h)
Step-total hardirq (writes_enable s at input) h =
    ap u64 (enable-total hardirq at input s s.settings.trace_enable refl)
Step-total hardirq (writes_period s input) h =
    ap (λ ps. u64 (total_cpus hardirq ps)) (period-cpus input s)

Reach-total :
    {s t : State} (hardirq : Bool) (r : Reach s t)
    → Inv s
    → total_cpus hardirq s.cpus ≡ 0
    → u64 (total_cpus hardirq t.cpus) ≡ u64 (late_ticks hardirq r)
Reach-total hardirq here h z = ap u64 z
Reach-total hardirq (next r st) h z =
    Step-total hardirq st (Reach-Inv h r)
    ∙ tally-cong hardirq st _ (late_ticks hardirq r) (Reach-total hardirq r h z)

All-valid :
    (enable : Bool) (period : ℕ) (ps : List Cpu) → All (Holds enable period) ps → All IsValidCpu ps
All-valid enable period = All-map (Holds enable period) IsValidCpu (λ p h. h.valid)

-- From a state with valid buffers, timers that match the switch and empty histograms of the kind
-- that is shown, whatever ticks and writes follow, the histogram that `distribute` prints has the ten
-- counters, which sum up (modulo 2^64) to the number of ticks of that kind's timer since the last
-- clear that came with a delay of at least twice the sampling period; and what is printed of it
-- shows every counter but zeros at the end.
pub distribute_show_one-late_ticks :
    {s t : State} (hardirq : Bool) (r : Reach s t)
    → Inv s
    → total_cpus hardirq s.cpus ≡ 0
    → (hist : List ℕ) × (length hist ≡ max_latency_record)
      × (u64 (total hist) ≡ u64 (late_ticks hardirq r))
      × Shows hist (distribute_show_one hardirq t)
distribute_show_one-late_ticks {t = t} hardirq r h z =
    let valid =
      All-valid t.settings.trace_enable t.settings.sampling_period t.cpus (Reach-Inv h r) in
    let (hist, size, sum, shows) = distribute_show_one-Shows hardirq t valid in
    (hist, size, sum ∙ Reach-total hardirq r h z, shows)

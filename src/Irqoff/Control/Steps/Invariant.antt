-- ===== src/Irqoff/Control/Steps/Invariant.antt =====
-- What holds in every state that the module can reach.
use uio_linux_sample.Prelude.{
  ℕ, ◌+◌, ◌*◌, ◌/◌, ◌%◌, ◌^◌, ◌≡◌, ◌≢◌, refl, ◌∙◌, inl, inr, Bool, true, false, Option, none, some,
  List, [], ◌∷◌, map, ltb, ◌==◌, Bool-cases, All, All-middle, All-replace,
}
use uio_linux_sample.Irqoff.Data.{Settings, Cpu, Context, IsKernel}
use uio_linux_sample.Irqoff.Record.{throttle}
use uio_linux_sample.Irqoff.Record.Saved.{IsValidCpu}
use uio_linux_sample.Irqoff.Timers.{
  trace_irqoff_hrtimer_handler, trace_irqoff_timer_handler, smp_clear_stack_trace, smp_timers_start,
  cancel_timers, next_expiry,
}
use uio_linux_sample.Irqoff.Timers.Laws.{
  smp_clear_stack_trace-IsCleared, smp_timers_start-IsValidCpu, trace_irqoff_hrtimer_handler-cases,
  trace_irqoff_timer_handler-SoftTick,
}
use uio_linux_sample.Irqoff.Control.{
  State, trace_latency_write, trace_irqoff_start_timers, trace_irqoff_cancel_timers, enable_write,
  set_period, sampling_period_write,
}
use uio_linux_sample.Irqoff.Control.Steps.{
  Step, hrtimer_fires, timer_fires, writes_latency, writes_enable, writes_period, Reach, here, next,
}

-- Both timers are queued, the hard one with the given period; or neither is.
abbrev pub TimersMatch : Bool → ℕ → Cpu → Type 0
TimersMatch true period p = (p.hrtimer ≡ some period) × (p.timer ≢ none)
TimersMatch false period p = (p.hrtimer ≡ none) × (p.timer ≡ none)

pub record Holds (enable : Bool) (period : ℕ) (p : Cpu) : Type 0 where
  pub valid : IsValidCpu p
  pub timers : TimersMatch enable period p

abbrev pub Inv : State → Type 0
Inv s = All (Holds s.settings.trace_enable s.settings.sampling_period) s.cpus

-- A queued hard timer that is forwarded by the period that is set.
forwarded :
    (enable : Bool) (period k : ℕ) (p q : Cpu)
    → p.hrtimer ≡ some k
    → q.hrtimer ≡ some period
    → q.timer ≡ p.timer
    → TimersMatch enable period p
    → TimersMatch enable period q
forwarded true period k p q e a b t = (a, rw b t.1)
forwarded false period k p q e a b t = cc (t.0, e)

-- A queued soft timer that is queued again.
requeued :
    (enable : Bool) (period k expires : ℕ) (p q : Cpu)
    → p.timer ≡ some k
    → q.timer ≡ some expires
    → q.hrtimer ≡ p.hrtimer
    → TimersMatch enable period p
    → TimersMatch enable period q
requeued true period k expires p q e a b t = (b ∙ t.0, rw a (λ x. cc x))
requeued false period k expires p q e a b t = cc (t.1, e)

module _ (g : Settings) (c : Context) (k : ℕ) (p : Cpu) (kernel : IsKernel c)
    (h : Holds g.trace_enable g.sampling_period p) where
  hrtimer-Holds :
      p.hrtimer ≡ some k
      → Holds g.trace_enable g.sampling_period (trace_irqoff_hrtimer_handler g c p)
  hrtimer-Holds e =
      let q = trace_irqoff_hrtimer_handler g c p in
      elim (trace_irqoff_hrtimer_handler-cases g c p kernel h.valid) [
        | inl (_, r) ↦ record {
          valid = r.valid;
          timers = forwarded g.trace_enable g.sampling_period k p q e r.rearmed r.timer h.timers;
        }
        | inr (_, r) ↦ record {
          valid = r.valid;
          timers = forwarded g.trace_enable g.sampling_period k p q e r.rearmed r.timer h.timers;
        }
      ]

  timer-Holds :
      p.timer ≡ some k → Holds g.trace_enable g.sampling_period (trace_irqoff_timer_handler g c p)
  timer-Holds e =
      let r = trace_irqoff_timer_handler-SoftTick g c p kernel h.valid in
      record {
        valid = r.valid;
        timers =
            requeued g.trace_enable g.sampling_period k (next_expiry g c) p
              (trace_irqoff_timer_handler g c p) e r.rearmed r.hrtimer h.timers;
      }

same-timers :
    (enable : Bool) (period : ℕ) (p q : Cpu)
    → q.hrtimer ≡ p.hrtimer
    → q.timer ≡ p.timer
    → TimersMatch enable period p
    → TimersMatch enable period q
same-timers true period p q a b t = (a ∙ t.0, rw b t.1)
same-timers false period p q a b t = (a ∙ t.0, b ∙ t.1)

clear-Holds :
    (enable : Bool) (period : ℕ) (p : Cpu)
    → Holds enable period p
    → Holds enable period (smp_clear_stack_trace p)
clear-Holds enable period p h =
    let (hard, soft, _, _, _, a, b) = smp_clear_stack_trace-IsCleared p h.valid in
    record {
      valid = record { hardirq = hard.valid; softirq = soft.valid };
      timers = same-timers enable period p (smp_clear_stack_trace p) a b h.timers;
    }

All-clear :
    (enable : Bool) (period : ℕ) (ps : List Cpu)
    → All (Holds enable period) ps
    → All (Holds enable period) (map smp_clear_stack_trace ps)
All-clear enable period [] h = tt
All-clear enable period (p ∷ ps) h =
    (clear-Holds enable period p h.0, All-clear enable period ps h.1)

start-Holds :
    (b : Bool) (g : Settings) (at : ℕ → Context) (cpu : ℕ) (ps : List Cpu)
    → All (Holds b g.sampling_period) ps
    → All (Holds true g.sampling_period) (trace_irqoff_start_timers g at cpu ps)
unfolding trace_irqoff_start_timers smp_timers_start
start-Holds b g at cpu [] h = tt
start-Holds b g at cpu (p ∷ ps) h = (
  record { valid = smp_timers_start-IsValidCpu g (at cpu) p h.0.valid; timers = (refl, λ x. cc x) },
  start-Holds b g at (cpu + 1) ps h.1,
)

pub cancel-Holds :
    (b : Bool) (period : ℕ) (ps : List Cpu)
    → All (Holds b period) ps
    → All (Holds false period) (trace_irqoff_cancel_timers ps)
unfolding trace_irqoff_cancel_timers cancel_timers
cancel-Holds b period [] h = tt
cancel-Holds b period (p ∷ ps) h = (
  record {
    valid = record { hardirq = h.0.valid.hardirq; softirq = h.0.valid.softirq };
    timers = (refl, refl);
  },
  cancel-Holds b period ps h.1,
)

-- A CPU whose timers are off matches any period.
any_period :
    (period period' : ℕ) (ps : List Cpu)
    → All (Holds false period) ps
    → All (Holds false period') ps
any_period period period' [] h = tt
any_period period period' (p ∷ ps) h =
    (record { valid = h.0.valid; timers = h.0.timers }, any_period period period' ps h.1)

latency-Inv : (s : State) (input : Option ℕ) → Inv s → Inv (trace_latency_write input s).1
unfolding trace_latency_write
latency-Inv s none h = h
latency-Inv s (some n) h = elim (Bool-cases (n == 0)) [
  | inl e ↦ rw e (All-clear s.settings.trace_enable s.settings.sampling_period s.cpus h)
  | inr e ↦ elim (Bool-cases (ltb n (throttle s.settings / 1000000))) [
    | inl f ↦ rw (e, f) h
    | inr f ↦ rw (e, f) h
  ]
]

enable-Inv :
    (s : State) (at : ℕ → Context) (input : Option Bool) (b : Bool)
    → s.settings.trace_enable ≡ b
    → Inv s
    → Inv (enable_write at input s).1
unfolding enable_write
enable-Inv s at none b e h = h
enable-Inv s at (some true) true e h = simp e (simp e at h)
enable-Inv s at (some true) false e h =
    simp e (start-Holds s.settings.trace_enable s.settings at 0 s.cpus h)
enable-Inv s at (some false) true e h =
    simp e (cancel-Holds s.settings.trace_enable s.settings.sampling_period s.cpus h)
enable-Inv s at (some false) false e h = simp e (simp e at h)

period-Inv :
    (s : State) (input : Option ℕ) (b : Bool)
    → s.settings.trace_enable ≡ b
    → Inv s
    → Inv (sampling_period_write input s).1
unfolding sampling_period_write set_period
period-Inv s input true e h = simp e (simp e at h)
period-Inv s none false e h = simp e (simp e at h)
period-Inv s (some n) false e h =
    simp e (any_period s.settings.sampling_period ((n * 1000000) % 2 ^ 64) s.cpus (simp e at h))

-- Every step keeps the buffers of all CPUs valid, and their timers queued, with the current
-- sampling period, exactly while tracing is enabled.
Step-Inv : {s t : State} → Step s t → Inv s → Inv t
Step-Inv (hrtimer_fires s c before after p k kernel e q) h =
    let all = rw e at h in
    All-replace (Holds s.settings.trace_enable s.settings.sampling_period) before after p _ all
      (hrtimer-Holds s.settings c k p kernel (All-middle _ before p after all) q)
Step-Inv (timer_fires s c before after p k kernel e q) h =
    let all = rw e at h in
    All-replace (Holds s.settings.trace_enable s.settings.sampling_period) before after p _ all
      (timer-Holds s.settings c k p kernel (All-middle _ before p after all) q)
Step-Inv (writes_latency s input) h = latency-Inv s input h
Step-Inv (writes_enable s at input) h = enable-Inv s at input s.settings.trace_enable refl h
Step-Inv (writes_period s input) h = period-Inv s input s.settings.trace_enable refl h

-- From a state in which every CPU has valid buffers and its timers match the switch, no sequence
-- of ticks and writes, of whatever numbers, leads to a CPU with a broken buffer, a timer that is
-- queued while tracing is off, a timer that is not queued while it is on, or a hard timer that
-- runs at another period than the one that is set.
pub Reach-Inv : {s t : State} → Inv s → Reach s t → Inv t
Reach-Inv h here = h
Reach-Inv h (next r st) = Step-Inv st (Reach-Inv h r)

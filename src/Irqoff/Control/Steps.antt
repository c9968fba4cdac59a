-- ===== src/Irqoff/Control/Steps.antt =====
-- The module as a transition system: ticks of the timers on any CPU, between writes to its files.
pub mod Invariant
pub mod Counts
use uio_linux_sample.Prelude.{ℕ, ◌≡◌, Bool, Option, some, List, ◌∷◌, ◌++◌}
use uio_linux_sample.Irqoff.Data.{Cpu, Context, IsKernel}
use uio_linux_sample.Irqoff.Timers.{trace_irqoff_hrtimer_handler, trace_irqoff_timer_handler}
use uio_linux_sample.Irqoff.Control.{
  State, trace_latency_write, enable_write, sampling_period_write,
}

-- A handler runs only where its timer is queued. A write may be of any number.
pub data Step : State → State → Type 0 where
  hrtimer_fires :
      (s : State) (c : Context) (before after : List Cpu) (p : Cpu) (period : ℕ)
      → IsKernel c
      → s.cpus ≡ before ++ p ∷ after
      → p.hrtimer ≡ some period
      → Step s (record s { cpus = before ++ trace_irqoff_hrtimer_handler s.settings c p ∷ after })
  timer_fires :
      (s : State) (c : Context) (before after : List Cpu) (p : Cpu) (expires : ℕ)
      → IsKernel c
      → s.cpus ≡ before ++ p ∷ after
      → p.timer ≡ some expires
      → Step s (record s { cpus = before ++ trace_irqoff_timer_handler s.settings c p ∷ after })
  writes_latency : (s : State) (input : Option ℕ) → Step s (trace_latency_write input s).1
  writes_enable :
      (s : State) (at : ℕ → Context) (input : Option Bool) → Step s (enable_write at input s).1
  writes_period : (s : State) (input : Option ℕ) → Step s (sampling_period_write input s).1

pub data Reach (s : State) : State → Type 0 where
  here : Reach s s
  next : {t u : State} → Reach s t → Step t u → Reach s u

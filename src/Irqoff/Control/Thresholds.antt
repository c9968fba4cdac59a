-- ===== src/Irqoff/Control/Thresholds.antt =====
-- The two settings that can be written, and the rule between them: the latency threshold is at
-- least twice the sampling period, since no shorter delay can be told apart.
use uio_linux_sample.Prelude.{
  ℕ, ◌+◌, ◌*◌, ◌/◌, ◌%◌, ◌^◌, ◌≤◌, ◌<◌, ◌≡◌, inl, inr, Option, none, some, arith, Bool-cases,
}
use uio_linux_sample.Irqoff.Data.{Settings, default_settings}
use uio_linux_sample.Irqoff.Control.{
  State, done, trace_latency_write, set_period, sampling_period_write,
}

-- Whole milliseconds, twice the period does not wrap and is no more than the threshold.
pub record IsAdjusted (g : Settings) : Type 0 where
  pub whole : g.sampling_period % 1000000 ≡ 0
  pub small : g.sampling_period * 2 < 2 ^ 64
  pub resolved : g.sampling_period * 2 ≤ g.trace_irqoff_latency

-- The most milliseconds of which twice the nanoseconds fit into 64 bits.
abbrev pub max_msecs : ℕ
max_msecs = 2 ^ 64 / 2000000

abbrev pub Bounded : Option ℕ → Type 0
Bounded none = Unit
Bounded (some n) = n < max_msecs

set_period-IsAdjusted :
    (n : ℕ) (g : Settings) → n < max_msecs → IsAdjusted (set_period ((n * 1000000) % 2 ^ 64) g)
unfolding set_period
set_period-IsAdjusted n g h = ground arith

latency_write-IsAdjusted :
    (s : State) (input : Option ℕ)
    → Bounded input
    → IsAdjusted s.settings
    → IsAdjusted (trace_latency_write input s).1.settings
unfolding trace_latency_write
latency_write-IsAdjusted s none b h = h
latency_write-IsAdjusted s (some n) b h = ground arith

period_write-IsAdjusted :
    (s : State) (input : Option ℕ)
    → Bounded input
    → IsAdjusted s.settings
    → IsAdjusted (sampling_period_write input s).1.settings
unfolding sampling_period_write
period_write-IsAdjusted s none b h = ground arith
period_write-IsAdjusted s (some n) b h = elim (Bool-cases s.settings.trace_enable) [
  | inl e ↦ simp e h
  | inr e ↦ simp e (set_period-IsAdjusted n s.settings b)
]

-- As long as no number is written that twice the nanoseconds of would not fit into 64 bits, both
-- writes keep the sampling period a whole number of milliseconds and the latency threshold at
-- least twice as long: the one refuses a threshold that is too low, the other raises it.
pub writes-IsAdjusted :
    (s : State) (input : Option ℕ)
    → Bounded input
    → IsAdjusted s.settings
    → IsAdjusted (trace_latency_write input s).1.settings
      × IsAdjusted (sampling_period_write input s).1.settings
writes-IsAdjusted s input b h =
    (latency_write-IsAdjusted s input b h, period_write-IsAdjusted s input b h)

-- Without the bound the product wraps behind the test: with the default sampling period of 10 ms
-- twenty numbers of milliseconds from 18446744073710 on are accepted, and the threshold that is
-- then in force is less than twice the period.
pub trace_latency_write_wraps :
    (s : State) (k : ℕ)
    → s.settings.sampling_period ≡ default_settings.sampling_period
    → k < 20
    → let (r, t) = trace_latency_write (some (18446744073710 + k)) s in
      (r ≡ done) × (¬ IsAdjusted t.settings)
unfolding trace_latency_write
trace_latency_write_wraps s k e h = ground arith

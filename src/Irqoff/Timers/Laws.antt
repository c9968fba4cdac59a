-- ===== src/Irqoff/Timers/Laws.antt =====
-- What the handlers do to the buffers and the histograms.
use uio_linux_sample.Prelude.{
  ℕ, suc, ◌++◌, ◌∷◌, ◌≤◌, ◌<◌, ◌≡◌, refl, ap, ◌||◌, ◌⊎◌, inl, inr, true, false, some, [], arith,
  leb, leb→le, le→leb, Bool-cases,
}
use uio_linux_sample.Prelude.Words.{u64, sub64}
use uio_linux_sample.Trace.Stacks.{contents}
use uio_linux_sample.Trace.Stacks.Laws.{clear-IsValid, contents-clear}
use uio_linux_sample.Irqoff.Data.{Settings, Metadata, Cpu, Context, IsKernel, max_latency_record}
use uio_linux_sample.Irqoff.Record.{throttle, trace_irqoff_record}
use uio_linux_sample.Irqoff.Record.Saved.{IsValidTrace, IsValidCpu, new_trace}
use uio_linux_sample.Trace.Counters.{suc_if, length-zero_counts, total-zero_counts, total}
use uio_linux_sample.Irqoff.Record.Counted.{trace_irqoff_record-Outcome}
use uio_linux_sample.Irqoff.Timers.{
  stamp, stamp_hardirq, stamp_softirq, check_softirq, trace_irqoff_hrtimer_handler,
  trace_irqoff_timer_handler, smp_timers_start, next_expiry, clear_trace, smp_clear_stack_trace,
}

-- A buffer with nothing in it.
pub record IsCleared (m : Metadata) : Type 0 where
  pub valid : IsValidTrace m
  pub log : contents m.stacks ≡ []
  pub sum : total m.latency_count ≡ 0

clear_trace-IsCleared : (m : Metadata) → IsValidTrace m → IsCleared (clear_trace m)
clear_trace-IsCleared m v = record {
  valid = record {
    buffers = clear-IsValid m.stacks v.buffers;
    counters = omega (arith, v.counters, length-zero_counts max_latency_record m.latency_count);
  };
  log = contents-clear m.stacks;
  sum = total-zero_counts max_latency_record m.latency_count (omega (arith, v.counters));
}

-- Clearing a valid CPU empties both logs and both histograms, and leaves the timers, the
-- timestamps and the mark of a delayed soft interrupt.
pub smp_clear_stack_trace-IsCleared :
    (p : Cpu)
    → IsValidCpu p
    → let q = smp_clear_stack_trace p in
      IsCleared q.hardirq_trace
      × IsCleared q.softirq_trace
      × (q.hardirq_trace.last_timestamp ≡ p.hardirq_trace.last_timestamp)
      × (q.softirq_trace.last_timestamp ≡ p.softirq_trace.last_timestamp)
      × (q.softirq_delayed ≡ p.softirq_delayed)
      × (q.hrtimer ≡ p.hrtimer)
      × (q.timer ≡ p.timer)
unfolding smp_clear_stack_trace
smp_clear_stack_trace-IsCleared p v = (
  clear_trace-IsCleared p.hardirq_trace v.hardirq,
  clear_trace-IsCleared p.softirq_trace v.softirq,
  refl,
  refl,
  refl,
  refl,
  refl,
)

-- What a late or a punctual tick of the hard timer does.
abbrev pub delay_hard : Context → Cpu → ℕ
delay_hard c p = sub64 c.local_clock p.hardirq_trace.last_timestamp

abbrev pub delay_soft : Context → Cpu → ℕ
delay_soft c p = sub64 c.local_clock p.softirq_trace.last_timestamp

stamp-IsValidTrace : (now : ℕ) (m : Metadata) → IsValidTrace m → IsValidTrace (stamp now m)
stamp-IsValidTrace now m v = record { buffers = v.buffers; counters = v.counters }

-- A late tick of the hard timer.
pub record Late (g : Settings) (c : Context) (p q : Cpu) : Type 0 where
  pub valid : IsValidCpu q
  pub sum :
      u64 (total q.hardirq_trace.latency_count) ≡ u64 (suc (total p.hardirq_trace.latency_count))
  pub soft_counts : q.softirq_trace.latency_count ≡ p.softirq_trace.latency_count
  pub soft_log : q.softirq_trace.stacks ≡ p.softirq_trace.stacks
  pub hard_time : q.hardirq_trace.last_timestamp ≡ c.local_clock
  pub soft_time : q.softirq_trace.last_timestamp ≡ c.local_clock
  pub delayed : q.softirq_delayed ≡ p.softirq_delayed
  pub rearmed : q.hrtimer ≡ some g.sampling_period
  pub timer : q.timer ≡ p.timer

-- The log of the soft buffer after the check of the soft timer.
abbrev pub SoftLog : Settings → Context → Cpu → Cpu → Type 0
SoftLog g c p q =
    (contents q.softirq_trace.stacks ≡ contents p.softirq_trace.stacks)
    ⊎ ((p.softirq_delayed ≡ false)
        × (g.trace_irqoff_latency ≤ delay_soft c p)
        × (contents q.softirq_trace.stacks
            ≡ contents p.softirq_trace.stacks
              ++ new_trace c c.irq_regs false (delay_soft c p) p.softirq_trace ∷ []))

-- A punctual one.
pub record Punctual (g : Settings) (c : Context) (p q : Cpu) : Type 0 where
  pub valid : IsValidCpu q
  pub hard_counts : q.hardirq_trace.latency_count ≡ p.hardirq_trace.latency_count
  pub hard_log : q.hardirq_trace.stacks ≡ p.hardirq_trace.stacks
  pub soft_counts : q.softirq_trace.latency_count ≡ p.softirq_trace.latency_count
  pub soft_log : SoftLog g c p q
  pub hard_time : q.hardirq_trace.last_timestamp ≡ c.local_clock
  pub soft_time : q.softirq_trace.last_timestamp ≡ p.softirq_trace.last_timestamp
  pub rearmed : q.hrtimer ≡ some g.sampling_period
  pub timer : q.timer ≡ p.timer
  pub delayed : q.softirq_delayed ≡ p.softirq_delayed || leb g.trace_irqoff_latency (delay_soft c p)

record Checks (g : Settings) (c : Context) (p q : Cpu) : Type 0 where
  valid : IsValidTrace q.softirq_trace
  hard : q.hardirq_trace ≡ p.hardirq_trace
  counts : q.softirq_trace.latency_count ≡ p.softirq_trace.latency_count
  log : SoftLog g c p q
  time : q.softirq_trace.last_timestamp ≡ p.softirq_trace.last_timestamp
  timer : q.timer ≡ p.timer
  delayed : q.softirq_delayed ≡ p.softirq_delayed || leb g.trace_irqoff_latency (delay_soft c p)

-- The call that saves the stack of a delayed soft interrupt.
marked-Checks :
    (g : Settings) (c : Context) (p : Cpu)
    → IsKernel c
    → IsValidTrace p.softirq_trace
    → p.softirq_delayed ≡ false
    → leb g.trace_irqoff_latency (delay_soft c p) ≡ true
    → Checks g c p
        (trace_irqoff_record g c
          (delay_soft c p)
          false
          true
          (record p { softirq_delayed = true })).1
marked-Checks g c p k v e f =
    elim (trace_irqoff_record-Outcome g c (delay_soft c p) false true
      (record p { softirq_delayed = true }) k v) [
        | inl (_, r) ↦ rw r (record {
          valid = v;
          hard = refl;
          counts = refl;
          time = refl;
          timer = refl;
          delayed = rw (e, f);
          log = inl refl;
        })
        | inr (_, _, rest, r) ↦ record {
          valid = r.valid;
          hard = rest.other;
          counts = elim r.uncounted [ inl w ↦ cc w | inr w ↦ w ];
          time = r.same_time;
          timer = rest.timer;
          delayed = rw (e, f) rest.delayed;
          log = elim r.log [ inl w ↦ inl w | inr (_, w) ↦ inr (e, leb→le _ _ f, w) ];
        }
      ]

check_softirq-Checks :
    (g : Settings) (c : Context) (p : Cpu)
    → IsKernel c
    → IsValidTrace p.softirq_trace
    → Checks g c p (check_softirq g c p)
unfolding check_softirq
check_softirq-Checks g c p k v = elim (Bool-cases p.softirq_delayed) [
  | inl e ↦ simp e (record {
    valid = v;
    hard = refl;
    counts = refl;
    time = refl;
    timer = refl;
    delayed = rw e;
    log = inl refl;
  })
  | inr e ↦ elim (Bool-cases (leb g.trace_irqoff_latency (delay_soft c p))) [
    | inl f ↦ simp (e, f) (marked-Checks g c p k v e f)
    | inr f ↦
        simp (e, f)
          (record {
            valid = v;
            hard = refl;
            counts = refl;
            time = refl;
            timer = refl;
            delayed = rw (e, f);
            log = inl refl;
          })
  ]
]

-- On a CPU with valid buffers, a tick of the hard timer with a delay of at least twice the sampling
-- period adds one to the sum of the hard histogram (modulo 2^64), leaves the soft histogram and log
-- alone and restarts both measurements. Any other tick leaves both histograms and the hard log as
-- they were and restarts the hard measurement alone; if the soft timer is then late by the
-- threshold, the CPU is marked as delayed, and the soft log is as it was or, only if there was no
-- mark before and the threshold is reached, has one more trace, with that delay. Either way the
-- timer is armed again, the soft timer stays as it was and the buffers stay valid.
pub trace_irqoff_hrtimer_handler-cases :
    (g : Settings) (c : Context) (p : Cpu)
    → IsKernel c
    → IsValidCpu p
    → ((throttle g ≤ delay_hard c p) × Late g c p (trace_irqoff_hrtimer_handler g c p))
      ⊎ ((delay_hard c p < throttle g) × Punctual g c p (trace_irqoff_hrtimer_handler g c p))
unfolding trace_irqoff_hrtimer_handler
trace_irqoff_hrtimer_handler-cases g c p k v =
    elim (trace_irqoff_record-Outcome g c (delay_hard c p) true true (stamp_hardirq c.local_clock p)
      k (stamp-IsValidTrace c.local_clock p.hardirq_trace v.hardirq)) [
        | inl (lt, r) ↦
            let q = stamp_hardirq c.local_clock p in
            let s = check_softirq-Checks g c q k v.softirq in
            rw r (
              inr (
                lt,
                record {
                  valid = record {
                    hardirq =
                        rw s.hard (stamp-IsValidTrace c.local_clock p.hardirq_trace v.hardirq);
                    softirq = s.valid;
                  };
                  hard_counts = ap (λ m. m.latency_count) s.hard;
                  hard_log = ap (λ m. m.stacks) s.hard;
                  soft_counts = s.counts;
                  soft_log = s.log;
                  hard_time = ap (λ m. m.last_timestamp) s.hard;
                  soft_time = s.time;
                  rearmed = refl;
                  timer = s.timer;
                  delayed = s.delayed;
                },
              ))
        | inr (ge, late, rest, r) ↦ rw late (
            inl (
              ge,
              record {
                valid = record {
                  hardirq = r.valid;
                  softirq =
                      rw rest.other (stamp-IsValidTrace c.local_clock p.softirq_trace v.softirq);
                };
                sum = r.sum;
                soft_counts = ap (λ m. m.latency_count) rest.other;
                soft_log = ap (λ m. m.stacks) rest.other;
                hard_time = r.same_time;
                soft_time = refl;
                delayed = rest.delayed;
                rearmed = refl;
                timer = rest.timer;
              },
            ))
      ]

-- A tick of the soft timer.
pub record SoftTick (g : Settings) (c : Context) (p q : Cpu) : Type 0 where
  pub valid : IsValidCpu q
  pub hard : q.hardirq_trace ≡ p.hardirq_trace
  pub sum :
      u64 (total q.softirq_trace.latency_count)
      ≡ u64 (suc_if (leb (throttle g) (delay_soft c p)) (total p.softirq_trace.latency_count))
  pub time : q.softirq_trace.last_timestamp ≡ c.local_clock
  pub delayed : q.softirq_delayed ≡ false
  pub rearmed : q.timer ≡ some (next_expiry g c)
  pub hrtimer : q.hrtimer ≡ p.hrtimer

-- A tick of the soft timer adds one to the sum of the soft histogram (modulo 2^64)
-- exactly if its delay is at least twice
-- the sampling period, restarts the soft measurement, takes back the mark of a delayed soft
-- interrupt, arms the timer again and leaves the hard buffer and the hard timer alone.
pub trace_irqoff_timer_handler-SoftTick :
    (g : Settings) (c : Context) (p : Cpu)
    → IsKernel c
    → IsValidCpu p
    → SoftTick g c p (trace_irqoff_timer_handler g c p)
unfolding trace_irqoff_timer_handler
trace_irqoff_timer_handler-SoftTick g c p k v =
    elim (trace_irqoff_record-Outcome g c (delay_soft c p) false false
      (record (stamp_softirq c.local_clock p) { softirq_delayed = false }) k
      (stamp-IsValidTrace c.local_clock p.softirq_trace v.softirq)) [
        | inl (lt, r) ↦ rw r (record {
          valid = record {
            hardirq = v.hardirq;
            softirq = stamp-IsValidTrace c.local_clock p.softirq_trace v.softirq;
          };
          hard = refl;
          sum = ground arith;
          time = refl;
          delayed = refl;
          rearmed = refl;
          hrtimer = refl;
        })
        | inr (ge, _, rest, r) ↦ record {
          valid = record { hardirq = rw rest.other v.hardirq; softirq = r.valid };
          hard = rest.other;
          sum = rw (le→leb _ _ ge) r.sum;
          time = r.same_time;
          delayed = rest.delayed;
          rearmed = refl;
          hrtimer = rest.hrtimer;
        }
      ]

pub smp_timers_start-IsValidCpu :
    (g : Settings) (c : Context) (p : Cpu) → IsValidCpu p → IsValidCpu (smp_timers_start g c p)
unfolding smp_timers_start
smp_timers_start-IsValidCpu g c p v = record {
  hardirq = stamp-IsValidTrace c.local_clock p.hardirq_trace v.hardirq;
  softirq = stamp-IsValidTrace c.local_clock p.softirq_trace v.softirq;
}

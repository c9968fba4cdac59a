-- ===== src/Irqoff/Record/Counted.antt =====
-- `save_trace` and `trace_irqoff_record` on the state of a whole CPU.
use uio_linux_sample.Prelude.{
  ℕ, suc, ◌+◌, ◌≤◌, ◌<◌, ◌≡◌, refl, ap, ◌⊎◌, inl, inr, Bool, true, false, not, Option, none, List,
  [], ◌∷◌, ◌++◌, arith, leb, ltb, get_or, length-set, Bool-cases, if◌then◌else◌, ◌∙◌, ap₂, ltb→lt,
}
use uio_linux_sample.Prelude.Words.{u64}
use uio_linux_sample.Trace.Counters.{total, total-set}
use uio_linux_sample.Trace.Stacks.{contents}
use uio_linux_sample.Irqoff.Data.{
  Settings, TraceInfo, Metadata, Cpu, Context, IsKernel, metadata, max_latency_record,
}
use uio_linux_sample.Irqoff.Record.{
  save_into, save_trace, throttle, latency_bucket, count_latency, count_delay, trace_irqoff_record,
}
use uio_linux_sample.Irqoff.Record.Bucket.{latency_bucket-lt}
use uio_linux_sample.Irqoff.Record.Saved.{IsValidTrace, new_trace, save_into-cases}

-- The parts of a buffer that a reader sees or a later call tests.
pub record Extends (t : TraceInfo × List ℕ) (m n : Metadata) : Type 0 where
  pub valid : IsValidTrace n
  pub log :
      (contents n.stacks ≡ contents m.stacks) ⊎ (contents n.stacks ≡ contents m.stacks ++ t ∷ [])
  pub same_counts : n.latency_count ≡ m.latency_count
  pub same_time : n.last_timestamp ≡ m.last_timestamp

save_into-Extends :
    (c : Context) (regs : Option ℕ) (hardirq : Bool) (latency : ℕ) (m : Metadata)
    → IsKernel c
    → IsValidTrace m
    → Extends (new_trace c regs hardirq latency m) m (save_into c regs hardirq latency m).1
save_into-Extends c regs hardirq latency m k v =
    elim (save_into-cases c regs hardirq latency m k v) [
      | inl r ↦
          rw r.same (record { valid = v; log = inl refl; same_counts = refl; same_time = refl })
      | inr a ↦ record {
        valid = a.valid;
        log = inr a.log;
        same_counts = a.same_counts;
        same_time = a.same_time;
      }
    ]

-- All of the CPU but the buffer that `hardirq` chooses.
pub record SameRest (hardirq : Bool) (p q : Cpu) : Type 0 where
  pub other : metadata (not hardirq) q ≡ metadata (not hardirq) p
  pub timer : q.timer ≡ p.timer
  pub hrtimer : q.hrtimer ≡ p.hrtimer
  pub delayed : q.softirq_delayed ≡ p.softirq_delayed

save_trace-Extends :
    (c : Context) (regs : Option ℕ) (hardirq : Bool) (latency : ℕ) (p : Cpu)
    → IsKernel c
    → IsValidTrace (metadata hardirq p)
    → SameRest hardirq p (save_trace c regs hardirq latency p).1
      × Extends
          (new_trace c regs hardirq latency (metadata hardirq p))
          (metadata hardirq p)
          (metadata hardirq (save_trace c regs hardirq latency p).1)
unfolding save_trace
save_trace-Extends c regs true latency p k v = (
  record { other = refl; timer = refl; hrtimer = refl; delayed = refl },
  save_into-Extends c regs true latency p.hardirq_trace k v,
)
save_trace-Extends c regs false latency p k v = (
  record { other = refl; timer = refl; hrtimer = refl; delayed = refl },
  save_into-Extends c regs false latency p.softirq_trace k v,
)

-- Which calls count: `trace_irqoff_record(delta, false, true)` only saves the stack.
abbrev pub counts : Bool → Bool → Bool
counts true skip = true
counts false skip = not skip

-- One more delay in the histogram of `m`, and the rest of the buffer as it was.
pub record Counts (b : Bool) (m n : Metadata) : Type 0 where
  pub valid : IsValidTrace n
  pub same_stacks : n.stacks ≡ m.stacks
  pub same_time : n.last_timestamp ≡ m.last_timestamp
  pub sum :
      u64 (total n.latency_count)
      ≡ u64 (if b then suc (total m.latency_count) else total m.latency_count)
  pub uncounted : (b ≡ true) ⊎ (n.latency_count ≡ m.latency_count)

count_latency-Counts :
    (index : ℕ) (m : Metadata)
    → index < max_latency_record
    → IsValidTrace m
    → Counts true m (count_latency index m)
unfolding count_latency
count_latency-Counts index m h v = record {
  valid = record {
    buffers = v.buffers;
    counters = omega (
      arith,
      v.counters,
      length-set m.latency_count index (u64 (get_or m.latency_count index 0 + 1)),
    );
  };
  same_stacks = refl;
  same_time = refl;
  sum = total-set m.latency_count index (omega (arith, v.counters));
  uncounted = inl refl;
}

same-Counts : (m : Metadata) → IsValidTrace m → Counts false m m
same-Counts m v = record {
  valid = v;
  same_stacks = refl;
  same_time = refl;
  sum = refl;
  uncounted = inr refl;
}

count_delay-Counts :
    (index : ℕ) (hardirq skip : Bool) (p : Cpu)
    → index < max_latency_record
    → IsValidTrace (metadata hardirq p)
    → SameRest hardirq p (count_delay index hardirq skip p)
      × Counts
          (counts hardirq skip)
          (metadata hardirq p)
          (metadata hardirq (count_delay index hardirq skip p))
unfolding count_delay
count_delay-Counts index true skip p h v = (
  record { other = refl; timer = refl; hrtimer = refl; delayed = refl },
  count_latency-Counts index p.hardirq_trace h v,
)
count_delay-Counts index false true p h v = (
  record { other = refl; timer = refl; hrtimer = refl; delayed = refl },
  same-Counts p.softirq_trace v,
)
count_delay-Counts index false false p h v = (
  record { other = refl; timer = refl; hrtimer = refl; delayed = refl },
  count_latency-Counts index p.softirq_trace h v,
)

-- What a recorded delay does to the buffer that it belongs to.
pub record Recorded (long : Bool) (b : Bool) (t : TraceInfo × List ℕ) (m n : Metadata)
    : Type 0 where
  pub valid : IsValidTrace n
  pub same_time : n.last_timestamp ≡ m.last_timestamp
  pub sum :
      u64 (total n.latency_count)
      ≡ u64 (if b then suc (total m.latency_count) else total m.latency_count)
  pub uncounted : (b ≡ true) ⊎ (n.latency_count ≡ m.latency_count)
  pub log :
      (contents n.stacks ≡ contents m.stacks)
      ⊎ ((long ≡ true) × (contents n.stacks ≡ contents m.stacks ++ t ∷ []))

Counts-Recorded :
    (b : Bool) (t : TraceInfo × List ℕ) (m n : Metadata) → Counts b m n → Recorded false b t m n
Counts-Recorded b t m n r = record {
  valid = r.valid;
  same_time = r.same_time;
  sum = r.sum;
  uncounted = r.uncounted;
  log = inl (ap contents r.same_stacks);
}

Counts-Extends :
    (b : Bool) (t t' : TraceInfo × List ℕ) (m n o : Metadata)
    → t' ≡ t
    → Counts b m n
    → Extends t' n o
    → Recorded true b t m o
Counts-Extends b t t' m n o eq r x = record {
  valid = x.valid;
  same_time = cc (x.same_time, r.same_time);
  sum = rw (x.same_counts) r.sum;
  uncounted = elim r.uncounted [ inl e ↦ inl e | inr e ↦ inr (x.same_counts ∙ e) ];
  log = elim x.log [
    | inl e ↦ inl (e ∙ ap contents r.same_stacks)
    | inr e ↦ inr (refl, e ∙ ap₂ (λ xs u. xs ++ u ∷ []) (ap contents r.same_stacks) eq)
  ];
}

SameRest-trans :
    (hardirq : Bool) (p q r : Cpu)
    → SameRest hardirq p q
    → SameRest hardirq q r
    → SameRest hardirq p r
SameRest-trans hardirq p q r f g = record {
  other = g.other ∙ f.other;
  timer = g.timer ∙ f.timer;
  hrtimer = g.hrtimer ∙ f.hrtimer;
  delayed = g.delayed ∙ f.delayed;
}

-- The outcome of a call.
abbrev pub Outcome : Settings → Context → ℕ → Bool → Bool → Cpu → Bool × Cpu → Type 0
Outcome g c delta hardirq skip p r =
    ((delta < throttle g) × (r ≡ (false, p)))
    ⊎ ((throttle g ≤ delta)
        × (r.0 ≡ true)
        × SameRest hardirq p r.1
        × Recorded (leb g.trace_irqoff_latency delta) (counts hardirq skip)
            (new_trace c (if skip then c.irq_regs else none) hardirq delta (metadata hardirq p))
            (metadata hardirq p) (metadata hardirq r.1))

new_trace-same :
    (c : Context) (regs : Option ℕ) (hardirq : Bool) (latency : ℕ) (m n : Metadata)
    → n.stacks ≡ m.stacks
    → new_trace c regs hardirq latency n ≡ new_trace c regs hardirq latency m
new_trace-same c regs hardirq latency m n e = rw e

-- With valid buffers, a delay below twice the sampling period changes nothing and gives false.
-- Any other gives true; it adds one, modulo 2^64, to the sum of
-- the histogram that it belongs to (none, if the call only
-- saves a soft interrupt's stack), appends at most one trace, and that only if it reaches the
-- latency threshold, and leaves the other buffer, the timers and the timestamps as they were.
pub trace_irqoff_record-Outcome :
    (g : Settings) (c : Context) (delta : ℕ) (hardirq skip : Bool) (p : Cpu)
    → IsKernel c
    → IsValidTrace (metadata hardirq p)
    → Outcome g c delta hardirq skip p (trace_irqoff_record g c delta hardirq skip p)
unfolding trace_irqoff_record
trace_irqoff_record-Outcome g c delta hardirq skip p k v =
    elim (Bool-cases (ltb delta (throttle g))) [
      | inl e ↦ rw e (inl (ltb→lt _ _ e, refl))
      | inr e ↦
          let regs = (if skip then c.irq_regs else none) in
          let q = count_delay (latency_bucket (throttle g) delta) hardirq skip p in
          let (rest, counted) =
            count_delay-Counts (latency_bucket (throttle g) delta) hardirq skip p
              (latency_bucket-lt (throttle g) delta) v in
          elim (Bool-cases (leb g.trace_irqoff_latency delta)) [
            | inl f ↦
                let (rest', saved) = save_trace-Extends c regs hardirq delta q k counted.valid in
                rw (e, f)
                  (inr (
                    ground arith,
                    refl,
                    SameRest-trans hardirq p q _ rest rest',
                    Counts-Extends (counts hardirq skip) _ _ (metadata hardirq p)
                        (metadata hardirq q) _
                        (new_trace-same c regs hardirq delta (metadata hardirq p)
                          (metadata hardirq q) counted.same_stacks)
                        counted saved,
                  ))
            | inr f ↦
                rw (e, f)
                  (inr (
                    ground arith,
                    refl,
                    rest,
                    Counts-Recorded (counts hardirq skip) _ (metadata hardirq p)
                        (metadata hardirq q) counted,
                  ))
          ]
    ]

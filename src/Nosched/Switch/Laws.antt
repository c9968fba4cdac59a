-- ===== src/Nosched/Switch/Laws.antt =====
-- What the probe does to a CPU, and where it stores.
use uio_linux_sample.Prelude.{
  ℕ, zero, suc, ◌+◌, ◌≤◌, ◌<◌, ◌≡◌, refl, ap, sym, subst, ◌∙◌, inl, inr, Bool, true, false, not,
  ◌&&◌, Option, none, some, List, [], ◌∷◌, map, arith, ltb, length, get_or, take, All, length-set,
  set, Bool-cases,
}
use uio_linux_sample.Prelude.Words.{u64, sub64, sub32}
use uio_linux_sample.Trace.Counters.{total, suc_if, total-set}
use uio_linux_sample.Trace.Stacks.{Slot, trace_of, contents, clear}
use uio_linux_sample.Trace.Stacks.Laws.{Within}
use uio_linux_sample.Nosched.Data.{Settings, TraceInfo, Cpu, Context}
use uio_linux_sample.Nosched.Record.{update_at, hist_bucket, step, hist_update}
use uio_linux_sample.Nosched.Record.Laws.{IsValidCpu, SkipSound, Inv, hist_bucket-lt}
use uio_linux_sample.Nosched.Switch.{
  set_duration, finish_skipped, finish, update_if, probe_sched_switch, each_stack_trace_clear,
}

-- The log with another duration in its last trace.
abbrev pub set_last : ℕ → List (TraceInfo × List ℕ) → List (TraceInfo × List ℕ)
set_last d [] = []
set_last d ((t, stack) ∷ []) = (record t { duration = d }, stack) ∷ []
set_last d (a ∷ b ∷ rest) = a ∷ set_last d (b ∷ rest)

-- The store into the last of the first `suc n` slots.
record Updated (d bound n : ℕ) (entries : List ℕ) (xs ys : List (Slot TraceInfo)) : Type 0 where
  done : update_at (set_duration d) xs n ≡ some ys
  size : length ys ≡ length xs
  log :
      map (trace_of entries) (take (suc n) ys)
      ≡ set_last d (map (trace_of entries) (take (suc n) xs))
  windows : All (Within bound) (take (suc n) ys)

update_at-Updated :
    (d bound n : ℕ) (entries : List ℕ) (xs : List (Slot TraceInfo))
    → n < length xs
    → All (Within bound) (take (suc n) xs)
    → (ys : List (Slot TraceInfo)) × Updated d bound n entries xs ys
unfolding update_at
update_at-Updated d bound n entries [] h w = absurd (omega arith)
update_at-Updated d bound zero entries (x ∷ xs) h w =
    (set_duration d x ∷ xs, record { done = refl; size = refl; log = refl; windows = (w.0, tt) })
update_at-Updated d bound (suc n) entries (x ∷ []) h w = absurd (omega arith)
update_at-Updated d bound (suc n) entries (x ∷ y ∷ xs) h w =
    let (ys, u) = update_at-Updated d bound n entries (y ∷ xs) (omega arith) w.1 in
    (
      x ∷ ys,
      record {
        done = rw u.done;
        size = ap suc u.size;
        log = ap (◌∷◌ (trace_of entries x)) u.log;
        windows = (w.0, u.windows);
      },
    )

-- Behind the last slot nothing can be stored.
update_at-outside :
    (d n : ℕ) (xs : List (Slot TraceInfo)) → length xs ≤ n → update_at (set_duration d) xs n ≡ none
unfolding update_at
update_at-outside d n [] h = refl
update_at-outside d zero (x ∷ xs) h = absurd (omega arith)
update_at-outside d (suc n) (x ∷ xs) h = rw (update_at-outside d n xs (omega arith))

abbrev pub finished : Option ℕ → ℕ → List (TraceInfo × List ℕ) → List (TraceInfo × List ℕ)
finished none d log = log
finished (some task) d log = set_last d log

record Finished (elapsed : ℕ) (skip : Option ℕ) (p q : Cpu) : Type 0 where
  valid : IsValidCpu q
  skip_off : q.skip ≡ none
  log : contents q.stacks ≡ finished skip elapsed (contents p.stacks)
  same : (q.hist ≡ p.hist) × (q.last_timestamp ≡ p.last_timestamp) × (q.hrtimer ≡ p.hrtimer)

finish_skipped-some :
    (elapsed n : ℕ) (p : Cpu) (ys : List (Slot TraceInfo))
    → sub32 p.stacks.nr_slots 1 ≡ n
    → update_at (set_duration elapsed) p.stacks.slots n ≡ some ys
    → finish_skipped elapsed p
      ≡ some (record p { skip = none; stacks = record p.stacks { slots = ys } })
unfolding finish_skipped
finish_skipped-some elapsed n p ys i e = simp (i, e)

finish_skipped-none :
    (elapsed : ℕ) (p : Cpu)
    → length p.stacks.slots ≤ sub32 p.stacks.nr_slots 1
    → finish_skipped elapsed p ≡ none
unfolding finish_skipped
finish_skipped-none elapsed p h =
    simp (update_at-outside elapsed (sub32 p.stacks.nr_slots 1) p.stacks.slots h)

module _ (elapsed task n : ℕ) (p : Cpu) (v : IsValidCpu p) (e : p.stacks.nr_slots ≡ suc n)
    (ys : List (Slot TraceInfo))
    (u : Updated elapsed p.stacks.nr_entries n p.stacks.entries p.stacks.slots ys) where
  finished_cpu : Cpu
  finished_cpu = record p { skip = none; stacks = record p.stacks { slots = ys } }

  finished_cpu-Finished : Finished elapsed (some task) p finished_cpu
  unfolding finished_cpu
  finished_cpu-Finished = record {
    valid = record {
      buffers = record {
        slots_size = u.size ∙ v.buffers.slots_size;
        entries_size = v.buffers.entries_size;
        slots_fit = v.buffers.slots_fit;
        entries_fit = v.buffers.entries_fit;
        windows = subst (λ k. All (Within p.stacks.nr_entries) (take k ys)) (sym e) u.windows;
      };
      counters = v.counters;
    };
    skip_off = refl;
    log =
        subst
          (λ k.
            map (trace_of p.stacks.entries) (take k ys)
            ≡ set_last elapsed (map (trace_of p.stacks.entries) (take k p.stacks.slots)))
          (sym e) u.log;
    same = (refl, refl, refl);
  }

finish_skipped-Finished :
    (elapsed task n : ℕ) (p : Cpu)
    → IsValidCpu p
    → p.stacks.nr_slots ≡ suc n
    → (q : Cpu) × (finish_skipped elapsed p ≡ some q) × Finished elapsed (some task) p q
unfolding finished_cpu
finish_skipped-Finished elapsed task n p v e =
    let b = v.buffers in
    let (ys, u) =
      update_at-Updated elapsed p.stacks.nr_entries n p.stacks.entries p.stacks.slots (omega arith)
        (subst (λ k. All (Within p.stacks.nr_entries) (take k p.stacks.slots)) e b.windows) in
    (
      finished_cpu elapsed task n p v e ys u,
      finish_skipped-some elapsed n p ys (omega arith) u.done,
      finished_cpu-Finished elapsed task n p v e ys u,
    )

pred-of-pos : (n : ℕ) → 0 < n → (m : ℕ) × (n ≡ suc m)
pred-of-pos zero h = absurd (omega arith)
pred-of-pos (suc m) h = (m, refl)

finish-Finished :
    (elapsed : ℕ) (skip : Option ℕ) (p : Cpu)
    → IsValidCpu p
    → p.skip ≡ skip
    → SkipSound skip p.stacks.nr_slots
    → (q : Cpu) × (finish skip elapsed p ≡ some q) × Finished elapsed skip p q
unfolding finish
finish-Finished elapsed none p v e s =
    (p, refl, record { valid = v; skip_off = e; log = refl; same = (refl, refl, refl) })
finish-Finished elapsed (some task) p v e s =
    let (n, h) = pred-of-pos p.stacks.nr_slots s in finish_skipped-Finished elapsed task n p v h

-- What the probe does while tracing is enabled. `counted` says whether the task that is switched
-- out is not idle and not alone, so that its time is put into the histogram.
abbrev pub counted : Settings → Context → ℕ → Cpu → Bool
counted g c prev p =
    (not (c.is_idle_task prev) && not c.single_task_running)
    && not (ltb (sub64 c.local_clock p.last_timestamp) (step g))

pub record Switched (g : Settings) (c : Context) (prev : ℕ) (p q : Cpu) : Type 0 where
  pub inv : Inv q
  pub skip : q.skip ≡ none
  pub time : q.last_timestamp ≡ c.local_clock
  pub hrtimer : q.hrtimer ≡ p.hrtimer
  pub log :
      contents q.stacks ≡ finished p.skip (sub64 c.local_clock p.last_timestamp) (contents p.stacks)
  pub sum : u64 (total q.hist) ≡ u64 (suc_if (counted g c prev p) (total p.hist))

record Updates (b : Bool) (p q : Cpu) : Type 0 where
  valid : IsValidCpu q
  skip : q.skip ≡ p.skip
  time : q.last_timestamp ≡ p.last_timestamp
  hrtimer : q.hrtimer ≡ p.hrtimer
  stacks : q.stacks ≡ p.stacks
  sum : u64 (total q.hist) ≡ u64 (suc_if b (total p.hist))

same-Updates : (p : Cpu) → IsValidCpu p → Updates false p p
same-Updates p v = record {
  valid = v;
  skip = refl;
  time = refl;
  hrtimer = refl;
  stacks = refl;
  sum = refl;
}

-- A store within an array of counters.
update_at-set :
    (f : ℕ → ℕ) (xs : List ℕ) (i : ℕ)
    → i < length xs
    → update_at f xs i ≡ some (set xs i (f (get_or xs i 0)))
unfolding update_at
update_at-set f [] i h = absurd (omega arith)
update_at-set f (x ∷ xs) zero h = refl
update_at-set f (x ∷ xs) (suc i) h = rw (update_at-set f xs i (omega arith))

hist_update-Updates :
    (g : Settings) (elapsed : ℕ) (p : Cpu)
    → IsValidCpu p
    → (q : Cpu) × (hist_update g elapsed p ≡ some q) × Updates (not (ltb elapsed (step g))) p q
unfolding hist_update
hist_update-Updates g elapsed p v =
    let i = hist_bucket (step g) elapsed in
    let within : i < length p.hist = omega (arith, v.counters, hist_bucket-lt (step g) elapsed) in
    elim (Bool-cases (ltb elapsed (step g))) [
      | inl e ↦ rw e (p, refl, same-Updates p v)
      | inr e ↦
          rw (e, update_at-set (λ n. u64 (n + 1)) p.hist i within)
            (
              record p { hist = set p.hist i (u64 (get_or p.hist i 0 + 1)) },
              refl,
              record {
                valid = record {
                  buffers = v.buffers;
                  counters = length-set p.hist i (u64 (get_or p.hist i 0 + 1)) ∙ v.counters;
                };
                skip = refl;
                time = refl;
                hrtimer = refl;
                stacks = refl;
                sum = total-set p.hist i within;
              },
            )
    ]

update_if-Updates :
    (b : Bool) (g : Settings) (elapsed : ℕ) (p : Cpu)
    → IsValidCpu p
    → (q : Cpu) × (update_if b g elapsed p ≡ some q) × Updates (b && not (ltb elapsed (step g))) p q
update_if-Updates true g elapsed p v = hist_update-Updates g elapsed p v
update_if-Updates false g elapsed p v = (p, refl, same-Updates p v)

-- While tracing is enabled and the invariant holds, the probe does not store outside its arrays.
-- It restarts the measurement, takes the mark of a recorded task away, puts the task's whole time
-- into the last trace if there was a mark, leaving the rest of the log and the timer alone, and
-- counts the time in the histogram exactly if the task that is switched out is not idle and not
-- alone on the CPU and the time reaches twice the sampling period. It keeps the invariant.
pub probe_sched_switch-Switched :
    (g : Settings) (c : Context) (prev : ℕ) (p : Cpu)
    → g.trace_enable ≡ true
    → Inv p
    → (q : Cpu) × (probe_sched_switch g c prev p ≡ some q) × Switched g c prev p q
unfolding probe_sched_switch
probe_sched_switch-Switched g c prev p on v =
    let elapsed = sub64 c.local_clock p.last_timestamp in
    let stamped : Cpu = record p { last_timestamp = c.local_clock } in
    let (r, e, f) =
      finish-Finished elapsed p.skip stamped
        (record { buffers = v.valid.buffers; counters = v.valid.counters }) refl v.skipped in
    let b = not (c.is_idle_task prev) && not c.single_task_running in
    let (q, stored, u) = update_if-Updates b g elapsed r f.valid in
    (
      q,
      simp (on, e, stored),
      record {
        inv = record { valid = u.valid; skipped = rw (u.skip, f.skip_off) tt };
        skip = u.skip ∙ f.skip_off;
        time = u.time ∙ f.same.1;
        hrtimer = u.hrtimer ∙ f.same.2;
        log = ap contents u.stacks ∙ f.log;
        sum =
            subst
              (λ h. u64 (total q.hist) ≡ u64 (suc_if (b && not (ltb elapsed (step g))) (total h)))
              f.same.0 u.sum;
      },
    )

-- A disabled probe changes nothing.
pub probe_sched_switch-off :
    (g : Settings) (c : Context) (prev : ℕ) (p : Cpu)
    → g.trace_enable ≡ false
    → probe_sched_switch g c prev p ≡ some p
unfolding probe_sched_switch
probe_sched_switch-off g c prev p off = simp off

probe_sched_switch-none :
    (g : Settings) (c : Context) (prev task : ℕ) (p : Cpu)
    → g.trace_enable ≡ true
    → p.skip ≡ some task
    → length p.stacks.slots ≤ sub32 p.stacks.nr_slots 1
    → probe_sched_switch g c prev p ≡ none
unfolding probe_sched_switch finish finish_skipped
probe_sched_switch-none g c prev task p on e h = simp (
  on,
  e,
  finish_skipped-none (sub64 c.local_clock p.last_timestamp)
      (record p { last_timestamp = c.local_clock }) h,
)

-- If a CPU with valid buffers is cleared while a task is marked, the next switch on it, with tracing
-- enabled, stores a duration outside the array.
pub clear-then-switch_faults :
    (g : Settings) (c : Context) (prev task : ℕ) (p : Cpu)
    → g.trace_enable ≡ true
    → IsValidCpu p
    → p.skip ≡ some task
    → probe_sched_switch g c prev (each_stack_trace_clear p) ≡ none
unfolding each_stack_trace_clear clear
clear-then-switch_faults g c prev task p on v e =
    probe_sched_switch-none g c prev task (each_stack_trace_clear p) on e
      (omega (arith, v.buffers.slots_size))

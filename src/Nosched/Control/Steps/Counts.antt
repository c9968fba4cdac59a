-- ===== src/Nosched/Control/Steps/Counts.antt =====
-- What `distribution` shows after any steps: the times that were counted since the last clear.
use uio_linux_sample.Prelude.{
  ℕ, ◌+◌, ◌/◌, ◌≡◌, refl, ap, ◌∙◌, inl, inr, Bool, true, false, ◌&&◌, Option, none, some, List, [],
  ◌∷◌, ◌++◌, arith, length, replicate, All, Bool-cases,
}
use uio_linux_sample.Prelude.Words.{u64, u32, ℤ}
use uio_linux_sample.Trace.Counters.{
  total, sum_over, sum_over-replace, sum_over-map, sum_over-zero, suc_if, total-zero_counts,
  add_counts, length-add_counts, total-add_counts,
}
use uio_linux_sample.Trace.Histogram.Laws.{Shows, histogram_show-Shows}
use uio_linux_sample.Nosched.Data.{Settings, Cpu, Context, duration_histogram_entry}
use uio_linux_sample.Nosched.Record.{step, trace_nosched_hrtimer_handler}
use uio_linux_sample.Nosched.Record.Laws.{trace_nosched_hrtimer_handler-Ticked}
use uio_linux_sample.Nosched.Switch.{each_stack_trace_clear}
use uio_linux_sample.Nosched.Switch.Laws.{counted}
use uio_linux_sample.Nosched.Control.{
  State, threshold_store, each_hrtimer_start, trace_nosched_register_tp,
  trace_nosched_unregister_tp, trace_nosched_hrtimer_start, hrtimer_cancel,
  trace_nosched_hrtimer_cancel, enable, disable, enable_store, sum_hist, distribution_show,
  stack_trace_store,
}
use uio_linux_sample.Nosched.Control.Steps.{
  Effect, keeps, adds, resets, tally, adds_if, Step, hrtimer_fires, switches, writes_threshold,
  writes_enable, clears, writes_nonsense, Reach, here, next,
}
use uio_linux_sample.Nosched.Control.Steps.Invariant.{
  Ready, IsSound, Reach-IsSound, probe_sched_switch-Passed, nonsense-same, middle,
}

-- The times that all CPUs have counted.
abbrev pub hist_total : Cpu → ℕ
hist_total p = total p.hist

abbrev pub total_cpus : List Cpu → ℕ
total_cpus = sum_over hist_total

sum_hist-total :
    (sums : List ℕ) (period : ℕ) (ps : List Cpu)
    → length sums ≡ duration_histogram_entry
    → All (Ready period) ps
    → (length (sum_hist sums ps) ≡ duration_histogram_entry)
      × (u64 (total (sum_hist sums ps)) ≡ u64 (total sums + total_cpus ps))
unfolding sum_hist
sum_hist-total sums period [] h v = (h, omega arith)
sum_hist-total sums period (p ∷ ps) h v =
    let fits = v.0.inv.valid.counters in
    let ih =
      sum_hist-total (add_counts sums p.hist) period ps (length-add_counts sums p.hist ∙ h) v.1 in
    let here' = total-add_counts sums p.hist (omega (arith, fits)) in
    (ih.0, omega (arith, ih.1, here'))

-- The same number of times is in the histograms, but for the step's effect.
abbrev Counted : Effect → List Cpu → List Cpu → Type 0
Counted e ps qs = u64 (total_cpus qs) ≡ u64 (tally e (total_cpus ps))

tally_cong : (e : Effect) (a b : ℕ) → u64 a ≡ u64 b → u64 (tally e a) ≡ u64 (tally e b)
tally_cong keeps a b h = h
tally_cong adds a b h = omega (arith, h)
tally_cong resets a b h = refl

replace-Counted :
    (b : Bool) (before after : List Cpu) (p q : Cpu)
    → u64 (total q.hist) ≡ u64 (suc_if b (total p.hist))
    → Counted (adds_if b) (before ++ p ∷ after) (before ++ q ∷ after)
replace-Counted true before after p q h = sum_over-replace hist_total true before after p q h
replace-Counted false before after p q h = sum_over-replace hist_total false before after p q h

clear-zero : (period : ℕ) (p : Cpu) → Ready period p → total (each_stack_trace_clear p).hist ≡ 0
unfolding each_stack_trace_clear
clear-zero period p h =
    total-zero_counts duration_histogram_entry p.hist (omega (arith, h.inv.valid.counters))

start-total :
    (g : Settings) (at : ℕ → Context) (cpu : ℕ) (ps : List Cpu)
    → total_cpus (trace_nosched_hrtimer_start g at cpu ps) ≡ total_cpus ps
unfolding trace_nosched_hrtimer_start each_hrtimer_start
start-total g at cpu [] = refl
start-total g at cpu (p ∷ ps) = ap (λ k. total p.hist + k) (start-total g at (cpu + 1) ps)

enable-total :
    (answer : ℕ → ℤ) (at : ℕ → Context) (s : State)
    → total_cpus (enable answer at s).1.cpus ≡ total_cpus s.cpus
unfolding enable
enable-total answer at s = elim (Bool-cases (trace_nosched_register_tp answer 0 s.tps).0) [
  | inl ok ↦ rw ok (start-total s.settings at 0 s.cpus)
  | inr refused ↦ rw refused
]

disable-total :
    (answer : ℕ → ℤ) (s : State) → total_cpus (disable answer s).1.cpus ≡ total_cpus s.cpus
unfolding disable trace_nosched_hrtimer_cancel
disable-total answer s = elim (Bool-cases (trace_nosched_unregister_tp answer 0 s.tps).0) [
  | inl ok ↦ rw ok (sum_over-map hist_total hrtimer_cancel (λ p. refl) s.cpus)
  | inr refused ↦ rw refused (sum_over-map hist_total hrtimer_cancel (λ p. refl) s.cpus)
]

enable_store-total :
    (answer : ℕ → ℤ) (at : ℕ → Context) (input : Option Bool) (s : State)
    → total_cpus (enable_store answer at input s).1.cpus ≡ total_cpus s.cpus
unfolding enable_store
enable_store-total answer at none s = refl
enable_store-total answer at (some true) s = elim (Bool-cases s.settings.trace_enable) [
  | inl e ↦ simp e
  | inr e ↦ simp e (enable-total answer at s)
]
enable_store-total answer at (some false) s = elim (Bool-cases s.settings.trace_enable) [
  | inl e ↦ simp e (disable-total answer s)
  | inr e ↦ simp e
]

threshold-total : (input : Option ℕ) (s : State) → (threshold_store input s).1.cpus ≡ s.cpus
unfolding threshold_store
threshold-total none s = refl
threshold-total (some n) s = refl

-- A step from a sound state changes the number of times in the histograms as its effect says.
Step-Counted :
    {e : Effect} {s : State} {r : Option State}
    → Step e s r
    → IsSound s
    → (t : State) → r ≡ some t
    → Counted e s.cpus t.cpus
unfolding stack_trace_store
Step-Counted (hrtimer_fires s c before after p period k e queued) h t same =
    let q = trace_nosched_hrtimer_handler s.settings c p in
    let ready = middle s before after p q h e in
    let ticked = trace_nosched_hrtimer_handler-Ticked s.settings c p k ready.inv in
    let cpus : t.cpus ≡ before ++ q ∷ after = cc in
    rw (cpus, e) (replace-Counted false before after p q (ap (λ xs. u64 (total xs)) ticked.hist))
Step-Counted (switches s c before after p prev e) h t same =
    let ready = middle s before after p p h e in
    let (q, ok, d) = probe_sched_switch-Passed s.settings c prev p ready.inv in
    let cpus : t.cpus ≡ before ++ q ∷ after = cc (rw ok at same) in
    rw (cpus, e)
      (replace-Counted (s.settings.trace_enable && counted s.settings c prev p) before after p q
        d.sum)
Step-Counted (writes_threshold s input) h t same =
    let cpus : t.cpus ≡ s.cpus = cc (same, threshold-total input s) in
    ap (λ ps. u64 (total_cpus ps)) cpus
Step-Counted (writes_enable s answer at input) h t same =
    let total' = enable_store-total answer at input s in
    let cpus : total_cpus t.cpus ≡ total_cpus s.cpus = cc in ap u64 cpus
Step-Counted (clears s u) h t same =
    let period = s.settings.sampling_period in
    let zero' =
      sum_over-zero (Ready period) hist_total each_stack_trace_clear (clear-zero period) s.cpus
        h.cpus in
    let cpus : total_cpus t.cpus ≡ 0 = cc in ap u64 cpus
Step-Counted (writes_nonsense s input e) h t same =
    let same' = nonsense-same input s e in
    let cpus : t ≡ s = cc in ap (λ t'. u64 (total_cpus t'.cpus)) cpus

Reach-Counted :
    {s t : State} {n : ℕ}
    → IsSound s
    → total_cpus s.cpus ≡ 0
    → Reach s n t
    → u64 (total_cpus t.cpus) ≡ u64 n
Reach-Counted h z here = ap u64 z
Reach-Counted h z (next {n = n} {e = e} {t = t} r st) =
    Step-Counted st (Reach-IsSound h r) _ refl
    ∙ tally_cong e (total_cpus t.cpus) n (Reach-Counted h z r)

-- From a sound state with empty histograms, whatever ticks, switches and writes follow, with logs
-- cleared only while no CPU has a task marked, the histogram that `distribution` prints has the
-- twelve counters, which sum up (modulo 2^64) to the number of switches since the last clear that
-- were made with tracing on, away from a task that is not idle and not alone on its CPU, after at
-- least twice the sampling period; and what is printed of it shows every counter but zeros at the
-- end.
pub distribution_show-Counted :
    {s t : State} {n : ℕ}
    → IsSound s
    → total_cpus s.cpus ≡ 0
    → Reach s n t
    → (hist : List ℕ) × (length hist ≡ duration_histogram_entry)
      × (u64 (total hist) ≡ u64 n)
      × Shows hist (distribution_show t)
unfolding distribution_show
distribution_show-Counted {t = t} h z r =
    let hist = sum_hist (replicate duration_histogram_entry 0) t.cpus in
    let sound = Reach-IsSound h r in
    let sum =
      sum_hist-total (replicate duration_histogram_entry 0) t.settings.sampling_period t.cpus refl
        sound.cpus in
    (
      hist,
      sum.0,
      omega (arith, sum.1, Reach-Counted h z r),
      histogram_show-Shows hist (u32 (step t.settings / 1000000)),
    )

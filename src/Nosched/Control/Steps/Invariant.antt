-- ===== src/Nosched/Control/Steps/Invariant.antt =====
-- What holds in every state that the module can reach.
use uio_linux_sample.Prelude.{
  ℕ, ◌+◌, ◌≡◌, refl, ap, sym, subst, ◌∙◌, ◌⊎◌, inl, inr, Bool, true, false, ◌&&◌, Option, none,
  some, List, [], ◌∷◌, ◌++◌, map, All, All-middle, All-replace, Bool-cases,
}
use uio_linux_sample.Prelude.Words.{u64, ℤ, pos, eqb_ℤ}
use uio_linux_sample.Trace.Counters.{total, suc_if, length-zero_counts}
use uio_linux_sample.Trace.Stacks.{clear}
use uio_linux_sample.Trace.Stacks.Laws.{clear-IsValid}
use uio_linux_sample.Nosched.Data.{Settings, Cpu, Context, IsKernel, duration_histogram_entry}
use uio_linux_sample.Nosched.Record.{trace_nosched_hrtimer_handler}
use uio_linux_sample.Nosched.Record.Laws.{SkipSound, Inv, trace_nosched_hrtimer_handler-Ticked}
use uio_linux_sample.Nosched.Switch.{probe_sched_switch, each_stack_trace_clear}
use uio_linux_sample.Nosched.Switch.Laws.{
  counted, probe_sched_switch-Switched, probe_sched_switch-off,
}
use uio_linux_sample.Nosched.Control.{
  State, einval, threshold_store, trace_nosched_register_tp, trace_nosched_unregister_tp,
  each_hrtimer_start, trace_nosched_hrtimer_start, trace_nosched_hrtimer_cancel, enable, disable,
  enable_store, stack_trace_store,
}
use uio_linux_sample.Nosched.Control.Laws.{
  Queued, Runs, register-All, unregister-All, cancel-Queued,
}
use uio_linux_sample.Nosched.Control.Steps.{
  Effect, Step, hrtimer_fires, switches, writes_threshold, writes_enable, clears, writes_nonsense,
  Reach, here, next, spliced, IsUnmarked,
}

-- A CPU that is ready for a tick and a switch, and whose timer, if queued, has the right period.
pub record Ready (period : ℕ) (p : Cpu) : Type 0 where
  pub inv : Inv p
  pub timer : (p.hrtimer ≡ none) ⊎ (p.hrtimer ≡ some period)

-- While tracing is off, no probe is registered and no timer queued.
abbrev pub OffClean : Bool → State → Type 0
OffClean true s = Unit
OffClean false s = Runs false s.settings.sampling_period s.tps s.cpus

pub record IsSound (s : State) : Type 0 where
  pub cpus : All (Ready s.settings.sampling_period) s.cpus
  pub off : OffClean s.settings.trace_enable s

-- What a switch does to a CPU, with tracing on or off.
pub record Passed (g : Settings) (c : Context) (prev : ℕ) (p q : Cpu) : Type 0 where
  pub inv : Inv q
  pub hrtimer : q.hrtimer ≡ p.hrtimer
  pub sum : u64 (total q.hist) ≡ u64 (suc_if (g.trace_enable && counted g c prev p) (total p.hist))

pub probe_sched_switch-Passed :
    (g : Settings) (c : Context) (prev : ℕ) (p : Cpu)
    → Inv p
    → (q : Cpu) × (probe_sched_switch g c prev p ≡ some q) × Passed g c prev p q
probe_sched_switch-Passed g c prev p v = elim (Bool-cases g.trace_enable) [
  | inl on ↦
      let (q, e, r) = probe_sched_switch-Switched g c prev p on v in
      (q, e, record { inv = r.inv; hrtimer = r.hrtimer; sum = rw on r.sum })
  | inr off ↦ (
    p,
    probe_sched_switch-off g c prev p off,
    record { inv = v; hrtimer = refl; sum = rw off refl },
  )
]

-- One CPU of a sound state changes, and its timer is queued only if it was.
module _ (s : State) (before after : List Cpu) (p q : Cpu) (h : IsSound s)
    (e : s.cpus ≡ before ++ p ∷ after) where
  pub middle : Ready s.settings.sampling_period p
  middle = All-middle _ before p after (rw e at h.cpus)

  replace-OffClean :
      (b : Bool)
      → OffClean b s
      → (Queued false s.settings.sampling_period p → Queued false s.settings.sampling_period q)
      → OffClean b (record s { cpus = before ++ q ∷ after })
  replace-OffClean true o f = tt
  replace-OffClean false o f =
      let timers = rw e at o.timers in
      record {
        probes = o.probes;
        timers = All-replace _ before after p q timers (f (All-middle _ before p after timers));
      }

  replace-IsSound :
      Ready s.settings.sampling_period q
      → (Queued false s.settings.sampling_period p → Queued false s.settings.sampling_period q)
      → IsSound (record s { cpus = before ++ q ∷ after })
  replace-IsSound r f = record {
    cpus = All-replace _ before after p q (rw e at h.cpus) r;
    off = replace-OffClean s.settings.trace_enable h.off f;
  }

-- Clearing a CPU without a mark.
clear-Ready :
    (period : ℕ) (p : Cpu) → IsUnmarked p → Ready period p → Ready period (each_stack_trace_clear p)
unfolding each_stack_trace_clear
clear-Ready period p e r = record {
  inv = record {
    valid = record {
      buffers = clear-IsValid p.stacks r.inv.valid.buffers;
      counters = length-zero_counts duration_histogram_entry p.hist ∙ r.inv.valid.counters;
    };
    skipped = subst (λ k. SkipSound k (clear p.stacks).nr_slots) (sym e) tt;
  };
  timer = r.timer;
}

All-clear-Ready :
    (period : ℕ) (ps : List Cpu)
    → All IsUnmarked ps
    → All (Ready period) ps
    → All (Ready period) (map each_stack_trace_clear ps)
All-clear-Ready period [] u h = tt
All-clear-Ready period (p ∷ ps) u h =
    (clear-Ready period p u.0 h.0, All-clear-Ready period ps u.1 h.1)

All-clear-Queued :
    (period : ℕ) (ps : List Cpu)
    → All (Queued false period) ps
    → All (Queued false period) (map each_stack_trace_clear ps)
unfolding each_stack_trace_clear
All-clear-Queued period [] h = tt
All-clear-Queued period (p ∷ ps) h = (h.0, All-clear-Queued period ps h.1)

start-Ready :
    (g : Settings) (at : ℕ → Context) (cpu : ℕ) (ps : List Cpu)
    → All (Ready g.sampling_period) ps
    → All (Ready g.sampling_period) (trace_nosched_hrtimer_start g at cpu ps)
unfolding trace_nosched_hrtimer_start each_hrtimer_start
start-Ready g at cpu [] h = tt
start-Ready g at cpu (p ∷ ps) h =
    let v = h.0.inv.valid in
    (
      record {
        inv = record {
          valid = record { buffers = v.buffers; counters = v.counters };
          skipped = h.0.inv.skipped;
        };
        timer = inr refl;
      },
      start-Ready g at (cpu + 1) ps h.1,
    )

cancel-Ready :
    (period : ℕ) (ps : List Cpu)
    → All (Ready period) ps
    → All (Ready period) (trace_nosched_hrtimer_cancel ps)
unfolding trace_nosched_hrtimer_cancel
cancel-Ready period [] h = tt
cancel-Ready period (p ∷ ps) h =
    let v = h.0.inv.valid in
    (
      record {
        inv = record {
          valid = record { buffers = v.buffers; counters = v.counters };
          skipped = h.0.inv.skipped;
        };
        timer = inl refl;
      },
      cancel-Ready period ps h.1,
    )

-- A write of 1 while tracing is off: all probes and timers, or none.
enable-IsSound :
    (answer : ℕ → ℤ) (at : ℕ → Context) (s : State)
    → s.settings.trace_enable ≡ false
    → IsSound s
    → IsSound (enable answer at s).1
unfolding enable
enable-IsSound answer at s off h =
    let clean = subst (λ b. OffClean b s) off h.off in
    let r = register-All answer 0 s.tps clean.probes in
    elim (Bool-cases (trace_nosched_register_tp answer 0 s.tps).0) [
      | inl ok ↦ rw ok (record { cpus = start-Ready s.settings at 0 s.cpus h.cpus; off = tt })
      | inr refused ↦ rw refused (record {
        cpus = h.cpus;
        off =
            subst
              (λ b. OffClean b (record s { tps = (trace_nosched_register_tp answer 0 s.tps).1 }))
              (sym off) (record { probes = rw refused at r; timers = clean.timers });
      })
    ]

-- A write of 0 while tracing is on. If it fails, tracing stays on, without timers.
disable-IsSound :
    (answer : ℕ → ℤ) (s : State)
    → s.settings.trace_enable ≡ true
    → IsSound s
    → IsSound (disable answer s).1
unfolding disable
disable-IsSound answer s on h =
    let period = s.settings.sampling_period in
    let tps = (trace_nosched_unregister_tp answer 0 s.tps).1 in
    let cpus = trace_nosched_hrtimer_cancel s.cpus in
    elim (Bool-cases (trace_nosched_unregister_tp answer 0 s.tps).0) [
      | inl ok ↦ rw ok (record {
        cpus = cancel-Ready period s.cpus h.cpus;
        off = record {
          probes = unregister-All answer 0 s.tps ok;
          timers = cancel-Queued period s.cpus;
        };
      })
      | inr refused ↦ rw refused (record {
        cpus = cancel-Ready period s.cpus h.cpus;
        off = subst (λ b. OffClean b (record s { tps = tps; cpus = cpus })) (sym on) tt;
      })
    ]

enable_store-IsSound :
    (answer : ℕ → ℤ) (at : ℕ → Context) (input : Option Bool) (s : State) (on : Bool)
    → s.settings.trace_enable ≡ on
    → IsSound s
    → IsSound (enable_store answer at input s).1
unfolding enable_store
enable_store-IsSound answer at none s on e h = h
enable_store-IsSound answer at (some true) s true e h = simp e h
enable_store-IsSound answer at (some true) s false e h = simp e (enable-IsSound answer at s e h)
enable_store-IsSound answer at (some false) s true e h = simp e (disable-IsSound answer s e h)
enable_store-IsSound answer at (some false) s false e h = simp e h

clear-OffClean :
    (b : Bool) (s : State)
    → OffClean b s
    → OffClean b (record s { cpus = map each_stack_trace_clear s.cpus })
clear-OffClean true s o = tt
clear-OffClean false s o = record {
  probes = o.probes;
  timers = All-clear-Queued s.settings.sampling_period s.cpus o.timers;
}

clear-IsSound :
    (s : State) → All IsUnmarked s.cpus → IsSound s → IsSound (stack_trace_store (some (pos 0)) s).1
unfolding stack_trace_store
clear-IsSound s u h = record {
  cpus = All-clear-Ready s.settings.sampling_period s.cpus u h.cpus;
  off = clear-OffClean s.settings.trace_enable s h.off;
}

threshold-OffClean :
    (b : Bool) (s : State) (n : ℕ)
    → OffClean b s
    → OffClean b (record s { settings = record s.settings { duration_threshold = n } })
threshold-OffClean true s n o = tt
threshold-OffClean false s n o = record { probes = o.probes; timers = o.timers }

threshold-IsSound : (input : Option ℕ) (s : State) → IsSound s → IsSound (threshold_store input s).1
unfolding threshold_store
threshold-IsSound none s h = h
threshold-IsSound (some n) s h = record {
  cpus = h.cpus;
  off = threshold-OffClean s.settings.trace_enable s n h.off;
}

-- A write that is refused.
pub nonsense-same :
    (input : Option ℤ) (s : State)
    → (stack_trace_store input s).0 ≡ einval
    → (stack_trace_store input s).1 ≡ s
unfolding stack_trace_store
nonsense-same none s e = refl
nonsense-same (some k) s e = elim (Bool-cases (eqb_ℤ k (pos 0))) [
  | inl zero' ↦ cc (rw zero' at e)
  | inr other ↦ rw other
]

-- The handler's tick on a CPU whose timer is queued.
tick-Ready :
    (g : Settings) (c : Context) (p : Cpu)
    → IsKernel c
    → Ready g.sampling_period p
    → Ready g.sampling_period (trace_nosched_hrtimer_handler g c p)
tick-Ready g c p k r =
    let t = trace_nosched_hrtimer_handler-Ticked g c p k r.inv in
    record { inv = t.inv; timer = inr t.rearmed }

Passed-Ready :
    (g : Settings) (c : Context) (prev : ℕ) (p q : Cpu)
    → Ready g.sampling_period p
    → Passed g c prev p q
    → Ready g.sampling_period q
Passed-Ready g c prev p q r d = record {
  inv = d.inv;
  timer = subst (λ t. (t ≡ none) ⊎ (t ≡ some g.sampling_period)) (sym d.hrtimer) r.timer;
}

Step-IsSound :
    {e : Effect} {s : State} {r : Option State}
    → Step e s r
    → IsSound s
    → (t : State) × (r ≡ some t) × IsSound t
Step-IsSound (hrtimer_fires s c before after p period k e queued) h =
    let q = trace_nosched_hrtimer_handler s.settings c p in
    let ready = middle s before after p q h e in
    (
      record s { cpus = before ++ q ∷ after },
      refl,
      replace-IsSound s before after p q h e (tick-Ready s.settings c p k ready) (λ x. cc),
    )
Step-IsSound (switches s c before after p prev e) h =
    let ready = middle s before after p p h e in
    let (q, same, d) = probe_sched_switch-Passed s.settings c prev p ready.inv in
    (
      record s { cpus = before ++ q ∷ after },
      ap (spliced s before after) same,
      replace-IsSound s before after p q h e (Passed-Ready s.settings c prev p q ready d)
          (λ x. d.hrtimer ∙ x),
    )
Step-IsSound (writes_threshold s input) h =
    ((threshold_store input s).1, refl, threshold-IsSound input s h)
Step-IsSound (writes_enable s answer at input) h = (
  (enable_store answer at input s).1,
  refl,
  enable_store-IsSound answer at input s s.settings.trace_enable refl h,
)
Step-IsSound (clears s u) h = ((stack_trace_store (some (pos 0)) s).1, refl, clear-IsSound s u h)
Step-IsSound (writes_nonsense s input e) h =
    ((stack_trace_store input s).1, refl, subst IsSound (sym (nonsense-same input s e)) h)

same-IsSound : (t u : State) → some u ≡ some t → IsSound t → IsSound u
same-IsSound t u e h = let same : t ≡ u = cc in subst IsSound same h

pub Reach-IsSound : {s t : State} {n : ℕ} → IsSound s → Reach s n t → IsSound t
Reach-IsSound h here = h
Reach-IsSound h (next r st) =
    let (t, e, sound) = Step-IsSound st (Reach-IsSound h r) in same-IsSound t _ e sound

-- From a sound state, in which every CPU has valid buffers, a trace for its marked task and a timer
-- that, if it is queued, runs at the sampling period, and in which no probe is registered and no
-- timer queued while tracing is off: no sequence of ticks, switches and writes, with any answers of
-- the kernel to the registrations and logs cleared only while no CPU has a task marked, leads to a
-- state that is not sound, or to one in which a step stores a duration or a count outside its array.
pub Reach-never_faults :
    {s t : State} {n : ℕ} {e : Effect} {r : Option State}
    → IsSound s
    → Reach s n t
    → Step e t r
    → (u : State) × (r ≡ some u) × IsSound u
Reach-never_faults h reach step = Step-IsSound step (Reach-IsSound h reach)

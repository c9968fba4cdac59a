-- ===== src/Nosched/Control/Laws.antt =====
-- The enable switch, the probes and the timers.
use uio_linux_sample.Prelude.{
  ℕ, ◌+◌, ◌≡◌, refl, sym, subst, ◌∙◌, inl, inr, Bool, true, false, Option, none, some, List, [],
  ◌∷◌, All, Bool-cases,
}
use uio_linux_sample.Prelude.Words.{ℤ}
use uio_linux_sample.Nosched.Data.{Settings, Cpu, Context}
use uio_linux_sample.Nosched.Control.{
  State, eexist, enoent, fails, trace_nosched_register_tp, trace_nosched_unregister_tp,
  each_hrtimer_start, trace_nosched_hrtimer_start, trace_nosched_hrtimer_cancel, enable, disable,
  enable_store,
}

abbrev pub Queued : Bool → ℕ → Cpu → Type 0
Queued true period p = p.hrtimer ≡ some period
Queued false period p = p.hrtimer ≡ none

abbrev pub Is : Bool → Bool → Type 0
Is b x = x ≡ b

-- The probes are registered and the timers queued, with the sampling period, as `on` says.
pub record Runs (on : Bool) (period : ℕ) (tps : List Bool) (cpus : List Cpu) : Type 0 where
  pub probes : All (Is on) tps
  pub timers : All (Queued on period) cpus

abbrev pub IsConsistent : State → Type 0
IsConsistent s = Runs s.settings.trace_enable s.settings.sampling_period s.tps s.cpus

-- A registration from nothing ends with all probes registered or with none.
pub register-All :
    (answer : ℕ → ℤ) (i : ℕ) (tps : List Bool)
    → All (Is false) tps
    → All (Is (trace_nosched_register_tp answer i tps).0) (trace_nosched_register_tp answer i tps).1
unfolding trace_nosched_register_tp
register-All answer i [] h = tt
register-All answer i (b ∷ bs) h = elim (Bool-cases (fails eexist (answer i))) [
  | inl e ↦ rw e h
  | inr e ↦ rw e (refl, register-All answer (i + 1) bs h.1)
]

pub unregister-All :
    (answer : ℕ → ℤ) (i : ℕ) (tps : List Bool)
    → (trace_nosched_unregister_tp answer i tps).0 ≡ true
    → All (Is false) (trace_nosched_unregister_tp answer i tps).1
unfolding trace_nosched_unregister_tp
unregister-All answer i [] h = tt
unregister-All answer i (b ∷ bs) h = elim (Bool-cases (fails enoent (answer i))) [
  | inl e ↦ cc (rw e at h)
  | inr e ↦ rw e (refl, unregister-All answer (i + 1) bs (rw e at h))
]

pub start-Queued :
    (g : Settings) (at : ℕ → Context) (cpu : ℕ) (ps : List Cpu)
    → All (Queued true g.sampling_period) (trace_nosched_hrtimer_start g at cpu ps)
unfolding trace_nosched_hrtimer_start each_hrtimer_start
start-Queued g at cpu [] = tt
start-Queued g at cpu (p ∷ ps) = (refl, start-Queued g at (cpu + 1) ps)

pub cancel-Queued :
    (period : ℕ) (ps : List Cpu) → All (Queued false period) (trace_nosched_hrtimer_cancel ps)
unfolding trace_nosched_hrtimer_cancel
cancel-Queued period [] = tt
cancel-Queued period (p ∷ ps) = (refl, cancel-Queued period ps)

pub enable-IsConsistent :
    (answer : ℕ → ℤ) (at : ℕ → Context) (s : State)
    → s.settings.trace_enable ≡ false
    → IsConsistent s
    → IsConsistent (enable answer at s).1
unfolding enable
enable-IsConsistent answer at s e h =
    let r = register-All answer 0 s.tps (subst (λ b. All (Is b) s.tps) e h.probes) in
    elim (Bool-cases (trace_nosched_register_tp answer 0 s.tps).0) [
      | inl ok ↦ rw ok (record {
        probes = subst (λ b. All (Is b) (trace_nosched_register_tp answer 0 s.tps).1) ok r;
        timers = start-Queued s.settings at 0 s.cpus;
      })
      | inr refused ↦ rw refused (record {
        probes =
            subst (λ b. All (Is b) (trace_nosched_register_tp answer 0 s.tps).1) (refused ∙ sym e)
              r;
        timers = h.timers;
      })
    ]

-- What a write of the switch does if the kernel does not refuse to unregister a probe.
pub disable-IsConsistent :
    (answer : ℕ → ℤ) (s : State)
    → (trace_nosched_unregister_tp answer 0 s.tps).0 ≡ true
    → IsConsistent (disable answer s).1
unfolding disable
disable-IsConsistent answer s ok = rw ok (record {
  probes = unregister-All answer 0 s.tps ok;
  timers = cancel-Queued s.settings.sampling_period s.cpus;
})

store-IsConsistent :
    (answer : ℕ → ℤ) (at : ℕ → Context) (input : Option Bool) (on : Bool) (s : State)
    → s.settings.trace_enable ≡ on
    → (trace_nosched_unregister_tp answer 0 s.tps).0 ≡ true
    → IsConsistent s
    → IsConsistent (enable_store answer at input s).1
unfolding enable_store
store-IsConsistent answer at none on s e ok h = h
store-IsConsistent answer at (some true) true s e ok h = simp e (simp e at h)
store-IsConsistent answer at (some true) false s e ok h =
    simp e (enable-IsConsistent answer at s e h)
store-IsConsistent answer at (some false) true s e ok h = simp e (disable-IsConsistent answer s ok)
store-IsConsistent answer at (some false) false s e ok h = simp e (simp e at h)

-- From a state in which the probes are registered and the timers queued, with the sampling period,
-- exactly if the switch is on, every write to `enable` leads to such a state, whatever the
-- registrations answer, if the kernel does not refuse to unregister a probe.
pub enable_store-IsConsistent :
    (answer : ℕ → ℤ) (at : ℕ → Context) (input : Option Bool) (s : State)
    → (trace_nosched_unregister_tp answer 0 s.tps).0 ≡ true
    → IsConsistent s
    → IsConsistent (enable_store answer at input s).1
enable_store-IsConsistent answer at input s ok h =
    store-IsConsistent answer at input s.settings.trace_enable s refl ok h

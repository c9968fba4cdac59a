-- ===== src/Nosched/Control/Steps.antt =====
-- The module as a transition system: ticks and switches on any CPU, between writes to its files.
pub mod Invariant
pub mod Counts
use uio_linux_sample.Prelude.{
  ℕ, zero, suc, ◌+◌, ◌≡◌, Bool, true, false, ◌&&◌, Option, none, some, List, [], ◌∷◌, ◌++◌, All,
}
use uio_linux_sample.Prelude.Words.{ℤ, pos}
use uio_linux_sample.Nosched.Data.{Cpu, Context, IsKernel}
use uio_linux_sample.Nosched.Record.{trace_nosched_hrtimer_handler}
use uio_linux_sample.Nosched.Switch.{probe_sched_switch}
use uio_linux_sample.Nosched.Switch.Laws.{counted}
use uio_linux_sample.Nosched.Control.{
  State, Reply, einval, threshold_store, enable_store, stack_trace_store,
}

-- What a step does to the number of times that should be in the histograms.
pub data Effect : Type 0 where
  keeps adds resets : Effect

abbrev pub tally : Effect → ℕ → ℕ
tally keeps n = n
tally adds n = suc n
tally resets n = 0

abbrev pub adds_if : Bool → Effect
adds_if true = adds
adds_if false = keeps

-- A store outside an array ends in no state.
abbrev pub spliced : State → List Cpu → List Cpu → Option Cpu → Option State
spliced s before after none = none
spliced s before after (some q) = some (record s { cpus = before ++ q ∷ after })

abbrev pub IsUnmarked : Cpu → Type 0
IsUnmarked p = p.skip ≡ none

-- A timer fires only where it is queued; the kernel may answer any registration in any way, and a
-- write may be of any number. The logs are cleared only while no CPU has a task marked.
pub data Step : Effect → State → Option State → Type 0 where
  hrtimer_fires :
      (s : State) (c : Context) (before after : List Cpu) (p : Cpu) (period : ℕ)
      → IsKernel c
      → s.cpus ≡ before ++ p ∷ after
      → p.hrtimer ≡ some period
      → Step keeps s (
          some (record s { cpus = before ++ trace_nosched_hrtimer_handler s.settings c p ∷ after }))
  switches :
      (s : State) (c : Context) (before after : List Cpu) (p : Cpu) (prev : ℕ)
      → s.cpus ≡ before ++ p ∷ after
      → Step
          (adds_if (s.settings.trace_enable && counted s.settings c prev p))
          s
          (spliced s before after (probe_sched_switch s.settings c prev p))
  writes_threshold :
      (s : State) (input : Option ℕ) → Step keeps s (some (threshold_store input s).1)
  writes_enable :
      (s : State) (answer : ℕ → ℤ) (at : ℕ → Context) (input : Option Bool)
      → Step keeps s (some (enable_store answer at input s).1)
  clears :
      (s : State)
      → All IsUnmarked s.cpus
      → Step resets s (some (stack_trace_store (some (pos 0)) s).1)
  writes_nonsense :
      (s : State) (input : Option ℤ)
      → (stack_trace_store input s).0 ≡ einval
      → Step keeps s (some (stack_trace_store input s).1)

-- The states that steps lead to, with the number of times counted since the last clear.
pub data Reach (s : State) : ℕ → State → Type 0 where
  here : Reach s 0 s
  next :
      {n : ℕ} {e : Effect} {t u : State} → Reach s n t → Step e t (some u) → Reach s (tally e n) u

-- ===== src/Nosched/Init/Unwinding.antt =====
-- What the module holds after a load that failed, and what is queued after an unload.
use uio_linux_sample.Prelude.{
  ℕ, ◌≡◌, refl, Bool, true, false, ◌&&◌, Option, none, some, List, [], ◌∷◌, arith, All,
  if◌then◌else◌,
}
use uio_linux_sample.Prelude.Words.{ℤ}
use uio_linux_sample.Trace.Lookup.{
  Table, is_set, is_tracepoint_lookup_success, for_each_kernel_tracepoint,
}
use uio_linux_sample.Trace.Lookup.Laws.{IsCounted, first_of, for_each_kernel_tracepoint-resolved}
use uio_linux_sample.Nosched.Control.{State}
use uio_linux_sample.Nosched.Control.Laws.{IsConsistent, Queued, cancel-Queued}
use uio_linux_sample.Nosched.Init.{
  Answers, nothing, everything, nosched_info, loaded, enodev, enomem, trace_noschedule_init,
  trace_noschedule_exit,
}

-- The name "sched_switch".
abbrev pub sched_switch : List ℕ
sched_switch =
    b's' ∷ b'c' ∷ b'h' ∷ b'e' ∷ b'd' ∷ b'_' ∷ b's' ∷ b'w' ∷ b'i' ∷ b't' ∷ b'c' ∷ b'h' ∷ []

success-first_of :
    (tps : List (List ℕ × ℕ)) (t : Table) (o : Option ℕ)
    → t.tp_entries ≡ record { name = some sched_switch; tp = o } ∷ []
    → IsCounted t
    → is_tracepoint_lookup_success t ≡ is_set o
unfolding is_tracepoint_lookup_success
success-first_of tps t none e c = rw (c.count, e)
success-first_of tps t (some a) e c = rw (c.count, e)

-- The lookup succeeds exactly if the kernel has a tracepoint of the name.
lookup-success :
    (tps : List (List ℕ × ℕ))
    → is_tracepoint_lookup_success (for_each_kernel_tracepoint tps nosched_info)
      ≡ is_set (first_of tps sched_switch)
lookup-success tps =
    let r = for_each_kernel_tracepoint-resolved tps nosched_info (record { count = refl }) in
    success-first_of tps (for_each_kernel_tracepoint tps nosched_info) (first_of tps sched_switch)
      r.0 r.1

abbrev pub all_created : Answers → Bool
all_created a =
    a.create_threshold && (a.create_enable && (a.create_distribution && a.create_stack_trace))

-- The load fails with -ENODEV exactly if the kernel has no tracepoint "sched_switch", and else with
-- -ENOMEM if a request fails; it holds everything if it succeeds, and nothing if it fails.
pub trace_noschedule_init-cases :
    (a : Answers)
    → trace_noschedule_init a ≡ (
        if is_set (first_of a.kernel_tracepoints sched_switch)
        then if a.alloc_percpu && (a.proc_mkdir && all_created a)
          then (loaded, everything)
          else (enomem, nothing)
        else (enodev, nothing))
unfolding trace_noschedule_init
trace_noschedule_init-cases a = rw (lookup-success a.kernel_tracepoints) (ground arith)

-- Unloading a module in a consistent state leaves no timer queued and nothing held.
pub trace_noschedule_exit-frees :
    (answer : ℕ → ℤ) (s : State) (b : Bool)
    → s.settings.trace_enable ≡ b
    → IsConsistent s
    → let (t, r) = trace_noschedule_exit answer s everything in
      All (Queued false s.settings.sampling_period) t.cpus × (r ≡ nothing)
unfolding trace_noschedule_exit
trace_noschedule_exit-frees answer s true e h =
    simp e (cancel-Queued s.settings.sampling_period s.cpus, refl)
trace_noschedule_exit-frees answer s false e h = simp e ((simp e at h.timers), refl)

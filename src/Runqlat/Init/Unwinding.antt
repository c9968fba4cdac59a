-- ===== src/Runqlat/Init/Unwinding.antt =====
-- What the module holds after a load that failed, and after an unload.
use uio_linux_sample.Prelude.{
  ℕ, ◌≡◌, refl, sym, ap, ◌∙◌, Bool, true, false, ◌&&◌, inl, inr, Option, none, some, List, [], ◌∷◌,
  arith, length, Bool-cases, if◌then◌else◌, ◌==◌,
}
use uio_linux_sample.Prelude.Words.{ℤ, pos, eqb_ℤ}
use uio_linux_sample.Trace.Lookup.{
  Table, is_set, is_tracepoint_lookup_success, for_each_kernel_tracepoint,
}
use uio_linux_sample.Trace.Lookup.Laws.{
  IsCounted, first_of, filled, for_each_kernel_tracepoint-resolved,
}
use uio_linux_sample.Runqlat.Init.{
  Answers, Resources, nothing, everything, no_probes, all_probes, tps_probe, sched_wakeup,
  sched_wakeup_new, sched_switch, sched_migrate_task, enomem, register_probes, create_files,
  start_probes, free_buf, remove_proc, trace_runqlat_init, unregister_probes, trace_runqlat_exit,
}

-- All four tracepoints are there.
abbrev pub has_tracepoints : List (List ℕ × ℕ) → Bool
has_tracepoints tps =
    is_set (first_of tps sched_wakeup)
    && (is_set (first_of tps sched_wakeup_new)
        && (is_set (first_of tps sched_switch) && is_set (first_of tps sched_migrate_task)))

filled_four :
    (w x y z : Option ℕ)
    → (filled (
          record { name = some sched_wakeup; tp = w }
          ∷ record { name = some sched_wakeup_new; tp = x }
          ∷ record { name = some sched_switch; tp = y }
          ∷ record { name = some sched_migrate_task; tp = z }
          ∷ [])
        == 4)
      ≡ (is_set w && (is_set x && (is_set y && is_set z)))
filled_four none none none none = refl
filled_four none none none (some z) = refl
filled_four none none (some y) none = refl
filled_four none none (some y) (some z) = refl
filled_four none (some x) none none = refl
filled_four none (some x) none (some z) = refl
filled_four none (some x) (some y) none = refl
filled_four none (some x) (some y) (some z) = refl
filled_four (some w) none none none = refl
filled_four (some w) none none (some z) = refl
filled_four (some w) none (some y) none = refl
filled_four (some w) none (some y) (some z) = refl
filled_four (some w) (some x) none none = refl
filled_four (some w) (some x) none (some z) = refl
filled_four (some w) (some x) (some y) none = refl
filled_four (some w) (some x) (some y) (some z) = refl

success_lem :
    (t : Table)
    → IsCounted t
    → is_tracepoint_lookup_success t ≡ (filled t.tp_entries == length t.tp_entries)
unfolding is_tracepoint_lookup_success
success_lem t c = ap (λ n. n == length t.tp_entries) c.count

lookup_all :
    (tps : List (List ℕ × ℕ))
    → is_tracepoint_lookup_success (for_each_kernel_tracepoint tps tps_probe) ≡ has_tracepoints tps
lookup_all tps =
    let r = for_each_kernel_tracepoint-resolved tps tps_probe (record { count = refl }) in
    success_lem (for_each_kernel_tracepoint tps tps_probe) r.1
    ∙ ap (λ es. filled es == length es) r.0
    ∙ filled_four (first_of tps sched_wakeup) (first_of tps sched_wakeup_new)
        (first_of tps sched_switch) (first_of tps sched_migrate_task)

abbrev pub requests_granted : Answers → Bool
requests_granted a =
    a.vzalloc
    && (a.proc_mkdir
        && (a.create_pid
            && (a.create_threshold
                && (a.create_runqlat
                    && (a.create_distribution && has_tracepoints a.kernel_tracepoints)))))

-- The first error of the registrations, or 0.
abbrev pub first_error : (ℕ → ℤ) → ℤ
first_error answer =
    if eqb_ℤ (answer 0) (pos 0)
    then if eqb_ℤ (answer 1) (pos 0)
      then if eqb_ℤ (answer 2) (pos 0)
        then if eqb_ℤ (answer 3) (pos 0) then pos 0 else answer 3
        else answer 2
      else answer 1
    else answer 0

registered_four :
    (answer : ℕ → ℤ)
    → register_probes answer 0 no_probes
      ≡ (first_error answer, if eqb_ℤ (first_error answer) (pos 0) then all_probes else no_probes)
unfolding register_probes
registered_four answer = ground arith

-- The load gives -ENOMEM and holds nothing if a request fails or one of the four tracepoints is
-- missing; else, if a registration fails, the first error, and again it holds nothing and has no
-- probe registered; else 0, and it holds everything and has all four probes registered.
pub trace_runqlat_init-cases :
    (a : Answers)
    → trace_runqlat_init a ≡ (
        if requests_granted a
        then if eqb_ℤ (first_error a.register) (pos 0)
          then (pos 0, everything)
          else (first_error a.register, nothing)
        else (enomem, nothing))
unfolding trace_runqlat_init create_files start_probes remove_proc free_buf
trace_runqlat_init-cases a =
    rw (lookup_all a.kernel_tracepoints, registered_four a.register) (ground arith)

abbrev pub load_of : Bool → ℤ → ℤ × Resources
load_of granted e =
    if granted
    then if eqb_ℤ e (pos 0) then (pos 0, everything) else (e, nothing)
    else (enomem, nothing)

load_of-everything :
    (granted : Bool) (e : ℤ) → (load_of granted e).0 ≡ pos 0 → (load_of granted e).1 ≡ everything
load_of-everything false e h = cc h
load_of-everything true e h = elim (Bool-cases (eqb_ℤ e (pos 0))) [
  | inl z ↦ rw z refl
  | inr z ↦ cc (rw (rw z at h) at z)
]

-- A load that gives 0 holds everything, and the unload after it leaves nothing held and no probe
-- registered.
pub trace_runqlat_exit-frees :
    (a : Answers)
    → (trace_runqlat_init a).0 ≡ pos 0
    → ((trace_runqlat_init a).1 ≡ everything)
      × (trace_runqlat_exit (trace_runqlat_init a).1 ≡ nothing)
unfolding trace_runqlat_exit unregister_probes
trace_runqlat_exit-frees a h =
    let c = trace_runqlat_init-cases a in
    let e =
      ap (λ r. r.1) c
      ∙ load_of-everything (requests_granted a) (first_error a.register)
          (sym (ap (λ r. r.0) c) ∙ h) in
    (e, ap trace_runqlat_exit e)

-- ===== src/Irqoff/Init/Unwinding.antt =====
-- What the module holds after a load that failed, and after it is unloaded.
use uio_linux_sample.Prelude.{◌≡◌, refl, Bool, true, false, ◌&&◌, not, arith, All, if◌then◌else◌}
use uio_linux_sample.Irqoff.Control.{State}
use uio_linux_sample.Irqoff.Control.Steps.Invariant.{Holds, Inv, cancel-Holds}
use uio_linux_sample.Irqoff.Init.{
  Answers, nothing, everything, trace_irqoff_init, trace_irqoff_exit,
}

abbrev pub all_created : Answers → Bool
all_created a =
    a.create_distribute && a.create_trace_latency && a.create_enable && a.create_sampling_period

-- The load succeeds exactly if every request does, and then it holds everything. A failure leaves
-- no entry under /proc/trace_irqoff, but the per-CPU memory stays allocated whenever a file could
-- not be created; and where the directory could not be created, the memory is freed and the
-- unwinding removes three names from the root of /proc.
pub trace_irqoff_init-cases :
    (a : Answers)
    → let (ok, r) = trace_irqoff_init a in
      (ok ≡ a.alloc_percpu && (a.proc_mkdir && all_created a))
      × (r ≡ (
          if a.alloc_percpu && (a.proc_mkdir && all_created a)
          then everything
          else if a.alloc_percpu && (a.proc_mkdir && not (all_created a))
          then record nothing { percpu = true }
          else if a.alloc_percpu
          then record nothing { stray = 3 }
          else nothing))
unfolding trace_irqoff_init
trace_irqoff_init-cases a = ground arith

-- Unloading from a state that the invariant describes leaves no timer queued and no resource.
pub trace_irqoff_exit-frees :
    (s : State) (b : Bool)
    → s.settings.trace_enable ≡ b
    → Inv s
    → let (t, r) = trace_irqoff_exit s everything in
      All (Holds false s.settings.sampling_period) t.cpus × (r ≡ nothing)
unfolding trace_irqoff_exit
trace_irqoff_exit-frees s true e h =
    simp e (cancel-Holds true s.settings.sampling_period s.cpus (simp e at h), refl)
trace_irqoff_exit-frees s false e h = simp e (simp e at h, refl)

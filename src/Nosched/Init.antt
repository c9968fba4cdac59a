-- ===== src/Nosched/Init.antt =====
-- `trace_noschedule_init` and `trace_noschedule_exit`. The tracepoints of the kernel and its
-- answers are parameters.
pub mod Unwinding
use uio_linux_sample.Prelude.{
  ℕ, Bool, true, false, ◌&&◌, Option, none, some, List, [], ◌∷◌, if◌then◌else◌,
}
use uio_linux_sample.Prelude.Words.{ℤ}
use uio_linux_sample.Trace.Lookup.{
  TracepointEntry, Table, is_tracepoint_lookup_success, for_each_kernel_tracepoint,
}
use uio_linux_sample.Nosched.Control.{
  State, trace_nosched_hrtimer_cancel, trace_nosched_unregister_tp,
}

-- nosched_info as it is declared: the name "sched_switch", not looked up yet.
abbrev pub nosched_info : Table
nosched_info = record {
  tp_entries =
      record {
        name = some (
            b's' ∷ b'c' ∷ b'h' ∷ b'e' ∷ b'd' ∷ b'_' ∷ b's' ∷ b'w' ∷ b'i' ∷ b't' ∷ b'c' ∷ b'h' ∷ []);
        tp = none;
      }
      ∷ [];
  tp_initalized = 0;
}

pub record Answers : Type 0 where
  pub kernel_tracepoints : List (List ℕ × ℕ)
  pub alloc_percpu : Bool
  pub proc_mkdir : Bool
  pub create_threshold : Bool
  pub create_enable : Bool
  pub create_distribution : Bool
  pub create_stack_trace : Bool

-- The per-CPU memory, the directory, and the number of files in it.
pub record Resources : Type 0 where
  pub percpu : Bool
  pub dir : Bool
  pub files : ℕ

abbrev pub nothing : Resources
nothing = record { percpu = false; dir = false; files = 0 }

abbrev pub everything : Resources
everything = record { percpu = true; dir = true; files = 4 }

pub data Loaded : Type 0 where
  loaded enodev enomem : Loaded

-- The label `free_buf`.
unfoldable pub free_buf : Resources → Resources
free_buf r = record r { percpu = false }

-- The label `remove_proc`, which runs on into `free_buf`.
unfoldable pub remove_proc : Resources → Resources
unfolding free_buf
remove_proc r = free_buf (record r { dir = false; files = 0 })

unfoldable pub create_files : Answers → Resources → Loaded × Resources
unfolding remove_proc
create_files a r =
    if a.create_threshold
    then if a.create_enable
      then if a.create_distribution
        then if a.create_stack_trace
          then (loaded, record r { files = 4 })
          else (enomem, remove_proc (record r { files = 3 }))
        else (enomem, remove_proc (record r { files = 2 }))
      else (enomem, remove_proc (record r { files = 1 }))
    else (enomem, remove_proc r)

unfoldable pub trace_noschedule_init : Answers → Loaded × Resources
unfolding create_files
trace_noschedule_init a =
    if is_tracepoint_lookup_success (for_each_kernel_tracepoint a.kernel_tracepoints nosched_info)
    then if a.alloc_percpu
      then if a.proc_mkdir
        then create_files a (record { percpu = true; dir = true; files = 0 })
        else (enomem, free_buf (record { percpu = true; dir = false; files = 0 }))
      else (enomem, nothing)
    else (enodev, nothing)

-- trace_noschedule_exit: with tracing enabled, the timers and the probes go first.
unfoldable pub trace_noschedule_exit : (ℕ → ℤ) → State → Resources → State × Resources
unfolding free_buf
trace_noschedule_exit answer s r = (
  (if s.settings.trace_enable
      then record s {
        cpus = trace_nosched_hrtimer_cancel s.cpus;
        tps = (trace_nosched_unregister_tp answer 0 s.tps).1;
      }
      else s),
  free_buf (record r { dir = false; files = 0 }),
)

-- ===== src/Runqlat/Init.antt =====
-- `trace_runqlat_init` and `trace_runqlat_exit`. The tracepoints of the kernel and its answers are
-- parameters.
pub mod Unwinding
use uio_linux_sample.Prelude.{
  ℕ, zero, suc, ◌+◌, Bool, true, false, Option, none, some, List, [], ◌∷◌, if◌then◌else◌,
}
use uio_linux_sample.Prelude.Words.{ℤ, pos, negsuc, eqb_ℤ}
use uio_linux_sample.Trace.Lookup.{
  TracepointEntry, Table, is_tracepoint_lookup_success, for_each_kernel_tracepoint,
}

-- The names "sched_wakeup", "sched_wakeup_new", "sched_switch" and "sched_migrate_task".
abbrev pub sched_wakeup : List ℕ
sched_wakeup =
    b's' ∷ b'c' ∷ b'h' ∷ b'e' ∷ b'd' ∷ b'_' ∷ b'w' ∷ b'a' ∷ b'k' ∷ b'e' ∷ b'u' ∷ b'p' ∷ []

abbrev pub sched_wakeup_new : List ℕ
sched_wakeup_new =
    b's' ∷ b'c' ∷ b'h' ∷ b'e' ∷ b'd' ∷ b'_' ∷ b'w' ∷ b'a' ∷ b'k' ∷ b'e' ∷ b'u' ∷ b'p' ∷ b'_' ∷ b'n'
    ∷ b'e' ∷ b'w' ∷ []

abbrev pub sched_switch : List ℕ
sched_switch =
    b's' ∷ b'c' ∷ b'h' ∷ b'e' ∷ b'd' ∷ b'_' ∷ b's' ∷ b'w' ∷ b'i' ∷ b't' ∷ b'c' ∷ b'h' ∷ []

abbrev pub sched_migrate_task : List ℕ
sched_migrate_task =
    b's' ∷ b'c' ∷ b'h' ∷ b'e' ∷ b'd' ∷ b'_' ∷ b'm' ∷ b'i' ∷ b'g' ∷ b'r' ∷ b'a' ∷ b't' ∷ b'e' ∷ b'_'
    ∷ b't' ∷ b'a' ∷ b's' ∷ b'k' ∷ []

abbrev pub unresolved : List ℕ → TracepointEntry
unresolved name = record { name = some name; tp = none }

-- The tracepoints of `tps_probe` as they are declared.
abbrev pub tps_probe : Table
tps_probe = record {
  tp_entries =
      unresolved sched_wakeup
      ∷ unresolved sched_wakeup_new
      ∷ unresolved sched_switch
      ∷ unresolved sched_migrate_task
      ∷ [];
  tp_initalized = 0;
}

-- `register i` is the answer to the registration of probe `i`.
pub record Answers : Type 0 where
  pub kernel_tracepoints : List (List ℕ × ℕ)
  pub vzalloc : Bool
  pub proc_mkdir : Bool
  pub create_pid : Bool
  pub create_threshold : Bool
  pub create_runqlat : Bool
  pub create_distribution : Bool
  pub register : ℕ → ℤ

-- The buffer, the directory, the number of files in it, and for each tracepoint whether its probe
-- is registered.
pub record Resources : Type 0 where
  pub buf : Bool
  pub dir : Bool
  pub files : ℕ
  pub probes : List Bool

abbrev pub no_probes : List Bool
no_probes = false ∷ false ∷ false ∷ false ∷ []

abbrev pub all_probes : List Bool
all_probes = true ∷ true ∷ true ∷ true ∷ []

abbrev pub nothing : Resources
nothing = record { buf = false; dir = false; files = 0; probes = no_probes }

abbrev pub everything : Resources
everything = record { buf = true; dir = true; files = 4; probes = all_probes }

-- -ENOMEM
abbrev pub enomem : ℤ
enomem = negsuc 11

-- The loop that registers the probes from `i` on. A failure unregisters the earlier ones and
-- gives its error; otherwise the result is 0.
unfoldable pub register_probes : (ℕ → ℤ) → ℕ → List Bool → ℤ × List Bool
register_probes answer i [] = (pos 0, [])
register_probes answer i (b ∷ bs) =
    let (ret, rest) = register_probes answer (i + 1) bs in
    if eqb_ℤ (answer i) (pos 0) then (ret, eqb_ℤ ret (pos 0) ∷ rest) else (answer i, b ∷ bs)

-- The label `free_buf`.
unfoldable pub free_buf : Resources → Resources
free_buf r = record r { buf = false }

-- The label `remove_proc`, which runs on into `free_buf`.
unfoldable pub remove_proc : Resources → Resources
unfolding free_buf
remove_proc r = free_buf (record r { dir = false; files = 0 })

unfoldable pub start_probes : Answers → Resources → ℤ × Resources
unfolding remove_proc
start_probes a r =
    let (ret, probes) = register_probes a.register 0 r.probes in
    if eqb_ℤ ret (pos 0)
    then (pos 0, record r { probes = probes })
    else (ret, remove_proc (record r { probes = probes }))

unfoldable pub create_files : Answers → Resources → ℤ × Resources
unfolding remove_proc
create_files a r =
    if a.create_pid
    then if a.create_threshold
      then if a.create_runqlat
        then if a.create_distribution
          then if is_tracepoint_lookup_success
              (for_each_kernel_tracepoint a.kernel_tracepoints tps_probe)
            then start_probes a (record r { files = 4 })
            else (enomem, remove_proc (record r { files = 4 }))
          else (enomem, remove_proc (record r { files = 3 }))
        else (enomem, remove_proc (record r { files = 2 }))
      else (enomem, remove_proc (record r { files = 1 }))
    else (enomem, remove_proc r)

unfoldable pub trace_runqlat_init : Answers → ℤ × Resources
trace_runqlat_init a =
    if a.vzalloc
    then if a.proc_mkdir
      then create_files a (record { buf = true; dir = true; files = 0; probes = no_probes })
      else (enomem, free_buf (record { buf = true; dir = false; files = 0; probes = no_probes }))
    else (enomem, nothing)

-- The loop that unregisters the probes; what it answers is not looked at.
unfoldable pub unregister_probes : List Bool → List Bool
unregister_probes [] = []
unregister_probes (b ∷ bs) = false ∷ unregister_probes bs

unfoldable pub trace_runqlat_exit : Resources → Resources
trace_runqlat_exit r = record r {
  probes = unregister_probes r.probes;
  dir = false;
  files = 0;
  buf = false;
}

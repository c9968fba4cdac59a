-- ===== src/Irqoff/Init.antt =====
-- `trace_irqoff_init` and `trace_irqoff_exit`: which resources they take and give back. The
-- answers of the kernel are a parameter.
pub mod Unwinding
use uio_linux_sample.Prelude.{
  ℕ, ◌+◌, Bool, true, false, Option, none, some, List, [], ◌∷◌, map, if◌then◌else◌,
}
use uio_linux_sample.Irqoff.Control.{State, trace_irqoff_cancel_timers}

-- Whether each request to the kernel succeeds.
pub record Answers : Type 0 where
  pub alloc_percpu : Bool
  pub proc_mkdir : Bool
  pub create_distribute : Bool
  pub create_trace_latency : Bool
  pub create_enable : Bool
  pub create_sampling_period : Bool

-- What the module holds: its per-CPU memory, its directory under /proc and the files in it.
-- `stray` counts the calls of remove_proc_entry with no parent directory, which look for the
-- name in /proc itself.
pub record Resources : Type 0 where
  pub percpu : Bool
  pub dir : Bool
  pub distribute : Bool
  pub trace_latency : Bool
  pub enable : Bool
  pub sampling_period : Bool
  pub stray : ℕ

abbrev pub nothing : Resources
nothing = record {
  percpu = false;
  dir = false;
  distribute = false;
  trace_latency = false;
  enable = false;
  sampling_period = false;
  stray = 0;
}

abbrev pub everything : Resources
everything = record {
  percpu = true;
  dir = true;
  distribute = true;
  trace_latency = true;
  enable = true;
  sampling_period = true;
  stray = 0;
}

-- remove_proc_entry(name, parent_dir): `removed` is what it leaves if the directory is there.
abbrev remove_proc_entry : Resources → Resources → Resources
remove_proc_entry r removed = if r.dir then removed else record r { stray = r.stray + 1 }

-- The labels at the end of trace_irqoff_init, each of which runs on into the next.
unfoldable pub remove_trace_irqoff : Resources → Resources
remove_trace_irqoff r = record r {
  dir = false;
  distribute = false;
  trace_latency = false;
  enable = false;
  sampling_period = false;
}

unfoldable pub remove_distribute : Resources → Resources
unfolding remove_trace_irqoff
remove_distribute r = remove_trace_irqoff (remove_proc_entry r (record r { distribute = false }))

unfoldable pub remove_trace_latency : Resources → Resources
unfolding remove_distribute
remove_trace_latency r =
    remove_distribute (remove_proc_entry r (record r { trace_latency = false }))

unfoldable pub remove_enable : Resources → Resources
unfolding remove_trace_latency
remove_enable r = remove_trace_latency (remove_proc_entry r (record r { enable = false }))

unfoldable pub free_percpu : Resources → Resources
unfolding remove_enable
free_percpu r = remove_enable (record r { percpu = false })

-- `true` is the return value 0, `false` is -ENOMEM.
unfoldable pub trace_irqoff_init : Answers → Bool × Resources
unfolding free_percpu
trace_irqoff_init a =
    if a.alloc_percpu
    then (let r1 = record nothing { percpu = true } in
        if a.proc_mkdir
        then (let r2 = record r1 { dir = true } in
            if a.create_distribute
            then (let r3 = record r2 { distribute = true } in
                if a.create_trace_latency
                then (let r4 = record r3 { trace_latency = true } in
                    if a.create_enable
                    then (let r5 = record r4 { enable = true } in
                        if a.create_sampling_period
                        then (true, record r5 { sampling_period = true })
                        else (false, remove_enable r5))
                    else (false, remove_trace_latency r4))
                else (false, remove_distribute r3))
            else (false, remove_trace_irqoff r2))
        else (false, free_percpu r1))
    else (false, nothing)

-- trace_irqoff_exit: the timers are cancelled where they run, then the directory and the memory go.
unfoldable pub trace_irqoff_exit : State → Resources → State × Resources
unfolding remove_trace_irqoff trace_irqoff_cancel_timers
trace_irqoff_exit s r = (
  (if s.settings.trace_enable then record s { cpus = trace_irqoff_cancel_timers s.cpus } else s),
  record (remove_trace_irqoff r) { percpu = false },
)

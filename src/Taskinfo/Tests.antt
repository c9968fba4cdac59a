-- ===== src/Taskinfo/Tests.antt =====
-- A process that sleeps, with a thread that runs.
use uio_linux_sample.Prelude.{ℕ, ◌≡◌, [], ◌∷◌, none, arith, ◌≤◌, ◌↔◌, get_elem?}
use uio_linux_sample.Prelude.Words.{ℤ, pos, negsuc}
use uio_linux_sample.Trace.Shift.{Halves}
use uio_linux_sample.Taskinfo.State.{task_state_array, get_task_state, get_task_state-bounds}
use uio_linux_sample.Taskinfo.Show.{Task, Found, task, State}

-- A zombie of the newer kernels, where EXIT_ZOMBIE is 32.
state_example :
    (k : ℕ) × (get_task_state 127 0 32 ≡ get_elem? task_state_array k)
    × Halves 1 32 k
    × ((get_task_state 127 0 32 ≡ none) ↔ (64 ≤ 32))
state_example = get_task_state-bounds 127 0 32 (omega arith)

abbrev sleeper : Task
sleeper = record {
  comm = 97 ∷ [];
  pid = pos 7;
  parent_pid = pos 1;
  state = 1;
  exit_state = 0;
  prio = pos 120;
  policy = 0;
  mm = none;
  run_delay = 5;
  utime = 6;
  stime = 7;
  start_time = 8;
}

abbrev runner : Task
runner = record sleeper { pid = pos 8; state = 0 }

abbrev found_sleeper : ℤ → Found
found_sleeper pid = task sleeper (runner ∷ [])

abbrev unset : State
unset = record { pid = negsuc 0; pids = 0; tasks = 0 }

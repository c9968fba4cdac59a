-- ===== src/Avglat/Tests.antt =====
-- A process, its average and the files.
use uio_linux_sample.Prelude.{◌≡◌, refl, [], ◌∷◌, true, false}
use uio_linux_sample.Prelude.Words.{ℤ, pos}
use uio_linux_sample.Avglat.Module.{Task, Found, task, State, value, get_tids_lat}
use uio_linux_sample.Avglat.Module.Laws.{get_tids_lat-average}
use uio_linux_sample.Avglat.Files.{Answers}

-- A process with two children, the second of two threads.
abbrev family : Task
family = record {
  run_delay = 30;
  thread_group = 7 ∷ [];
  children =
      record { run_delay = 10; thread_group = [] }
      ∷ record { run_delay = 20; thread_group = 40 ∷ [] }
      ∷ [];
}

abbrev found_family : ℤ → Found
found_family pid = task family

abbrev started : State
started = record { info = record { pid = pos 1; lat = 0 }; pids = 0; tasks = 0 }

-- The mean over four tasks is 25, over the three that are counted it is 33.
average_example : (get_tids_lat found_family (pos 1) started).0 ≡ value 33
average_example = get_tids_lat-average found_family (pos 1) family started refl refl

-- Only the second file cannot be created, and there is no directory.
abbrev no_directory : Answers
no_directory = record { proc_mkdir = false; create_pid = true; create_runqlat = false }

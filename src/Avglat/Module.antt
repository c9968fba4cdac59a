-- ===== src/Avglat/Module.antt =====
-- The average run delay of a process: tgid_avglat/tgid_avglat.c. Tasks and pids are the kernel's;
-- `find` answers find_get_pid and get_pid_task.
pub mod Laws
use uio_linux_sample.Prelude.{
  ℕ, zero, suc, ◌+◌, ◌/◌, List, [], ◌∷◌, Bool, true, false, Option, none, some, ◌==◌, if◌then◌else◌,
}
use uio_linux_sample.Prelude.Words.{ℤ, pos, negsuc, u64}

-- A child: its own delay and those of its other threads.
pub record Child : Type 0 where
  pub run_delay : ℕ
  pub thread_group : List ℕ

pub record Task : Type 0 where
  pub run_delay : ℕ
  pub thread_group : List ℕ
  pub children : List Child

-- No such pid, a pid whose task is gone, or the task.
pub data Found : Type 0 where
  no_pid no_task : Found
  task : Task → Found

pub record LatInfo : Type 0 where
  pub pid : ℤ
  pub lat : ℕ

-- The module's data and the references it holds on pids and on tasks.
pub record State : Type 0 where
  pub info : LatInfo
  pub pids : ℕ
  pub tasks : ℕ

-- What a function gives: a value, or a division by zero in the kernel.
pub data Outcome : Type 0 where
  value : ℕ → Outcome
  divides_by_zero : Outcome

abbrev pub invalid_pid : ℤ
invalid_pid = negsuc 0

abbrev pub is_invalid : ℤ → Bool
is_invalid (pos n) = false
is_invalid (negsuc n) = n == 0

abbrev pub l_info : LatInfo
l_info = record { pid = invalid_pid; lat = 0 }

-- The sum and the number so far.
abbrev pub threads_loop : List ℕ → ℕ × ℕ → ℕ × ℕ
threads_loop [] a = a
threads_loop (d ∷ l) a = threads_loop l (u64 (a.0 + d), suc a.1)

abbrev pub children_loop : List Child → ℕ × ℕ → ℕ × ℕ
children_loop [] a = a
children_loop (c ∷ l) a =
    children_loop l (threads_loop c.thread_group (u64 (a.0 + c.run_delay), suc a.1))

-- The own threads are read only when there is no child.
abbrev pub own_threads : List Child → List ℕ → ℕ × ℕ → ℕ × ℕ
own_threads [] l a = threads_loop l a
own_threads (c ∷ cs) l a = a

abbrev pub quotient_of : ℕ × ℕ → Outcome
quotient_of (sum, zero) = divides_by_zero
quotient_of (sum, suc n) = value (sum / suc n)

abbrev pub average : Task → Outcome
average t =
    quotient_of
      (own_threads t.children t.thread_group (children_loop t.children (u64 t.run_delay, 0)))

abbrev pub after_find : Found → State → Outcome × State
after_find no_pid s = (value 0, s)
after_find no_task s = (value 0, record s { pids = s.pids + 1 })
after_find (task t) s = (average t, record s { pids = s.pids + 1; tasks = s.tasks + 1 })

unfoldable pub get_tids_lat : (ℤ → Found) → ℤ → State → Outcome × State
get_tids_lat find pid s = if is_invalid pid then (value 0, s) else after_find (find pid) s

unfoldable pub lat_show : (ℤ → Found) → State → Outcome × State
lat_show find s = get_tids_lat find s.info.pid s

abbrev pub pid_show : State → ℤ
pid_show s = s.info.pid

-- `parsed` is what kstrtoint_from_user reads, `none` when it fails; EINVAL is 22.
unfoldable pub pid_write : Option ℤ → ℕ → State → ℤ × State
pid_write none count s = (negsuc 21, s)
pid_write (some pid) count s = (pos count, record s { info = record { pid = pid; lat = 0 } })

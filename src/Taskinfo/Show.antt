-- ===== src/Taskinfo/Show.antt =====
-- The files of taskinfo.c: pid and taskinfo, with what is printed of a task.
use uio_linux_sample.Prelude.{
  ℕ, ◌+◌, ◌<◌, ◌≡◌, ◌≢◌, refl, ap, arith, List, [], ◌∷◌, map, Option, none, some, All,
}
use uio_linux_sample.Prelude.Words.{ℤ, pos, negsuc}
use uio_linux_sample.Avglat.Files.{Answers, Entry, pid_runqlat_init, pid_runqlat_exit}
use uio_linux_sample.Taskinfo.State.{TaskState, state_of, get_task_state, get_task_state-bounds}

pub record Mm : Type 0 where
  pub start_code : ℕ
  pub end_code : ℕ
  pub start_data : ℕ
  pub end_data : ℕ
  pub start_brk : ℕ
  pub brk : ℕ
  pub start_stack : ℕ

-- The name is a list of bytes.
pub record Task : Type 0 where
  pub comm : List ℕ
  pub pid : ℤ
  pub parent_pid : ℤ
  pub state : ℕ
  pub exit_state : ℕ
  pub prio : ℤ
  pub policy : ℕ
  pub mm : Option Mm
  pub run_delay : ℕ
  pub utime : ℕ
  pub stime : ℕ
  pub start_time : ℕ

pub record Line : Type 0 where
  pub comm : List ℕ
  pub pid : ℤ
  pub parent_pid : ℤ
  pub state : Option TaskState
  pub prio : ℤ
  pub policy : ℕ
  pub mm : Mm
  pub run_delay : ℕ
  pub utime : ℕ
  pub stime : ℕ
  pub start_time : ℕ

-- A task of the kernel has no memory of its own.
abbrev pub get_task_mm : Option Mm → Mm
get_task_mm none = record {
  start_code = 0;
  end_code = 0;
  start_data = 0;
  end_data = 0;
  start_brk = 0;
  brk = 0;
  start_stack = 0;
}
get_task_mm (some mm) = mm

abbrev pub print_info : ℕ → Task → Line
print_info task_report t = record {
  comm = t.comm;
  pid = t.pid;
  parent_pid = t.parent_pid;
  state = get_task_state task_report t.state t.exit_state;
  prio = t.prio;
  policy = t.policy;
  mm = get_task_mm t.mm;
  run_delay = t.run_delay;
  utime = t.utime;
  stime = t.stime;
  start_time = t.start_time;
}

-- A line of taskall_init.
pub record AllLine : Type 0 where
  pub comm : List ℕ
  pub pid : ℤ
  pub parent_pid : ℤ
  pub state : Option TaskState
  pub prio : ℤ
  pub policy : ℕ
  pub mm : Mm
  pub run_delay : ℕ

abbrev pub all_line : ℕ → Task → AllLine
all_line task_report t = record {
  comm = t.comm;
  pid = t.pid;
  parent_pid = t.parent_pid;
  state = get_task_state task_report t.state t.exit_state;
  prio = t.prio;
  policy = t.policy;
  mm = get_task_mm t.mm;
  run_delay = t.run_delay;
}

-- for_each_process; the heading is left out. Nothing calls this function.
unfoldable pub taskall_init : ℕ → List Task → List AllLine
taskall_init task_report processes = map (all_line task_report) processes

-- What find_get_pid and get_pid_task find: a task with the other threads of its group.
pub data Found : Type 0 where
  no_pid no_task : Found
  task : Task → List Task → Found

-- The pid that is set, and the references held on pids and on tasks.
pub record State : Type 0 where
  pub pid : ℤ
  pub pids : ℕ
  pub tasks : ℕ

-- `none` is the end of the function without a value.
pub record Shown : Type 0 where
  pub ret : Option ℤ
  pub lines : List Line

abbrev pub show_found : ℕ → Found → State → Shown × State
show_found task_report no_pid s = (record { ret = some (pos 0); lines = [] }, s)
show_found task_report no_task s =
    (record { ret = some (pos 0); lines = [] }, record s { pids = s.pids + 1 })
show_found task_report (task t threads) s = (
  record { ret = none; lines = map (print_info task_report) (t ∷ threads) },
  record s { pids = s.pids + 1; tasks = s.tasks + 1 },
)

unfoldable pub taskinfo_show : ℕ → (ℤ → Found) → State → Shown × State
taskinfo_show task_report find s = show_found task_report (find s.pid) s

abbrev pub pid_show : State → ℤ
pid_show s = s.pid

-- `parsed` is what kstrtoint_from_user reads; EINVAL is 22.
unfoldable pub pid_store : Option ℤ → ℕ → State → ℤ × State
pid_store none count s = (negsuc 21, s)
pid_store (some pid) count s = (pos count, record s { pid = pid })

-- The calls are those of tgid_avglat.c with the names task_info and taskinfo.
abbrev pub taskinfo_init : Answers → Option ℤ × List Entry
taskinfo_init a = pid_runqlat_init a

abbrev pub taskinfo_exit : List Entry → List Entry
taskinfo_exit l = pid_runqlat_exit l

-- A task whose state word is below 64.
abbrev pub IsListed : ℕ → Task → Type 0
IsListed task_report t = state_of task_report t.state t.exit_state < 64

abbrev pub IsNamed : Line → Type 0
IsNamed l = l.state ≢ none

print_info-IsNamed :
    (task_report : ℕ) (t : Task) → IsListed task_report t → IsNamed (print_info task_report t)
print_info-IsNamed task_report t h e =
    let (k, same, halves, iff) =
      get_task_state-bounds task_report t.state t.exit_state (omega (arith, h)) in
    omega (arith, h, iff.0 e)

lines-IsNamed :
    (task_report : ℕ) (l : List Task)
    → All (IsListed task_report) l
    → All IsNamed (map (print_info task_report) l)
lines-IsNamed task_report [] h = tt
lines-IsNamed task_report (t ∷ l) h =
    (print_info-IsNamed task_report t h.0, lines-IsNamed task_report l h.1)

pids-print_info :
    (task_report : ℕ) (l : List Task)
    → map (λ x. x.pid) (map (print_info task_report) l) ≡ map (λ u. u.pid) l
pids-print_info task_report [] = refl
pids-print_info task_report (t ∷ l) = ap (◌∷◌ t.pid) (pids-print_info task_report l)

-- After the pid of a process is written to the file pid, the file taskinfo has a line for the
-- process and one for each of its other threads, in their order, and returns without a value; the
-- name of each state is in the array if all state words are below 64.
pub taskinfo_show-IsNamed :
    (task_report : ℕ) (find : ℤ → Found) (pid : ℤ) (count : ℕ) (t : Task) (threads : List Task)
    (s : State)
    → find pid ≡ task t threads
    → All (IsListed task_report) (t ∷ threads)
    → let shown = (taskinfo_show task_report find (pid_store (some pid) count s).1).0 in
      (shown.ret ≡ none)
      × (map (λ l. l.pid) shown.lines ≡ t.pid ∷ map (λ u. u.pid) threads)
      × All IsNamed shown.lines
unfolding taskinfo_show pid_store
taskinfo_show-IsNamed task_report find pid count t threads s h k =
    rw (show_found, h)
      (
        refl,
        ap (◌∷◌ t.pid) (pids-print_info task_report threads),
        lines-IsNamed task_report (t ∷ threads) k,
      )

-- ===== src/Hrtimer.antt =====
-- hrtimer/hrtimer.c: a timer whose callback queues a work item, which starts the timer again and
-- prints at every tenth run.
pub mod Laws
mod Tests
use uio_linux_sample.Prelude.{
  ℕ, suc, ◌+◌, ◌-◌, ◌*◌, ◌/◌, ◌%◌, ◌^◌, ◌≡◌, Bool, true, false, ◌==◌, if◌then◌else◌,
}
use uio_linux_sample.Prelude.Words.{u32, u64, sub64}

abbrev pub count_interval : ℕ
count_interval = 10

pub record Timespec : Type 0 where
  pub tv_sec : ℕ
  pub tv_nsec : ℕ

abbrev pub diff_tv : Timespec → Timespec → ℕ
diff_tv start end =
    u64 (u64 (sub64 end.tv_sec start.tv_sec * 1000000000) + sub64 end.tv_nsec start.tv_nsec)

-- `armed` is 1 while the timer is queued and `pending` 1 while the work item is. `ready` is whether
-- INIT_WORK was called and `loaded` whether the module is there. `lines` and `runs` count what was
-- printed and how often the work item ran; the module does not keep them.
pub record State : Type 0 where
  pub armed : ℕ
  pub pending : ℕ
  pub ready : Bool
  pub loaded : Bool
  pub count : ℕ
  pub uptime_last : Timespec
  pub lines : ℕ
  pub runs : ℕ

-- module_hrtimer_init up to the start of the timer.
abbrev pub started : Timespec → State
started uptime = record {
  armed = 1;
  pending = 0;
  ready = false;
  loaded = true;
  count = 0;
  uptime_last = uptime;
  lines = 0;
  runs = 0;
}

-- schedule_work does nothing for a work item that is queued.
unfoldable pub my_hrtimer_callback : State → State
my_hrtimer_callback s = record s { armed = 0; pending = 1 }

unfoldable pub wq_func_hrtimer : Timespec → State → State
wq_func_hrtimer uptime s =
    let run = record s { armed = 1; pending = 0; count = u32 (s.count + 1); runs = suc s.runs } in
    if s.count % count_interval == 0
    then record run { uptime_last = uptime; lines = suc s.lines }
    else run

abbrev pub interval_delay : Timespec → Timespec → ℕ
interval_delay last uptime =
    sub64 (diff_tv last uptime) (1 * 1000 * count_interval) / count_interval

abbrev pub module_hrtimer_exit : State → State
module_hrtimer_exit s = record s { armed = 0; loaded = false }

-- An expiry before INIT_WORK, the last call of the load, would queue an item that is not set up,
-- and is left out.
pub data Step (s : State) : State → Type 0 where
  inits_work : s.ready ≡ false → Step s (record s { ready = true })
  expires : s.ready ≡ true → s.armed ≡ 1 → Step s (my_hrtimer_callback s)
  works : (uptime : Timespec) → s.pending ≡ 1 → Step s (wq_func_hrtimer uptime s)

pub data Steps (s : State) : State → Type 0 where
  here : Steps s s
  more : {t u : State} → Steps s t → Step t u → Steps s u

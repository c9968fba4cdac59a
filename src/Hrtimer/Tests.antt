-- ===== src/Hrtimer/Tests.antt =====
-- The first run of the work item.
use uio_linux_sample.Prelude.{ℕ, ◌+◌, ◌/◌, ◌≡◌, refl, true, arith}
use uio_linux_sample.Hrtimer.{
  Timespec, State, started, Step, inits_work, expires, works, Steps, here, more,
}
use uio_linux_sample.Hrtimer.Laws.{Steps-printed}

abbrev at_second : ℕ → Timespec
at_second n = record { tv_sec = n; tv_nsec = 0 }

abbrev ran_once : State
ran_once = record {
  armed = 1;
  pending = 0;
  ready = true;
  loaded = true;
  count = 1;
  uptime_last = at_second 2;
  lines = 1;
  runs = 1;
}

ran_once_run : Steps (started (at_second 1)) ran_once
unfolding uio_linux_sample.Hrtimer.my_hrtimer_callback uio_linux_sample.Hrtimer.wq_func_hrtimer
ran_once_run =
    more (more (more here (inits_work refl)) (expires refl refl)) (works (at_second 2) refl)

printed_example : (1 + 0 ≡ 1) × (ran_once.lines ≡ (1 + 9) / 10)
printed_example = Steps-printed (at_second 1) ran_once_run (omega arith)

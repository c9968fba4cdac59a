-- ===== src/Wakeup/Tests.antt =====
-- Readers that wait.
use uio_linux_sample.Prelude.{◌<◌, ◌≡◌, ◌≢◌, ◌⊎◌, ◌+◌, refl, arith, some}
use uio_linux_sample.Wakeup.{
  State, n_code, y_code, at_load, write_flag, write_wake, reads, sleeps, breaks_off, passes, stores,
  wakes_up, Steps, here, more,
}
use uio_linux_sample.Wakeup.Laws.{Steps-wait}
use uio_linux_sample.Wakeup.Wakes.{Steps-none_sleeps}

lowered : n_code ≢ y_code
lowered = omega arith

-- Two readers fall asleep.
abbrev two_sleep : State
two_sleep = record at_load { sleeping = 2 }

two_sleep-Steps : Steps at_load two_sleep
two_sleep-Steps =
    more (more (more (more here reads) (sleeps 0 refl lowered)) reads) (sleeps 0 refl lowered)

-- A writer of 'y' wakes them, and one of them passes.
abbrev one_passes : State
one_passes = record at_load { flag = y_code; testing = 1; passed = 1; wakes = 1 }

one_passes-Steps : Steps at_load one_passes
unfolding write_flag write_wake
one_passes-Steps =
    more (more (more two_sleep-Steps (stores (some y_code))) (wakes_up 1 0 refl))
      (passes 1 refl refl)

none_sleeps_example : (one_passes.sleeping ≡ 0) ⊎ (0 < one_passes.writing)
none_sleeps_example = Steps-none_sleeps one_passes-Steps refl

-- A signal breaks off one of the two waits.
abbrev broken_off : State
broken_off = record at_load { sleeping = 1; passed = 1; signals = 1 }

broken_off-Steps : Steps at_load broken_off
broken_off-Steps = more two_sleep-Steps (breaks_off 1 refl)

wait_example : broken_off.passed + broken_off.returned ≡ broken_off.signals
wait_example = Steps-wait broken_off-Steps refl

-- ===== src/Futex/Tests.antt =====
-- A wait that is woken, and a wake that is lost.
use uio_linux_sample.Prelude.{◌≡◌, ◌≢◌, refl, arith}
use uio_linux_sample.Futex.{
  System, finished, started, expecting, queued, woken, interrupted, at_fork, stores_total,
  stores_item, wakes, loads, waits, Steps, here, more,
}
use uio_linux_sample.Futex.Laws.{
  Steps-woken, nothing, then_step, Missed, to_load, Unsignalled-Missed,
}

abbrev after_wake : System
after_wake = record { mem = record { total = 3; items = 3 }; child = finished; parent = woken }

after_wake_run : Steps (at_fork 0) after_wake
after_wake_run =
    more
      (more
        (more
          (more (more (more (more here (loads refl)) (waits refl)) (stores_total refl))
            (stores_item refl (omega arith)))
          (stores_item refl (omega arith)))
        (stores_item refl (omega arith)))
      (wakes refl refl)

woken_example : (after_wake.mem.total ≡ 3) × (after_wake.mem.items ≡ 3)
woken_example = Steps-woken 0 after_wake_run refl

abbrev late : System
late = record { mem = record { total = 3; items = 3 }; child = finished; parent = started }

abbrev waiting : System
waiting = record late { parent = queued }

late-Missed : Missed late
late-Missed = record { ended = refl; stored = refl; stuck = to_load }

not_loaded : expecting 3 ≢ interrupted
not_loaded e = cc

not_queued : queued ≢ interrupted
not_queued e = cc

lost_wake_example : Missed waiting
lost_wake_example =
    Unsignalled-Missed
      (then_step (then_step nothing (loads refl) not_loaded) (waits refl) not_queued) late-Missed

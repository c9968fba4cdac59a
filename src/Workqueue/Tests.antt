-- ===== src/Workqueue/Tests.antt =====
-- ESC, its turn, another key, and ESC twice without a turn.
use uio_linux_sample.Prelude.{◌≡◌, refl, none, some, [], ◌∷◌}
use uio_linux_sample.Workqueue.{at_load, init_work, myirq_handler, mywork_handler, schedule_work}
use uio_linux_sample.Workqueue.Laws.{irq, turn, run}

one_run :
    run (irq 1226 1 ∷ turn ∷ irq 1226 2 ∷ irq 7 1 ∷ []) at_load ≡ some (record at_load { runs = 1 })
unfolding myirq_handler init_work schedule_work mywork_handler
one_run = refl

pressed_twice : run (irq 1226 1 ∷ irq 1226 1 ∷ []) at_load ≡ none
unfolding myirq_handler init_work schedule_work
pressed_twice = refl

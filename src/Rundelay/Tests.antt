-- ===== src/Rundelay/Tests.antt =====
-- Lines and samples of a thread.
use uio_linux_sample.Prelude.{ℕ, ◌≡◌, some, arith, [], ◌∷◌}
use uio_linux_sample.Rundelay.Stats.{Stats, get_stats}
use uio_linux_sample.Rundelay.Decimal.{line_of, get_stats-line_of}
use uio_linux_sample.Rundelay.Samples.{samples}
use uio_linux_sample.Rundelay.Sums.{waits, average_wait, samples-average}

abbrev at_ticks : ℕ → ℕ → Stats
at_ticks run wait = record { run_ticks = run; wait_ticks = wait; nran = 4 }

stats_example : get_stats (line_of (at_ticks 1205 77)) ≡ at_ticks 1205 77
stats_example = get_stats-line_of (at_ticks 1205 77) (omega arith) (omega arith) (omega arith)

sums_example :
    let out = samples 2 (at_ticks 10 5 ∷ at_ticks 20 8 ∷ at_ticks 30 15 ∷ []) in
    average_wait out ≡ some (waits out)
sums_example =
    samples-average (at_ticks 10 5) (at_ticks 20 8) (at_ticks 30 15 ∷ []) (omega arith)
      ((omega arith, omega arith), ((omega arith, omega arith), ((omega arith, omega arith), tt)))

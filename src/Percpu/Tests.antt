-- ===== src/Percpu/Tests.antt =====
-- A load on the third of four CPUs, and one that finds no memory for the second allocation.
use uio_linux_sample.Prelude.{◌≡◌, refl, true, false, none}
use uio_linux_sample.Percpu.{at_load, second_half, percpu_init}

second_fails : percpu_init true false 4 2 (at_load 4) ≡ none
unfolding percpu_init second_half
second_fails = refl

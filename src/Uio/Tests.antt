-- ===== src/Uio/Tests.antt =====
-- Two interrupts, and then a read that fails.
use uio_linux_sample.Prelude.{ℕ, ◌/◌, ◌%◌, ◌≡◌, refl, some, List, [], ◌∷◌}
use uio_linux_sample.Prelude.Words.{pos, negsuc}
use uio_linux_sample.Uio.Wait.{
  Round, started, interrupts, writes_command, waits, enable_intx, wait, wait_from, expected,
  wait-expected,
}

abbrev rounds : List Round
rounds =
    record { pwrite = pos 1; read = pos 4; icount = 7 }
    ∷ record { pwrite = pos 1; read = pos 4; icount = 8 }
    ∷ []

wait_example :
    (c : ℕ) × (wait (some 5) 0 rounds ≡ expected c started rounds)
    × ((c / 4) % 2 ≡ 0)
    × (c % 4 ≡ 5 % 4)
    × (c / 8 ≡ 5 / 8)
wait_example = wait-expected 5 0 rounds ((refl, refl), ((refl, refl), tt))

read_fails :
    wait (some 5) 0 (
      record { pwrite = pos 1; read = pos 4; icount = 7 }
      ∷ record { pwrite = pos 1; read = negsuc 0; icount = 0 }
      ∷ rounds)
    ≡ started ∷ writes_command 1 ∷ waits ∷ interrupts 7 ∷ writes_command 1 ∷ waits ∷ []
unfolding wait wait_from enable_intx
read_fails = refl

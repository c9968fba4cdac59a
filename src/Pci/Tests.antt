-- ===== src/Pci/Tests.antt =====
-- A list of capabilities, and one that leads back.
use uio_linux_sample.Prelude.{ℕ, ◌≡◌, ◌+◌, ◌*◌, ◌<◌, ◌↔◌, refl, arith, ◌==◌, if◌then◌else◌}
use uio_linux_sample.Pci.Scan.{found, runs_on, search}
use uio_linux_sample.Pci.Walk.{id, Walk, stays, follows, search-found, search-endless}

-- At word 16 an MSI capability that points to byte 96, at word 24 a PCI Express capability.
abbrev config : ℕ → ℕ
config p = if p == 16 then 5 + 96 * 256 else if p == 24 then 16 else 0

found_example :
    (search 3 config 16 ≡ found 24)
    ↔ ((n : ℕ) × Walk config n 16 24 × (n < 3) × (id config 24 ≡ 16))
found_example = search-found config 3 16 24

found_test : search 3 config 16 ≡ found 24
unfolding search
found_test = refl

-- At word 16 a capability that points to itself.
abbrev circular : ℕ → ℕ
circular p = 5 + 64 * 256

circle : Walk circular 1 16 16
circle = follows (omega arith) (omega arith) stays

endless_example : search 100 circular 16 ≡ runs_on
endless_example = search-endless circular 100 1 0 16 16 circle circle

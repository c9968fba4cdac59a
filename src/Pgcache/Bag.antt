-- ===== src/Pgcache/Bag.antt =====
-- What a write of the sysctl of cache_scan.c lists, up to the order in which the kernel gives files
-- and inodes.
pub mod Pages
pub mod Found
use uio_linux_sample.Prelude.{ℕ, ◌≤◌, List, [], ◌∷◌, All}

abbrev pub Descending : List ℕ → Type 0
Descending [] = Unit
Descending (x ∷ xs) = All (λ y. y ≤ x) xs × Descending xs

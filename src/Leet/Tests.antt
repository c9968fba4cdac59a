-- ===== src/Leet/Tests.antt =====
-- A search and a staircase.
use uio_linux_sample.Prelude.{ℕ, ◌≡◌, refl, List, [], ◌∷◌, arith, length}
use uio_linux_sample.Prelude.Words.{ℤ, pos, negsuc}
use uio_linux_sample.Leet.Search.{search, returns}
use uio_linux_sample.Leet.Search.Sorted.{IsSorted, Fits}
use uio_linux_sample.Leet.Search.Laws.{search-Fits}

abbrev nums : List ℤ
nums = negsuc 0 ∷ pos 3 ∷ pos 5 ∷ []

nums-IsSorted : IsSorted nums
nums-IsSorted = ((refl, (refl, tt)), ((refl, tt), (tt, tt)))

search_example : (r : ℕ) × (search nums (length nums) (pos 4) ≡ returns r) × Fits nums (pos 4) r
search_example = search-Fits nums (pos 4) nums-IsSorted (omega arith)

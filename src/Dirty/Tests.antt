-- ===== src/Dirty/Tests.antt =====
-- The five sizes, and one that is not known.
use uio_linux_sample.Prelude.{
  ℕ, ◌*◌, ◌^◌, ◌≡◌, refl, none, some, List, [], ◌∷◌, length, get_or, replicate,
}
use uio_linux_sample.Dirty.{
  buf_length, name_128m, name_256m, name_512m, name_1g, name_2g, compare_result, buf_num, start,
}
use uio_linux_sample.Dirty.Laws.{passes, is_first, byte_after, passes-bytes}

sizes :
    (buf_num (compare_result name_128m) * buf_length ≡ 128 * 2 ^ 20)
    × (buf_num (compare_result name_256m) * buf_length ≡ 256 * 2 ^ 20)
    × (buf_num (compare_result name_512m) * buf_length ≡ 512 * 2 ^ 20)
    × (buf_num (compare_result name_1g) * buf_length ≡ 2 ^ 30)
    × (buf_num (compare_result name_2g) * buf_length ≡ 2 * 2 ^ 30)
unfolding buf_num compare_result
sizes = (refl, refl, refl, refl, refl)

-- The size 512 of the printed hint has no unit.
not_known : start (b'5' ∷ b'1' ∷ b'2' ∷ []) ≡ none
unfolding start buf_num compare_result
not_known = refl

started_1g : start name_1g ≡ some (262144, replicate (262144 * buf_length) 0)
unfolding start buf_num compare_result
started_1g = refl

passes_example :
    (after : List ℕ) × (passes 300 262144 (replicate (262144 * buf_length) 0) ≡ some after)
    × (length after ≡ 262144 * buf_length)
    × ((k : ℕ) → get_or after k 0 ≡ byte_after 300 (is_first (262144 * 4) 0 k))
passes_example = passes-bytes name_1g 262144 300 (replicate (262144 * buf_length) 0) started_1g

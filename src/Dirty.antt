-- ===== src/Dirty.antt =====
-- mem/dirty_mem.c: keeps a buffer of a chosen size dirty, for a test of memory load.
mod Laws
mod Tests
use uio_linux_sample.Prelude.{
  ℕ, zero, suc, ◌+◌, ◌*◌, ◌/◌, ◌%◌, ◌^◌, Bool, true, false, ◌&&◌, Option, none, some, List, [], ◌∷◌,
  ◌==◌, get_elem?, set, replicate, if◌then◌else◌,
}

abbrev pub buf_length : ℕ
buf_length = 4096

-- strcmp(c, s) == 0
abbrev pub equal_strings : List ℕ → List ℕ → Bool
equal_strings [] [] = true
equal_strings [] (b ∷ bs) = false
equal_strings (a ∷ as') [] = false
equal_strings (a ∷ as') (b ∷ bs) = a == b && equal_strings as' bs

abbrev pub name_128m : List ℕ
name_128m = b'1' ∷ b'2' ∷ b'8' ∷ b'm' ∷ []

abbrev pub name_256m : List ℕ
name_256m = b'2' ∷ b'5' ∷ b'6' ∷ b'm' ∷ []

abbrev pub name_512m : List ℕ
name_512m = b'5' ∷ b'1' ∷ b'2' ∷ b'm' ∷ []

abbrev pub name_1g : List ℕ
name_1g = b'1' ∷ b'g' ∷ []

abbrev pub name_2g : List ℕ
name_2g = b'2' ∷ b'g' ∷ []

unfoldable pub compare_result : List ℕ → ℕ
compare_result c =
    if equal_strings c name_128m
    then 1
    else if equal_strings c name_256m
    then 2
    else if equal_strings c name_512m
    then 3
    else if equal_strings c name_1g
    then 4
    else if equal_strings c name_2g
    then 5
    else 0

-- The switch.
unfoldable pub buf_num : ℕ → ℕ
buf_num r =
    if r == 1
    then 32768
    else if r == 2
    then 65536
    else if r == 3
    then 131072
    else if r == 4
    then 262144
    else if r == 5
    then 524288
    else 0

-- buf[i]++ on a char, here the number of its 8 bits; `none` is a store outside the buffer.
unfoldable pub increment : List ℕ → ℕ → Option (List ℕ)
increment [] i = none
increment (x ∷ xs) zero = some ((x + 1) % 2 ^ 8 ∷ xs)
increment (x ∷ xs) (suc i) = elim (increment xs i) [ none ↦ none | some ys ↦ some (x ∷ ys) ]

-- The loop over a buffer, for the `n` rounds from round `i` on.
unfoldable pub dirty_from : ℕ → ℕ → List ℕ → Option (List ℕ)
dirty_from zero i buf = some buf
dirty_from (suc n) i buf = elim (increment buf (i * buf_length / 4)) [
  | none ↦ none
  | some next ↦ dirty_from n (i + 1) next
]

-- One pass over the buffer, for (i = 0; i < buf_num * 4; i++).
unfoldable pub dirty : ℕ → List ℕ → Option (List ℕ)
dirty num buf = dirty_from (num * 4) 0 buf

-- The text that is read leads to a buffer of zeros, which calloc gives, and to passes over it;
-- `none` is the answer to any other text.
unfoldable pub start : List ℕ → Option (ℕ × List ℕ)
start c =
    let num = buf_num (compare_result c) in
    if num == 0 then none else some (num, replicate (num * buf_length) 0)

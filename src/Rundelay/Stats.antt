-- ===== src/Rundelay/Stats.antt =====
-- get_stats of get_rundelay.c: three numbers from a line of /proc/<pid>/schedstat. A string is the
-- list of its bytes before the terminating 0.
use uio_linux_sample.Prelude.{
  ℕ, ◌+◌, ◌-◌, ◌*◌, ◌^◌, min, Bool, ◌||◌, ◌&&◌, List, [], ◌∷◌, ◌==◌, leb, if◌then◌else◌,
}
use uio_linux_sample.Prelude.Words.{u64}

abbrev pub isblank : ℕ → Bool
isblank c = c == 32 || c == 9

abbrev pub isdigit : ℕ → Bool
isdigit c = leb 48 c && leb c 57

-- The white space that atoll skips.
abbrev pub isspace : ℕ → Bool
isspace c = c == 32 || (leb 9 c && leb c 13)

-- A loop that steps over the bytes that a test accepts.
abbrev pub skip : (ℕ → Bool) → List ℕ → List ℕ
skip test [] = []
skip test (c ∷ cs) = let rest = skip test cs in if test c then rest else c ∷ cs

abbrev pub read_digits : ℕ → List ℕ → ℕ
read_digits v [] = v
read_digits v (c ∷ cs) =
    let rest = read_digits (v * 10 + (c - 48)) cs in if isdigit c then rest else v

-- As the word of 64 bits to which the source assigns it; a number out of range is the nearest in it.
abbrev pub after_space : List ℕ → ℕ
after_space [] = 0
after_space (c ∷ cs) =
    if c == 45
    then u64 (2 ^ 64 - min (read_digits 0 cs) (2 ^ 63))
    else if c == 43
    then min (read_digits 0 cs) (2 ^ 63 - 1)
    else min (read_digits 0 (c ∷ cs)) (2 ^ 63 - 1)

abbrev pub atoll : List ℕ → ℕ
atoll ptr = after_space (skip isspace ptr)

pub record Stats : Type 0 where
  pub run_ticks : ℕ
  pub wait_ticks : ℕ
  pub nran : ℕ

unfoldable pub get_stats : List ℕ → Stats
get_stats buf =
    let first = skip isblank buf in
    let second = skip isblank (skip isdigit first) in
    let third = skip isblank (skip isdigit second) in
    record { run_ticks = atoll first; wait_ticks = atoll second; nran = atoll third }

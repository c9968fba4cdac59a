-- ===== src/Rundelay/Samples.antt =====
-- The loop of main of get_rundelay.c over the samples. A sample is what get_stats reads from the
-- file; the list ends where the file cannot be opened or read any more, or with the last sample.
use uio_linux_sample.Prelude.{
  ℕ, zero, suc, ◌+◌, ◌*◌, Bool, true, false, List, [], ◌∷◌, ◌++◌, ◌==◌, if◌then◌else◌,
}
use uio_linux_sample.Prelude.Words.{u32, sub64}
use uio_linux_sample.Rundelay.Stats.{Stats}

-- What is printed: the differences to the sample before, and those to the first sample. The
-- fractions are given by their numerators, and the common denominators stand below.
pub data Line : Type 0 where
  delta : ℕ → ℕ → Line
  average : ℕ → ℕ → Line

pub record State : Type 0 where
  pub first_orun_ticks : ℕ
  pub orun_ticks : ℕ
  pub first_owait_ticks : ℕ
  pub owait_ticks : ℕ
  pub oran : ℕ

abbrev pub at_start : State
at_start = record {
  first_orun_ticks = 0;
  orun_ticks = 0;
  first_owait_ticks = 0;
  owait_ticks = 0;
  oran = 0;
}

-- The denominators in nanoseconds, products of unsigned ints; that of the average is a hundredth,
-- for a result in percent.
abbrev pub interval_ns : ℕ → ℕ
interval_ns sleeptime = u32 (sleeptime * 1000000000)

abbrev pub elapsed_percent : ℕ → ℕ → ℕ
elapsed_percent sleeptime count = u32 (u32 (sleeptime * 10000000) * count)

-- Without the option -v.
abbrev pub lines_of : ℕ → ℕ → State → Stats → List Line
lines_of count i s x =
    if s.orun_ticks == 0
    then []
    else delta (sub64 x.run_ticks s.orun_ticks) (sub64 x.wait_ticks s.owait_ticks)
      ∷ (if i == count
          then average (sub64 x.run_ticks s.first_orun_ticks)
              (sub64 x.wait_ticks s.first_owait_ticks)
            ∷ []
          else [])

abbrev pub is_zero : ℕ → Bool
is_zero zero = true
is_zero (suc i) = false

abbrev pub next : ℕ → State → Stats → State
next i s x = record {
  first_orun_ticks = if is_zero i then x.run_ticks else s.first_orun_ticks;
  orun_ticks = x.run_ticks;
  first_owait_ticks = if is_zero i then x.wait_ticks else s.first_owait_ticks;
  owait_ticks = x.wait_ticks;
  oran = x.nran;
}

-- The loop from round `i` on, with `left` rounds to go.
unfoldable pub sample_loop : ℕ → ℕ → ℕ → State → List Stats → List Line
sample_loop count zero i s xs = []
sample_loop count (suc left) i s [] = []
sample_loop count (suc left) i s (x ∷ xs) =
    lines_of count i s x ++ sample_loop count left (suc i) (next i s x) xs

abbrev pub samples : ℕ → List Stats → List Line
samples count xs = sample_loop count (u32 (count + 1)) 0 at_start xs

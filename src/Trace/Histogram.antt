-- ===== src/Trace/Histogram.antt =====
-- `histogram_show`, which trace_irqoff.c and trace_noschedule.c spell alike and trace_runqlat.c
-- with one line more. The printed lines are values here; `none` is the `false` of a histogram
-- with no count in it, of which nothing is printed.
pub mod Laws
use uio_linux_sample.Prelude.{
  ℕ, zero, suc, ◌+◌, ◌-◌, ◌*◌, ◌/◌, ◌%◌, ◌^◌, List, [], ◌∷◌, ◌++◌, Option, none, some, ltb, ◌==◌,
  if◌then◌else◌, replicate,
}
use uio_linux_sample.Prelude.Words.{u64, u32, sub32}

-- NUMBER_CHARACTER
abbrev pub number_character : ℕ
number_character = 40

-- What the first loop computes.
pub record Scan : Type 0 where
  pub count_max : ℕ
  pub zero_index : ℕ

-- for (i = 0; i < size; i++), with `hist[i..size)` as the list.
unfoldable pub scan : ℕ → List ℕ → Scan → Scan
scan i [] s = s
scan i (count ∷ hist) s = scan (i + 1) hist (record {
  count_max = if ltb s.count_max count then count else s.count_max;
  zero_index = if count == 0 then s.zero_index else i + 1;
})

-- One printed line: the two ends of the range, the count and the bar.
pub record Line : Type 0 where
  pub low : ℕ
  pub high : ℕ
  pub count : ℕ
  pub str : List ℕ

-- The number of `*` in a bar. The product is an `unsigned long`.
unfoldable pub stars : ℕ → ℕ → ℕ
stars count_max count = u64 (count * number_character) / count_max

-- memset(str, '*', num); memset(str + num, ' ', NUMBER_CHARACTER - num)
unfoldable pub bar : ℕ → List ℕ
bar num = replicate num b'*' ++ replicate (number_character - num) b' '

-- 2 << i
abbrev pub scale_max : ℕ → ℕ
scale_max i = 2 * 2 ^ i

abbrev pub scale_min : ℕ → ℕ
scale_min i = if i == 0 then 1 else scale_max i / 2

unfoldable pub line : ℕ → ℕ → ℕ → ℕ → Line
line count_max factor i count = record {
  low = u32 (scale_min i * factor);
  high = sub32 (u32 (scale_max i * factor)) 1;
  count = count;
  str = bar (stars count_max count);
}

-- for (i = 0; i < zero_index; i++), with `hist[i..size)` as the list.
unfoldable pub lines : ℕ → ℕ → ℕ → ℕ → List ℕ → List Line
lines count_max factor zero_index i [] = []
lines count_max factor zero_index i (count ∷ hist) =
    if ltb i zero_index
    then line count_max factor i count ∷ lines count_max factor zero_index (i + 1) hist
    else []

unfoldable pub histogram_show : List ℕ → ℕ → Option (List Line)
histogram_show hist factor =
    let s = scan 0 hist (record { count_max = 0; zero_index = 0 }) in
    if s.count_max == 0 then none else some (lines s.count_max factor s.zero_index 0 hist)

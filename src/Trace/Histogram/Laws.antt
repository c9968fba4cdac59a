-- ===== src/Trace/Histogram/Laws.antt =====
-- What a reader of a printed histogram sees.
use native.Mathlib.Nat.{mod-le, div-le_of_le-mul}
use native.Mathlib.Decide.{dec_le, dec_lt}
use uio_linux_sample.Prelude.{
  ℕ, zero, suc, ◌+◌, ◌-◌, ◌*◌, ◌^◌, ◌≤◌, ◌<◌, ◌≡◌, refl, sym, ap, ◌⊎◌, inl, inr, List, [], ◌∷◌, map,
  Option, none, some, arith, ltb, ◌==◌, if◌then◌else◌, Bool-cases, All, drop, take, length,
  replicate, length-append, length-replicate, take-nil, lt→ltb, le→not-ltb,
}
use uio_linux_sample.Trace.Histogram.{
  Scan, scan, Line, stars, bar, line, lines, histogram_show, number_character,
}

abbrev pub IsZero : ℕ → Type 0
IsZero c = c ≡ 0

-- The first loop, started at index `i` with what the cells before `i` gave.
record Scanned (i : ℕ) (hist : List ℕ) (s t : Scan) : Type 0 where
  grows : s.count_max ≤ t.count_max
  covers : All (λ c. c ≤ t.count_max) hist
  index : (t.zero_index ≡ s.zero_index) ⊎ (i < t.zero_index)
  within : t.zero_index ≤ i + length hist
  rest : All IsZero (drop (t.zero_index - i) hist)

drop-IsZero_nil : (n : ℕ) → All IsZero (drop n [])
drop-IsZero_nil zero = tt
drop-IsZero_nil (suc n) = tt

drop-IsZero_cons :
    (z i c : ℕ) (hist : List ℕ)
    → (z ≤ i → c ≡ 0)
    → All IsZero (drop (z - (i + 1)) hist)
    → All IsZero (drop (z - i) (c ∷ hist))
drop-IsZero_cons z i c hist h rest = elim (dec_le z i) [
  | yes le ↦
      let e : z - i ≡ 0 = omega arith in
      let e' : z - (i + 1) ≡ 0 = omega arith in rw e (h le, rw e' at rest)
  | no gt ↦ let e : z - i ≡ suc (z - (i + 1)) = omega arith in rw e rest
]

-- The body of the first loop.
next : ℕ → ℕ → Scan → Scan
next i c s = record {
  count_max = if ltb s.count_max c then c else s.count_max;
  zero_index = if c == 0 then s.zero_index else i + 1;
}

record Next (i c : ℕ) (s t : Scan) : Type 0 where
  keeps : s.count_max ≤ t.count_max
  reaches : c ≤ t.count_max
  moves : ((c ≡ 0) × (t.zero_index ≡ s.zero_index)) ⊎ (t.zero_index ≡ i + 1)

next-Next : (i c : ℕ) (s : Scan) → Next i c s (next i c s)
unfolding next
next-Next i c s = ground arith

Scanned-cons :
    (i c : ℕ) (hist : List ℕ) (s u t : Scan)
    → s.zero_index ≤ i
    → Next i c s u
    → Scanned (i + 1) hist u t
    → Scanned i (c ∷ hist) s t
Scanned-cons i c hist s u t h n r = record {
  grows = omega arith;
  covers = (omega arith, r.covers);
  index = omega arith;
  within = omega arith;
  rest = drop-IsZero_cons t.zero_index i c hist (λ le. omega arith) r.rest;
}

scan-Scanned :
    (i : ℕ) (hist : List ℕ) (s : Scan) → s.zero_index ≤ i → Scanned i hist s (scan i hist s)
unfolding scan next
scan-Scanned i [] s h = record {
  grows = omega arith;
  covers = tt;
  index = inl refl;
  within = omega arith;
  rest = drop-IsZero_nil (s.zero_index - i);
}
scan-Scanned i (c ∷ hist) s h =
    Scanned-cons i c hist s (next i c s) (scan (i + 1) hist (next i c s)) h (next-Next i c s)
      (scan-Scanned (i + 1) hist (next i c s) (ground (arith, next-Next i c s)))

-- The second loop prints the counts of the cells before `zero_index`.
map-count-lines :
    (count_max factor z i : ℕ) (hist : List ℕ)
    → map (λ l. l.count) (lines count_max factor z i hist) ≡ take (z - i) hist
unfolding lines line
map-count-lines count_max factor z i [] = sym (take-nil (z - i))
map-count-lines count_max factor z i (c ∷ hist) = elim (dec_lt i z) [
  | yes lt ↦
      let e : z - i ≡ suc (z - (i + 1)) = omega arith in
      rw (e, lt→ltb i z lt) (ap (◌∷◌ c) (map-count-lines count_max factor z (i + 1) hist))
  | no ge ↦ let e : z - i ≡ 0 = omega arith in rw (e, le→not-ltb i z (omega arith))
]

-- The product may wrap: the quotient is the smaller for it.
stars-le :
    (count_max count : ℕ)
    → 0 < count_max
    → count ≤ count_max
    → stars count_max count ≤ number_character
unfolding stars
stars-le count_max count p h =
    div-le_of_le-mul count_max (omega (arith, mod-le (count * number_character) (2 ^ 64)))

length-bar : (num : ℕ) → num ≤ number_character → length (bar num) ≡ number_character
unfolding bar
length-bar num h = omega (
  arith,
  length-append {A = ℕ} (replicate num b'*') (replicate (number_character - num) b' '),
  length-replicate {A = ℕ} num b'*',
  length-replicate {A = ℕ} (number_character - num) b' ',
)

lines-fit :
    (count_max factor z i : ℕ) (hist : List ℕ)
    → 0 < count_max
    → All (λ c. c ≤ count_max) hist
    → All (λ l. length l.str ≡ number_character) (lines count_max factor z i hist)
unfolding lines line
lines-fit count_max factor z i [] p h = tt
lines-fit count_max factor z i (c ∷ hist) p h = elim (Bool-cases (ltb i z)) [
  | inl e ↦ rw e (
    length-bar (stars count_max c) (stars-le count_max c p h.0),
    lines-fit count_max factor z (i + 1) hist p h.1,
  )
  | inr e ↦ rw e tt
]

All-IsZero : (hist : List ℕ) → All (λ c. c ≤ 0) hist → All IsZero hist
All-IsZero [] h = tt
All-IsZero (c ∷ hist) h = (omega arith, All-IsZero hist h.1)

-- The counts are printed in order up to some cell, all behind it are zero, and every bar fills
-- its buffer of NUMBER_CHARACTER characters exactly.
pub record Prints (hist : List ℕ) (ls : List Line) : Type 0 where
  pub shown : ℕ
  pub counts : map (λ l. l.count) ls ≡ take shown hist
  pub rest : All IsZero (drop shown hist)
  pub bars : All (λ l. length l.str ≡ number_character) ls

abbrev pub Shows : List ℕ → Option (List Line) → Type 0
Shows hist none = All IsZero hist
Shows hist (some ls) = Prints hist ls

initial : Scan
initial = record { count_max = 0; zero_index = 0 }

histogram_show-cases :
    (hist : List ℕ) (factor : ℕ) (t : Scan)
    → Scanned 0 hist initial t
    → Shows hist
        (if t.count_max == 0 then none else some (lines t.count_max factor t.zero_index 0 hist))
histogram_show-cases hist factor t r = elim (Bool-cases (t.count_max == 0)) [
  | inl e ↦ let z : t.count_max ≡ 0 = ground arith in rw e (All-IsZero hist (rw z at r.covers))
  | inr e ↦ rw e (record {
    shown = t.zero_index - 0;
    counts = map-count-lines t.count_max factor t.zero_index 0 hist;
    rest = r.rest;
    bars = lines-fit t.count_max factor t.zero_index 0 hist (ground arith) r.covers;
  })
]

-- Whatever the counts: nothing is printed only if every count is zero, and otherwise the lines
-- hold the counts of the histogram in order, up to a cell behind which every count is zero, with
-- bars of exactly NUMBER_CHARACTER characters.
pub histogram_show-Shows : (hist : List ℕ) (factor : ℕ) → Shows hist (histogram_show hist factor)
unfolding histogram_show initial
histogram_show-Shows hist factor =
    histogram_show-cases hist factor (scan 0 hist initial)
      (scan-Scanned 0 hist initial (omega arith))

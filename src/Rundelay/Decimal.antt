-- ===== src/Rundelay/Decimal.antt =====
-- Reading back what the kernel prints.
use native.Mathlib.Numerals.{unary_clauses}
use uio_linux_sample.Prelude.{
  ℕ, zero, suc, ◌+◌, ◌-◌, ◌*◌, ◌/◌, ◌%◌, ◌^◌, ◌<◌, ◌≡◌, refl, ap, sym, ◌∙◌, min, arith, true, false,
  Bool-cases, inl, inr, List, [], ◌∷◌, ◌==◌, ltb, ltb→lt, if◌then◌else◌,
}
use uio_linux_sample.Rundelay.Stats.{
  isblank, isdigit, isspace, skip, read_digits, atoll, Stats, get_stats,
}

-- The decimal digits of a number of at most as many as the fuel, in front of other bytes.
abbrev pub decimal : ℕ → ℕ → List ℕ → List ℕ
decimal zero n rest = rest
decimal (suc fuel) n rest =
    let longer = decimal fuel (n / 10) ((48 + n % 10) ∷ rest) in
    if ltb n 10 then (48 + n) ∷ rest else longer

unfoldable pub printed : ℕ → List ℕ → List ℕ
printed n rest = decimal 19 n rest

-- The line of schedstat: three numbers between single spaces, and the end of the line.
unfoldable pub line_of : Stats → List ℕ
line_of s = printed s.run_ticks (32 ∷ printed s.wait_ticks (32 ∷ printed s.nran (10 ∷ [])))

digit-isdigit : (d : ℕ) → d < 10 → isdigit (48 + d) ≡ true
digit-isdigit d h = ground arith

read-digit :
    (v d : ℕ) (rest : List ℕ)
    → d < 10
    → read_digits v ((48 + d) ∷ rest) ≡ read_digits (v * 10 + d) rest
read-digit v d rest h =
    let e : v * 10 + (48 + d - 48) ≡ v * 10 + d = omega arith in
    rw (digit-isdigit d h) (ap (λ x. read_digits x rest) e)

skip-digit : (d : ℕ) (rest : List ℕ) → d < 10 → skip isdigit ((48 + d) ∷ rest) ≡ skip isdigit rest
skip-digit d rest h = rw (digit-isdigit d h) refl

pow-suc : (fuel : ℕ) → 10 ^ suc fuel ≡ 10 ^ fuel * 10
pow-suc fuel = simp unary_clauses refl

read-decimal :
    (fuel n : ℕ) (rest : List ℕ)
    → n < 10 ^ fuel
    → read_digits 0 (decimal fuel n rest) ≡ read_digits n rest
read-decimal zero n rest h = ap (λ x. read_digits x rest) (omega (arith, h))
read-decimal (suc fuel) n rest h = elim (Bool-cases (ltb n 10)) [
  | inl e ↦
      rw (decimal, e)
        (read-digit 0 n rest (ltb→lt n 10 e) ∙ ap (λ x. read_digits x rest) (omega arith))
  | inr e ↦
      rw (decimal, e)
        (read-decimal fuel (n / 10) ((48 + n % 10) ∷ rest) (omega (arith, h, pow-suc fuel))
          ∙ (read-digit (n / 10) (n % 10) rest (omega arith)
              ∙ ap (λ x. read_digits x rest) (omega arith)))
]

skip-decimal : (fuel n : ℕ) (rest : List ℕ) → skip isdigit (decimal fuel n rest) ≡ skip isdigit rest
skip-decimal zero n rest = refl
skip-decimal (suc fuel) n rest = elim (Bool-cases (ltb n 10)) [
  | inl e ↦ rw (decimal, e) (skip-digit n rest (ltb→lt n 10 e))
  | inr e ↦
      rw (decimal, e)
        (skip-decimal fuel (n / 10) ((48 + n % 10) ∷ rest) ∙ skip-digit (n % 10) rest (omega arith))
]

-- A printed number starts with a digit.
head-decimal :
    (fuel n : ℕ) (rest : List ℕ)
    → (d : ℕ) × (more : List ℕ) × (d < 10) × (decimal (suc fuel) n rest ≡ (48 + d) ∷ more)
head-decimal zero n rest = elim (Bool-cases (ltb n 10)) [
  | inl e ↦ (n, rest, ltb→lt n 10 e, rw e refl)
  | inr e ↦ (n % 10, rest, omega arith, rw e refl)
]
head-decimal (suc fuel) n rest = elim (Bool-cases (ltb n 10)) [
  | inl e ↦ (n, rest, ltb→lt n 10 e, rw e refl)
  | inr e ↦
      let (d, more, l, same) = head-decimal fuel (n / 10) ((48 + n % 10) ∷ rest) in
      (d, more, l, rw e same)
]

head-skip : (d : ℕ) (more : List ℕ) → d < 10 → skip isblank ((48 + d) ∷ more) ≡ (48 + d) ∷ more
head-skip d more h = let e : isblank (48 + d) ≡ false = ground arith in rw e refl

head-atoll :
    (d : ℕ) (more : List ℕ)
    → d < 10
    → atoll ((48 + d) ∷ more) ≡ min (read_digits 0 ((48 + d) ∷ more)) (2 ^ 63 - 1)
head-atoll d more h =
    let space : isspace (48 + d) ≡ false = ground arith in
    let minus : (48 + d == 45) ≡ false = ground arith in
    let plus : (48 + d == 43) ≡ false = ground arith in rw (space, minus, plus) refl

skip_blanks-decimal :
    (fuel n : ℕ) (rest : List ℕ)
    → skip isblank (decimal (suc fuel) n rest) ≡ decimal (suc fuel) n rest
skip_blanks-decimal fuel n rest =
    let (d, more, l, e) = head-decimal fuel n rest in
    ap (skip isblank) e ∙ (head-skip d more l ∙ sym e)

atoll-decimal :
    (n c : ℕ) (rest : List ℕ) → n < 2 ^ 63 → isdigit c ≡ false → atoll (decimal 19 n (c ∷ rest)) ≡ n
atoll-decimal n c rest h k =
    let (d, more, l, e) = head-decimal 18 n (c ∷ rest) in
    let stop : read_digits n (c ∷ rest) ≡ n = rw k refl in
    ap atoll e
    ∙ (head-atoll d more l
        ∙ (ap (λ x. min (read_digits 0 x) (2 ^ 63 - 1)) (sym e)
            ∙ (ap (λ x. min x (2 ^ 63 - 1)) (read-decimal 19 n (c ∷ rest) (omega (arith, h)) ∙ stop)
                ∙ omega (arith, h))))

blanks-printed : (n : ℕ) (rest : List ℕ) → skip isblank (printed n rest) ≡ printed n rest
unfolding printed
blanks-printed n rest = skip_blanks-decimal 18 n rest

digits-printed : (n : ℕ) (rest : List ℕ) → skip isdigit (printed n rest) ≡ skip isdigit rest
unfolding printed
digits-printed n rest = skip-decimal 19 n rest

atoll-printed :
    (n c : ℕ) (rest : List ℕ) → n < 2 ^ 63 → isdigit c ≡ false → atoll (printed n (c ∷ rest)) ≡ n
unfolding printed
atoll-printed n c rest h k = atoll-decimal n c rest h k

-- A number and the blank behind it.
next-printed :
    (n k : ℕ) (rest : List ℕ)
    → skip isblank (skip isdigit (printed n (32 ∷ printed k rest))) ≡ printed k rest
next-printed n k rest =
    ap (skip isblank) (digits-printed n (32 ∷ printed k rest)) ∙ blanks-printed k rest

-- get_stats reads back the three numbers, each below 2^63, of a line in the format of the kernel.
pub get_stats-line_of :
    (s : Stats)
    → s.run_ticks < 2 ^ 63
    → s.wait_ticks < 2 ^ 63
    → s.nran < 2 ^ 63
    → get_stats (line_of s) ≡ s
unfolding get_stats line_of
get_stats-line_of s h k l =
    let third = printed s.nran (10 ∷ []) in
    let second = printed s.wait_ticks (32 ∷ third) in
    rw
      (
        blanks-printed s.run_ticks (32 ∷ second),
        next-printed s.run_ticks s.wait_ticks (32 ∷ third),
        next-printed s.wait_ticks s.nran (10 ∷ []),
        atoll-printed s.run_ticks 32 second h refl,
        atoll-printed s.wait_ticks 32 third k refl,
        atoll-printed s.nran 10 [] l refl,
      )
      refl

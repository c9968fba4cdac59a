-- ===== src/Rundelay/Sums.antt =====
-- The average against the lines before it.
use uio_linux_sample.Prelude.{
  ℕ, suc, ◌+◌, ◌*◌, ◌^◌, ◌≤◌, ◌<◌, ◌≡◌, ◌↔◌, refl, subst, ap, sym, ◌∙◌, arith, List, [], ◌∷◌, ◌++◌,
  Option, none, some, All, length,
}
use uio_linux_sample.Prelude.Words.{u32, u64, sub64}
use uio_linux_sample.Rundelay.Stats.{Stats}
use uio_linux_sample.Rundelay.Samples.{
  Line, delta, average, State, at_start, interval_ns, lines_of, next, sample_loop, samples,
}

-- The sum of the waits in the lines, modulo 2^64, and the wait in the line of the average.
abbrev pub waits : List Line → ℕ
waits [] = 0
waits (delta run wait ∷ l) = u64 (wait + waits l)
waits (average run wait ∷ l) = waits l

abbrev pub average_wait : List Line → Option ℕ
average_wait [] = none
average_wait (delta run wait ∷ l) = average_wait l
average_wait (average run wait ∷ l) = some wait

-- A thread that has run, on a machine of 64 bits.
abbrev pub HasRun : Stats → Type 0
HasRun x = (0 < x.run_ticks) × (x.wait_ticks < 2 ^ 64)

-- The lines of a round behind the first.
middle-lines :
    (count i : ℕ) (s : State) (x : Stats)
    → 0 < s.orun_ticks
    → i < count
    → lines_of count i s x
      ≡ delta (sub64 x.run_ticks s.orun_ticks) (sub64 x.wait_ticks s.owait_ticks) ∷ []
middle-lines count i s x h l = ground arith

last-lines :
    (count : ℕ) (s : State) (x : Stats)
    → 0 < s.orun_ticks
    → lines_of count count s x
      ≡ delta (sub64 x.run_ticks s.orun_ticks) (sub64 x.wait_ticks s.owait_ticks)
        ∷ average (sub64 x.run_ticks s.first_orun_ticks) (sub64 x.wait_ticks s.first_owait_ticks)
        ∷ []
last-lines count s x h = ground arith

telescope :
    (a b c w : ℕ)
    → a < 2 ^ 64
    → b < 2 ^ 64
    → c < 2 ^ 64
    → u64 (sub64 c a + w) ≡ u64 (sub64 b a + u64 (sub64 c b + w))
telescope a b c w h k l = omega arith

telescope-end :
    (a b c : ℕ)
    → a < 2 ^ 64
    → b < 2 ^ 64
    → c < 2 ^ 64
    → sub64 c a ≡ u64 (sub64 b a + u64 (sub64 c b + 0))
telescope-end a b c h k l = omega arith

loop-cons :
    (count left i : ℕ) (s : State) (x : Stats) (xs : List Stats)
    → sample_loop count (suc left) i s (x ∷ xs)
      ≡ lines_of count i s x ++ sample_loop count left (suc i) (next i s x) xs
unfolding sample_loop
loop-cons count left i s x xs = refl

loop-nil : (count i : ℕ) (s : State) → sample_loop count 0 i s [] ≡ []
unfolding sample_loop
loop-nil count i s = refl

-- The waits since the first sample make up the average.
abbrev AddUp : State → List Line → Type 0
AddUp s out = average_wait out ≡ some (u64 (sub64 s.owait_ticks s.first_owait_ticks + waits out))

loop-AddUp :
    (xs : List Stats) (x : Stats) (count i : ℕ) (s : State)
    → suc i + length xs ≡ count
    → 0 < s.orun_ticks
    → s.owait_ticks < 2 ^ 64
    → s.first_owait_ticks < 2 ^ 64
    → All HasRun (x ∷ xs)
    → AddUp s (sample_loop count (suc (length xs)) (suc i) s (x ∷ xs))
loop-AddUp [] x count i s e h k l r =
    let here : suc i ≡ count = omega (arith, e) in
    let out =
      loop-cons count 0 (suc i) s x []
      ∙ (ap (λ b. lines_of count (suc i) s x ++ b) (loop-nil count (suc (suc i)) (next (suc i) s x))
          ∙ (ap (λ j. lines_of count j s x ++ []) here
              ∙ ap (λ b. b ++ []) (last-lines count s x h))) in
    subst (AddUp s) (sym out)
      (ap some (telescope-end s.first_owait_ticks s.owait_ticks x.wait_ticks l k r.0.1))
loop-AddUp (y ∷ ys) x count i s e h k l r =
    let rest = sample_loop count (suc (length ys)) (suc (suc i)) (next (suc i) s x) (y ∷ ys) in
    let out =
      loop-cons count (suc (length ys)) (suc i) s x (y ∷ ys)
      ∙ ap (λ b. b ++ rest) (middle-lines count (suc i) s x h (omega (arith, e))) in
    subst (AddUp s) (sym out) (
      loop-AddUp ys y count (suc i) (next (suc i) s x) (omega (arith, e)) r.0.0 r.0.1 l r.1
      ∙ ap some (telescope s.first_owait_ticks s.owait_ticks x.wait_ticks (waits rest) l k r.0.1))

waits-bound : (l : List Line) → waits l < 2 ^ 64
waits-bound [] = omega arith
waits-bound (delta run wait ∷ l) = omega arith
waits-bound (average run wait ∷ l) = waits-bound l

samples-first :
    (x : Stats) (xs : List Stats)
    → length xs + 1 < 2 ^ 32
    → samples (length xs) (x ∷ xs) ≡ sample_loop (length xs) (length xs) 1 (next 0 at_start x) xs
samples-first x xs h =
    let rounds : u32 (length xs + 1) ≡ suc (length xs) = omega (arith, h) in
    ap (λ k. sample_loop (length xs) k 0 at_start (x ∷ xs)) rounds
    ∙ loop-cons (length xs) (length xs) 0 at_start x xs

-- For as many samples as the count and one, with a count from 1 to 2^32 - 2, of a thread that has
-- run before: the wait in the line of the average is the sum, modulo 2^64, of the waits in the
-- lines of the rounds.
pub samples-average :
    (x y : Stats) (ys : List Stats)
    → length ys + 2 < 2 ^ 32
    → All HasRun (x ∷ y ∷ ys)
    → let out = samples (suc (length ys)) (x ∷ y ∷ ys) in average_wait out ≡ some (waits out)
samples-average x y ys h r =
    let out = sample_loop (suc (length ys)) (suc (length ys)) 1 (next 0 at_start x) (y ∷ ys) in
    let total : u64 (sub64 x.wait_ticks x.wait_ticks + waits out) ≡ waits out =
      omega (arith, waits-bound out) in
    subst (λ l. average_wait l ≡ some (waits l)) (sym (samples-first x (y ∷ ys) (omega (arith, h))))
      (loop-AddUp ys y (suc (length ys)) 0 (next 0 at_start x) (omega arith) r.0.0 r.0.1 r.0.1 r.1
        ∙ ap some total)

-- The denominator of an interval is the number of nanoseconds exactly for an interval of at most 4
-- seconds, and wraps for every longer one.
pub interval_ns-exact :
    (sleeptime : ℕ) → (interval_ns sleeptime ≡ sleeptime * 1000000000) ↔ (sleeptime ≤ 4)
interval_ns-exact sleeptime = (λ e. omega (arith, e), λ l. omega (arith, l))

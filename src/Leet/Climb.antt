-- ===== src/Leet/Climb.antt =====
-- climbStairs and climb2. An `int` has 32 bits; a sum that does not fit is an outcome of its own.
pub mod Laws
use uio_linux_sample.Prelude.{ℕ, zero, suc, ◌+◌, ◌^◌, Bool, ltb, ◌==◌, if◌then◌else◌}
use uio_linux_sample.Prelude.Words.{ℤ, pos, negsuc}

pub data Outcome : Type 0 where
  returns : ℕ → Outcome
  overflows runs_on : Outcome

abbrev pub then_with : Outcome → (ℕ → Outcome) → Outcome
then_with (returns a) f = f a
then_with overflows f = overflows
then_with runs_on f = runs_on

abbrev pub int_of : ℕ → Outcome
int_of x = if ltb x (2 ^ 31) then returns x else overflows

-- The loop of climbStairs, with `left` rounds to go.
unfoldable pub climb_loop : ℕ → ℕ → ℕ → ℕ → Outcome
climb_loop zero p q r = returns r
climb_loop (suc left) p q r = then_with (int_of (q + r)) (λ s. climb_loop left q r s)

unfoldable pub climb_stairs : ℤ → Outcome
climb_stairs (pos n) = climb_loop n 0 0 1
climb_stairs (negsuc n) = returns 1

-- With the depth of the recursion as fuel.
unfoldable pub climb2 : ℕ → ℤ → Outcome
climb2 zero cnt = runs_on
climb2 (suc fuel) (pos (suc zero)) = returns 1
climb2 (suc fuel) (pos (suc (suc zero))) = returns 2
climb2 (suc fuel) (pos (suc (suc (suc n)))) =
    then_with (climb2 fuel (pos (suc (suc n))))
      (λ a. then_with (climb2 fuel (pos (suc n))) (λ b. int_of (a + b)))
climb2 (suc fuel) (pos zero) =
    then_with (climb2 fuel (negsuc 0))
      (λ a. then_with (climb2 fuel (negsuc 1)) (λ b. int_of (a + b)))
climb2 (suc fuel) (negsuc n) =
    then_with (climb2 fuel (negsuc (suc n)))
      (λ a. then_with (climb2 fuel (negsuc (suc (suc n)))) (λ b. int_of (a + b)))

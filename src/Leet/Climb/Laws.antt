-- ===== src/Leet/Climb/Laws.antt =====
-- The two functions against the recurrence.
use uio_linux_sample.Prelude.{
  ℕ, zero, suc, ◌+◌, ◌^◌, ◌≤◌, ◌<◌, ◌≡◌, refl, ap, sym, ◌∙◌, subst, arith, ltb, Bool-cases, ◌⊎◌,
  inl, inr,
}
use uio_linux_sample.Prelude.Words.{pos, negsuc}
use uio_linux_sample.Leet.Climb.{
  returns, overflows, runs_on, then_with, int_of, climb_loop, climb_stairs, climb2,
}

-- The number of ways up `n` stairs, in steps of one or two.
abbrev pub stairs : ℕ → ℕ
stairs zero = 1
stairs (suc zero) = 1
stairs (suc (suc n)) = stairs (suc n) + stairs n

stairs-suc : (n : ℕ) → stairs n ≤ stairs (suc n)
stairs-suc zero = omega arith
stairs-suc (suc n) = omega arith

stairs-add : (n k : ℕ) → stairs k ≤ stairs (n + k)
stairs-add zero k = subst (λ x. stairs k ≤ stairs x) (sym zero-k) (omega arith)
  where
    zero-k : 0 + k ≡ k
    zero-k = omega arith
stairs-add (suc n) k =
    subst (λ x. stairs k ≤ stairs x) (sym step) (omega (arith, stairs-add n k, stairs-suc (n + k)))
  where
    step : suc n + k ≡ suc (n + k)
    step = omega arith

int_of-small : (x : ℕ) → x < 2 ^ 31 → int_of x ≡ returns x
int_of-small x h = ground arith

int_of-large : (x : ℕ) → 2 ^ 31 ≤ x → int_of x ≡ overflows
int_of-large x h = ground arith

int_of-cases : (x : ℕ) → (x < 2 ^ 31) ⊎ (2 ^ 31 ≤ x)
int_of-cases x = elim (Bool-cases (ltb x (2 ^ 31))) [
  | inl e ↦ inl (ground arith)
  | inr e ↦ inr (ground arith)
]

climb_loop-stairs :
    (left k p : ℕ)
    → stairs (suc k) < 2 ^ 31
    → climb_loop left p (stairs k) (stairs (suc k)) ≡ int_of (stairs (left + suc k))
unfolding climb_loop
climb_loop-stairs zero k p h =
    let e : suc k ≡ 0 + suc k = omega arith in
    sym (int_of-small (stairs (suc k)) h) ∙ ap (λ x. int_of (stairs x)) e
climb_loop-stairs (suc left) k p h =
    let s : stairs k + stairs (suc k) ≡ stairs (suc (suc k)) = omega arith in
    let e : left + suc (suc k) ≡ suc left + suc k = omega arith in
    elim (int_of-cases (stairs (suc (suc k)))) [
      | inl small ↦
          rw (s, int_of-small (stairs (suc (suc k))) small)
            (climb_loop-stairs left (suc k) (stairs k) small ∙ ap (λ x. int_of (stairs x)) e)
      | inr large ↦
          rw (s, int_of-large (stairs (suc (suc k))) large)
            (sym (
                int_of-large (stairs (left + suc (suc k)))
                  (omega (arith, stairs-add left (suc (suc k)))))
              ∙ ap (λ x. int_of (stairs x)) e)
    ]

climb_stairs-stairs : (n : ℕ) → climb_stairs (pos (suc n)) ≡ int_of (stairs (suc n))
unfolding climb_stairs climb_loop
climb_stairs-stairs n =
    let e : n + 1 ≡ suc n = omega arith in
    climb_loop-stairs n 0 0 (omega arith) ∙ ap (λ x. int_of (stairs x)) e

int_of-add :
    (a b : ℕ)
    → then_with (int_of a) (λ x. then_with (int_of b) (λ y. int_of (x + y))) ≡ int_of (a + b)
int_of-add a b = elim (int_of-cases a) [
  | inl h ↦ elim (int_of-cases b) [
    | inl k ↦ rw (int_of-small a h, int_of-small b k) refl
    | inr k ↦ rw (int_of-small a h, int_of-large b k) (sym (int_of-large (a + b) (omega arith)))
  ]
  | inr h ↦ rw (int_of-large a h) (sym (int_of-large (a + b) (omega arith)))
]

climb2-stairs : (fuel n : ℕ) → n < fuel → climb2 fuel (pos (suc n)) ≡ int_of (stairs (suc n))
unfolding climb2
climb2-stairs zero n h = absurd (omega arith)
climb2-stairs (suc fuel) zero h = refl
climb2-stairs (suc fuel) (suc zero) h = refl
climb2-stairs (suc fuel) (suc (suc n)) h =
    rw (climb2-stairs fuel (suc n) (omega arith), climb2-stairs fuel n (omega arith))
      (int_of-add (stairs (suc (suc n))) (stairs (suc n)))

-- For a staircase of at least one stair, the recursion of climb2 ends within a depth of as many
-- calls as there are stairs, and the two functions have the same outcome: the number of ways up,
-- by steps of one or two, if it fits into 31 bits, and otherwise an overflow.
pub climb2-climb_stairs :
    (n fuel : ℕ)
    → n < fuel
    → (climb2 fuel (pos (suc n)) ≡ climb_stairs (pos (suc n)))
      × (climb_stairs (pos (suc n)) ≡ int_of (stairs (suc n)))
climb2-climb_stairs n fuel h =
    (climb2-stairs fuel n h ∙ sym (climb_stairs-stairs n), climb_stairs-stairs n)

climb2_negative : (fuel n : ℕ) → climb2 fuel (negsuc n) ≡ runs_on
unfolding climb2
climb2_negative zero n = refl
climb2_negative (suc fuel) n = rw (climb2_negative fuel (suc n)) refl

-- For no stair, or a negative number of them, climb2 does not return at any depth, where climbStairs
-- returns 1.
pub climb2_endless :
    (fuel n : ℕ)
    → (climb2 fuel (pos 0) ≡ runs_on)
      × (climb2 fuel (negsuc n) ≡ runs_on)
      × (climb_stairs (pos 0) ≡ returns 1)
      × (climb_stairs (negsuc n) ≡ returns 1)
unfolding climb2 climb_stairs climb_loop
climb2_endless zero n = (refl, refl, refl, refl)
climb2_endless (suc fuel) n =
    (rw (climb2_negative fuel 0) refl, climb2_negative (suc fuel) n, refl, refl)

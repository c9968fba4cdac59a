-- ===== src/Trace/Shift.antt =====
-- `while (test(delta)) { index++; delta >>= 1; }`, the loop by which trace_irqoff_record,
-- hist_update and latency_histogram_store find the bucket of a delay.
use native.Mathlib.Nat.{two-pow-succ}
use uio_linux_sample.Prelude.{
  ℕ, zero, suc, ◌+◌, ◌*◌, ◌/◌, ◌^◌, ◌≤◌, ◌<◌, ◌≡◌, refl, sym, subst, Bool, false, arith, leb,
  if◌then◌else◌, Bool-cases, leb→le, ap, ◌⊎◌, inl, inr,
}

-- The fuel counts the bits of `delta`; at 0 the word is 0 and every test of the callers fails.
unfoldable pub shift_while : ℕ → (ℕ → Bool) → ℕ → ℕ → ℕ
shift_while zero test delta index = index
shift_while (suc fuel) test delta index =
    let rest = shift_while fuel test (delta / 2) (index + 1) in if test delta then rest else index

-- `delta` halved `n` times is below `bound`, and halved once less it is not.
abbrev pub Halves : ℕ → ℕ → ℕ → Type 0
Halves bound delta n = (delta < bound * 2 ^ n) × ((n ≡ 0) ⊎ (bound * 2 ^ n ≤ 2 * delta))

Halves-zero : (bound delta : ℕ) → delta < bound → Halves bound delta 0
Halves-zero bound delta h = (omega arith, inl refl)

Halves-suc :
    (bound delta n : ℕ) → bound ≤ delta → Halves bound (delta / 2) n → Halves bound delta (suc n)
Halves-suc bound delta n h (above, inl e) =
    rw two-pow-succ
      (omega (arith, ap (λ k. bound * 2 ^ k) e), inr (omega (arith, ap (λ k. bound * 2 ^ k) e)))
Halves-suc bound delta n h (above, inr below) = rw two-pow-succ (omega arith, inr (omega arith))

-- With a test that asks whether `bound` is reached, and a word of at most `fuel` bits, the loop
-- adds to `index` the number of halvings that bring the word below `bound`.
pub shift_while-Halves :
    (fuel : ℕ) (test : ℕ → Bool) (bound delta index : ℕ)
    → ((x : ℕ) → test x ≡ leb bound x)
    → 0 < bound
    → delta < 2 ^ fuel
    → (n : ℕ) × (shift_while fuel test delta index ≡ index + n) × Halves bound delta n
unfolding shift_while
shift_while-Halves zero test bound delta index h p d =
    (0, omega arith, Halves-zero bound delta (omega arith))
shift_while-Halves (suc fuel) test bound delta index h p d = elim (Bool-cases (leb bound delta)) [
  | inl more ↦
      let (n, e, s) =
        shift_while-Halves fuel test bound (delta / 2) (index + 1) h p
          (omega (arith, two-pow-succ fuel)) in
      (suc n, rw (h delta, more) (omega arith), Halves-suc bound delta n (leb→le _ _ more) s)
  | inr done ↦ (0, rw (h delta, done) (omega arith), Halves-zero bound delta (ground arith))
]

pub shift_while_zero-Halves :
    (fuel : ℕ) (test : ℕ → Bool) (bound delta : ℕ)
    → ((x : ℕ) → test x ≡ leb bound x)
    → 0 < bound
    → delta < 2 ^ fuel
    → Halves bound delta (shift_while fuel test delta 0)
shift_while_zero-Halves fuel test bound delta h p d =
    let (n, e, s) = shift_while-Halves fuel test bound delta 0 h p d in
    subst (Halves bound delta) (sym (omega (arith, e))) s

-- A test that fails at once leaves the index.
pub shift_while-stop :
    (fuel : ℕ) (test : ℕ → Bool) (delta index : ℕ)
    → test delta ≡ false
    → shift_while fuel test delta index ≡ index
unfolding shift_while
shift_while-stop zero test delta index h = refl
shift_while-stop (suc fuel) test delta index h = rw h

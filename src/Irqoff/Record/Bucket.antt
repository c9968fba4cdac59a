-- ===== src/Irqoff/Record/Bucket.antt =====
-- Which bucket of the histogram `trace_irqoff_record` counts a delay in.
use native.Mathlib.Nat.{two-pow-succ}
use uio_linux_sample.Prelude.{
  ℕ, suc, ◌+◌, ◌*◌, ◌/◌, ◌^◌, ◌≤◌, ◌<◌, ◌≡◌, inl, inr, arith, ltb, ap, le→not-ltb,
}
use uio_linux_sample.Trace.Shift.{shift_while, shift_while_zero-Halves, shift_while-stop, Halves}
use uio_linux_sample.Irqoff.Data.{max_latency_record}
use uio_linux_sample.Irqoff.Record.{latency_index, latency_bucket}

index_bounds :
    (limit delta n : ℕ)
    → limit ≤ delta
    → Halves (limit + 1) (delta / 2) n
    → (limit * 2 ^ n ≤ delta) × (delta < (limit + 1) * 2 ^ suc n)
index_bounds limit delta n h (above, inl e) =
    rw (two-pow-succ n) (omega (arith, ap (λ k. limit * 2 ^ k) e), omega arith)
index_bounds limit delta n h (above, inr below) = rw (two-pow-succ n) (omega arith, omega arith)

-- For every delay of 64 bits that reaches the limit, the index `i` of the loop satisfies
-- limit * 2^i <= delay < (limit + 1) * 2^(i + 1).
pub latency_index_bounds :
    (limit delta : ℕ)
    → limit ≤ delta
    → delta < 2 ^ 64
    → (limit * 2 ^ latency_index limit delta ≤ delta)
      × (delta < (limit + 1) * 2 ^ suc (latency_index limit delta))
unfolding latency_index
latency_index_bounds limit delta h d =
    index_bounds limit delta (shift_while 64 (λ x. ltb limit x) (delta / 2) 0) h (
      shift_while_zero-Halves 64 (λ x. ltb limit x) (limit + 1) (delta / 2) (λ x. ground arith)
        (omega arith) (omega arith))

-- The bucket is always a cell of the array.
pub latency_bucket-lt : (limit delta : ℕ) → latency_bucket limit delta < max_latency_record
unfolding latency_bucket
latency_bucket-lt limit delta = ground arith

-- At twice the limit, where the printed range of the second bucket begins, and at the odd number
-- behind it, a delay is still counted in the first bucket.
pub latency_bucket_double : (limit delta : ℕ) → delta / 2 ≡ limit → latency_bucket limit delta ≡ 0
unfolding latency_bucket latency_index
latency_bucket_double limit delta h = rw (
    shift_while-stop 64 (λ x. ltb limit x) (delta / 2) 0
      (le→not-ltb limit (delta / 2) (omega arith)))

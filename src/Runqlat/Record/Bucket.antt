-- ===== src/Runqlat/Record/Bucket.antt =====
-- The bucket of the histogram in which a latency is counted.
use native.Mathlib.Nat.{two-pow-succ}
use uio_linux_sample.Prelude.{
  ℕ, suc, ◌+◌, ◌/◌, ◌^◌, ◌≤◌, ◌<◌, ◌≡◌, refl, ap, inl, inr, arith, ltb, length,
}
use uio_linux_sample.Prelude.Words.{u64}
use uio_linux_sample.Trace.Shift.{shift_while, shift_while_zero-Halves, Halves}
use uio_linux_sample.Trace.Counters.{total, total-set}
use uio_linux_sample.Runqlat.Data.{Info, latency_histogram_entry}
use uio_linux_sample.Runqlat.Record.{histogram_index, histogram_bucket, latency_histogram_store}

index_bounds :
    (delta n : ℕ) → 0 < delta → Halves 1 (delta / 2) n → (2 ^ n ≤ delta) × (delta < 2 ^ suc n)
index_bounds delta n h (above, inl e) =
    rw (two-pow-succ n) (omega (arith, ap (λ k. 2 ^ k) e), omega arith)
index_bounds delta n h (above, inr below) = rw (two-pow-succ n) (omega arith, omega arith)

-- A latency of `delta` milliseconds, of 64 bits and not 0, has the index `i` with
-- 2^i <= delta < 2^(i + 1).
pub histogram_index_bounds :
    (delta : ℕ)
    → 0 < delta
    → delta < 2 ^ 64
    → (2 ^ histogram_index delta ≤ delta) × (delta < 2 ^ suc (histogram_index delta))
unfolding histogram_index
histogram_index_bounds delta h d =
    index_bounds delta (shift_while 64 (λ x. ltb 0 x) (delta / 2) 0) h (
      shift_while_zero-Halves 64 (λ x. ltb 0 x) 1 (delta / 2) (λ x. ground arith) (omega arith)
        (omega arith))

histogram_bucket-lt : (delta : ℕ) → histogram_bucket delta < latency_histogram_entry
unfolding histogram_bucket
histogram_bucket-lt delta = ground arith

-- With a histogram of its size, a latency adds one to the counts of the histogram, taken together
-- and modulo 2^64, and its milliseconds to the sum of the latencies; what is recorded and the traced
-- thread stay.
pub latency_histogram_store-counts :
    (latency : ℕ) (n : Info)
    → length n.latency_hist ≡ latency_histogram_entry
    → let q = latency_histogram_store latency n in
      (u64 (total q.latency_hist) ≡ u64 (suc (total n.latency_hist)))
      × (q.sum_lat ≡ u64 (n.sum_lat + latency / 1000000))
      × (q.records ≡ n.records)
      × (q.pid ≡ n.pid)
unfolding latency_histogram_store
latency_histogram_store-counts latency n h = (
  total-set n.latency_hist (histogram_bucket (latency / 1000000))
      (omega (arith, h, histogram_bucket-lt (latency / 1000000))),
  refl,
  refl,
  refl,
)

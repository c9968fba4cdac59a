-- ===== src/Irqoff/Control/Sums.antt =====
-- What `distribute` shows: the sum over the online CPUs.
use uio_linux_sample.Prelude.{
  ℕ, ◌+◌, ◌≡◌, refl, ◌∙◌, Bool, true, false, List, [], ◌∷◌, arith, length, replicate, All,
}
use uio_linux_sample.Prelude.Words.{u64}
use uio_linux_sample.Trace.Histogram.Laws.{Shows, histogram_show-Shows}
use uio_linux_sample.Irqoff.Data.{Cpu, metadata, max_latency_record}
use uio_linux_sample.Irqoff.Record.Saved.{IsValidTrace, IsValidCpu}
use uio_linux_sample.Trace.Counters.{
  total, sum_over, add_counts, length-add_counts, total-add_counts,
}
use uio_linux_sample.Irqoff.Control.{State, gather, factor, distribute_show_one}

-- The delays that all CPUs have counted.
abbrev pub hist_total : Bool → Cpu → ℕ
hist_total hardirq p = total (metadata hardirq p).latency_count

abbrev pub total_cpus : Bool → List Cpu → ℕ
total_cpus hardirq = sum_over (hist_total hardirq)

metadata-IsValidTrace :
    (hardirq : Bool) (p : Cpu) → IsValidCpu p → IsValidTrace (metadata hardirq p)
metadata-IsValidTrace true p v = v.hardirq
metadata-IsValidTrace false p v = v.softirq

gather-total :
    (hardirq : Bool) (sums : List ℕ) (ps : List Cpu)
    → length sums ≡ max_latency_record
    → All IsValidCpu ps
    → (length (gather hardirq sums ps) ≡ max_latency_record)
      × (u64 (total (gather hardirq sums ps)) ≡ u64 (total sums + total_cpus hardirq ps))
unfolding gather
gather-total hardirq sums [] h v = (h, omega arith)
gather-total hardirq sums (p ∷ ps) h v =
    let counts = (metadata hardirq p).latency_count in
    let fits = (metadata-IsValidTrace hardirq p v.0).counters in
    let ih =
      gather-total hardirq (add_counts sums counts) ps (length-add_counts sums counts ∙ h) v.1 in
    let here = total-add_counts sums counts (omega (arith, fits)) in
    (ih.0, omega (arith, ih.1, here))

-- The histogram that `distribute` prints of the valid buffers of all online CPUs has the ten
-- counters, which sum up (modulo 2^64) to the delays that the CPUs have counted; and what is
-- printed of it shows every counter but zeros at the end.
pub distribute_show_one-Shows :
    (hardirq : Bool) (s : State)
    → All IsValidCpu s.cpus
    → (hist : List ℕ) × (length hist ≡ max_latency_record)
      × (u64 (total hist) ≡ u64 (total_cpus hardirq s.cpus))
      × Shows hist (distribute_show_one hardirq s)
unfolding distribute_show_one
distribute_show_one-Shows hardirq s v =
    let hist = gather hardirq (replicate max_latency_record 0) s.cpus in
    let sum = gather-total hardirq (replicate max_latency_record 0) s.cpus refl v in
    (hist, sum.0, omega (arith, sum.1), histogram_show-Shows hist (factor s.settings))

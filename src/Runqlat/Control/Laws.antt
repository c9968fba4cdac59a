-- ===== src/Runqlat/Control/Laws.antt =====
-- What a write to the files does to the log.
use uio_linux_sample.Prelude.{
  ℕ, ◌≡◌, refl, ap, ◌∙◌, ◌⊎◌, inl, inr, false, not, ◌&&◌, Option, none, some, List, [], ◌∷◌, map,
  length, arith, Bool-cases, suc, All,
}
use uio_linux_sample.Prelude.Words.{ℤ, eqb_ℤ}
use uio_linux_sample.Trace.Counters.{total}
use uio_linux_sample.Runqlat.Data.{TraceEntry, Info, invalid}
use uio_linux_sample.Runqlat.Record.{runqlat_info_reset}
use uio_linux_sample.Runqlat.Record.Laws.{IsClean, Others}
use uio_linux_sample.Runqlat.Record.Refines.{Abstract, Refines}
use uio_linux_sample.Runqlat.Control.{
  zero_count, zeroed_trace, zeroed_task, zero_records, set_pid, done, trace_pid_store,
  threshold_store,
}

length-map {ℓ κ} :
    {A : Type ℓ} {B : Type κ} (f : A → B) (xs : List A) → length (map f xs) ≡ length xs
length-map f [] = refl
length-map f (x ∷ xs) = ap suc (length-map f xs)

zeroed-IsClean : (ts : List TraceEntry) → All IsClean (map zeroed_trace ts)
zeroed-IsClean [] = tt
zeroed-IsClean (t ∷ ts) = (refl, zeroed-IsClean ts)

zeroed-Others : (ts : List TraceEntry) → Others (map zeroed_trace ts) 0 []
zeroed-Others [] = refl
zeroed-Others (t ∷ ts) = (refl, zeroed-IsClean ts)

total-zero_count : (cs : List ℕ) → total (map zero_count cs) ≡ 0
total-zero_count [] = refl
total-zero_count (c ∷ cs) = omega (arith, total-zero_count cs)

-- The state in which tracing of a thread starts.
fresh-Refines :
    (pid : ℤ) (a : Abstract) (n : Info)
    → Refines a n
    → Refines ([], []) (record (runqlat_info_reset (zero_records n)) { pid = pid })
unfolding zero_records runqlat_info_reset
fresh-Refines pid a n r = record {
  holds = record {
    others = map zeroed_trace n.records.trace_entries;
    free = map zeroed_task n.records.task_entries;
    shape = refl;
    current = zeroed-Others n.records.trace_entries;
    traces_size = length-map zeroed_trace n.records.trace_entries ∙ r.holds.traces_size;
    tasks_size = length-map zeroed_task n.records.task_entries ∙ r.holds.tasks_size;
  };
  room = inr (record { trace_free = omega arith; task_free = omega arith });
  hist = length-map zero_count n.latency_hist ∙ r.hist;
}

invalid-eq : (pid : ℤ) → not (eqb_ℤ pid invalid) ≡ false → pid ≡ invalid
invalid-eq pid h = ground arith

-- A write keeps the log or starts an empty one.
abbrev pub Written : Abstract → Info → Type 0
Written a q = Refines a q ⊎ Refines ([], []) q

stopped-Refines :
    (pid : ℤ) (a : Abstract) (n : Info)
    → Refines a n
    → pid ≡ invalid
    → Refines a (record (runqlat_info_reset n) { pid = pid })
unfolding runqlat_info_reset
stopped-Refines pid a n r e = record { holds = r.holds; room = inl e; hist = r.hist }

set_pid-Written : (pid : ℤ) (a : Abstract) (n : Info) → Refines a n → Written a (set_pid pid n)
unfolding set_pid
set_pid-Written pid a n r = elim (Bool-cases (eqb_ℤ n.pid pid)) [
  | inl e ↦ rw e (inl r)
  | inr e ↦ elim (Bool-cases (not (eqb_ℤ pid invalid))) [
    | inl f ↦ rw (e, f) (inr (fresh-Refines pid a n r))
    | inr f ↦ rw (e, f) (inl (stopped-Refines pid a n r (invalid-eq pid f)))
  ]
]

pub trace_pid_store-Written :
    (seen : ℤ) (input : Option ℤ) (a : Abstract) (n : Info)
    → Refines a n
    → Written a (trace_pid_store seen input n).1
unfolding trace_pid_store
trace_pid_store-Written seen none a n r = inl r
trace_pid_store-Written seen (some pid) a n r =
    elim (Bool-cases (not (eqb_ℤ seen invalid) && not (eqb_ℤ pid invalid))) [
      | inl e ↦ rw e (inl r)
      | inr e ↦ rw e (set_pid-Written pid a n r)
    ]

pub threshold_store-Refines :
    (input : Option ℕ) (a : Abstract) (n : Info)
    → Refines a n
    → Refines a (threshold_store input n).1
unfolding threshold_store
threshold_store-Refines none a n r = r
threshold_store-Refines (some threshold) a n r = record {
  holds = r.holds;
  room = r.room;
  hist = r.hist;
}

invalid-ne : (pid : ℤ) → eqb_ℤ pid invalid ≡ false → eqb_ℤ invalid pid ≡ false
invalid-ne pid h = ground arith

-- In a state that represents a log and traces no thread, writing any pid but -1 is accepted and empties the log and the
-- histogram, but keeps the sum of the latencies of the threads that were traced before.
pub trace_pid_store-keeps_sum :
    (pid : ℤ) (a : Abstract) (n : Info)
    → Refines a n
    → n.pid ≡ invalid
    → eqb_ℤ pid invalid ≡ false
    → let (reply, q) = trace_pid_store n.pid (some pid) n in
      (reply ≡ done)
      × (q.pid ≡ pid)
      × Refines ([], []) q
      × (total q.latency_hist ≡ 0)
      × (q.sum_lat ≡ n.sum_lat)
unfolding trace_pid_store set_pid zero_records runqlat_info_reset
trace_pid_store-keeps_sum pid a n r e h =
    simp (e, h, invalid-ne pid h)
      (refl, refl, fresh-Refines pid a n r, total-zero_count n.latency_hist, refl)

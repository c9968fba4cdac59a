-- ===== src/Trace/Stacks.antt =====
-- The buffer of recorded stack traces, as `struct stack_trace_metadata` of trace_irqoff.c and
-- `struct per_cpu_stack_trace` of trace_noschedule.c both lay it out: an array `entries` of return
-- addresses that fills up from the front, and a slot for each trace with what is known of the
-- task (`A`) and the window of `entries` that holds its stack. The arrays of the source that
-- share the slot's index (trace, comms, pids, latency, duration) are the fields of one slot.
pub mod Laws
use uio_linux_sample.Prelude.{ℕ, zero, suc, ◌+◌, ◌%◌, List, [], ◌∷◌, map, length, take, drop, set}

pub record Slot {ℓ} (A : Type ℓ) : Type ℓ where
  pub info : A
  -- the pointer `trace->entries`, as an offset into the buffer's `entries`
  pub start : ℕ
  pub nr_entries : ℕ

pub record Stacks {ℓ} (A : Type ℓ) : Type ℓ where
  pub slots : List (Slot A)
  pub nr_slots : ℕ
  pub entries : List ℕ
  pub nr_entries : ℕ

module _ {ℓ} {A : Type ℓ} where
  -- The words `vs` stored at `xs[off]` and behind; what falls outside is lost.
  abbrev pub write_at : ℕ → List A → List A → List A
  write_at off vs [] = []
  write_at zero [] (x ∷ xs) = x ∷ xs
  write_at zero (v ∷ vs) (x ∷ xs) = v ∷ write_at zero vs xs
  write_at (suc off) vs (x ∷ xs) = x ∷ write_at off vs xs

  abbrev pub slice : List A → ℕ → ℕ → List A
  slice xs off n = take n (drop off xs)

module _ {ℓ} {A : Type ℓ} where
  -- The stores of a record call: the slot `nr_slots`, its stack behind the earlier stacks, and
  -- both counters, of `word` values each.
  unfoldable pub append : ℕ → A → List ℕ → Stacks A → Stacks A
  append word a stack s = record {
    slots =
        set s.slots s.nr_slots
          (record { info = a; start = s.nr_entries; nr_entries = length stack });
    nr_slots = (s.nr_slots + 1) % word;
    entries = write_at s.nr_entries stack s.entries;
    nr_entries = (s.nr_entries + length stack) % word;
  }

  -- `nr_entries = 0` and the number of slots `= 0`; the arrays stay.
  unfoldable pub clear : Stacks A → Stacks A
  clear s = record s { nr_slots = 0; nr_entries = 0 }

  abbrev pub recorded : Stacks A → List (Slot A)
  recorded s = take s.nr_slots s.slots

  -- What a reader sees of one slot.
  abbrev pub trace_of : List ℕ → Slot A → A × List ℕ
  trace_of entries t = (t.info, slice entries t.start t.nr_entries)

  -- What a reader of the buffer sees: each recorded trace with its stack, oldest first.
  abbrev pub contents : Stacks A → List (A × List ℕ)
  contents s = map (trace_of s.entries) (recorded s)

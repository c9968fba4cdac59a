-- ===== src/Irqoff/Record/Saved.antt =====
-- The invariant of a CPU's two buffers, and what `save_trace` and `trace_irqoff_record` do to them.
use uio_linux_sample.Prelude.{
  ℕ, ◌-◌, ◌^◌, ◌≤◌, ◌<◌, ◌≡◌, refl, subst, ◌⊎◌, inl, inr, ◌↔◌, Bool, true, false, not, Option, none,
  some, List, [], ◌∷◌, ◌++◌, arith, leb, length, Option-cases, Bool-cases,
}
use uio_linux_sample.Trace.Stacks.{Stacks, append, contents}
use uio_linux_sample.Trace.Stacks.Laws.{IsValid, Fits, append-IsValid, contents-append}
use uio_linux_sample.Irqoff.Data.{
  TraceInfo, Metadata, Cpu, Context, IsKernel, SavesWithin, max_trace_entries,
  max_stack_trace_entries, max_latency_record,
}
use uio_linux_sample.Irqoff.Record.{store_stack_trace, trace_info, save_into}

pub record IsValidTrace (m : Metadata) : Type 0 where
  pub buffers : IsValid max_stack_trace_entries max_trace_entries m.stacks
  pub counters : length m.latency_count ≡ max_latency_record

pub record IsValidCpu (p : Cpu) : Type 0 where
  pub hardirq : IsValidTrace p.hardirq_trace
  pub softirq : IsValidTrace p.softirq_trace

store_stack_trace_bound :
    (c : Context) (regs : Option ℕ) (size skip : ℕ)
    → IsKernel c
    → length (store_stack_trace c regs size skip) ≤ size
unfolding store_stack_trace
store_stack_trace_bound c none size skip k = k.save_bound size skip
store_stack_trace_bound c (some r) size skip k = elim (Option-cases c.stack_trace_save_regs) [
  | inl e ↦ rw e (k.save_bound size skip)
  | inr (save, e) ↦ rw e ((subst SavesWithin e k.save_regs_bound) r size skip)
]

-- The trace that a call with room appends.
abbrev pub new_trace : Context → Option ℕ → Bool → ℕ → Metadata → TraceInfo × List ℕ
new_trace c regs hardirq latency m = (
  trace_info c regs hardirq latency,
  store_stack_trace c regs (max_trace_entries - m.stacks.nr_entries) 0,
)

-- A full buffer refuses the trace and stays as it is.
pub record Refused (m : Metadata) (r : Bool × Metadata) : Type 0 where
  pub full :
      (max_stack_trace_entries ≤ m.stacks.nr_slots) ⊎ (max_trace_entries - 1 ≤ m.stacks.nr_entries)
  pub result : r.0 ≡ false
  pub same : r.1 ≡ m

-- Otherwise the trace is appended to those that were there, and the result says whether words
-- are left for another.
pub record Appended (t : TraceInfo × List ℕ) (m : Metadata) (r : Bool × Metadata) : Type 0 where
  pub log : contents r.1.stacks ≡ contents m.stacks ++ t ∷ []
  pub valid : IsValidTrace r.1
  pub result : (r.0 ≡ true) ↔ (r.1.stacks.nr_entries < max_trace_entries - 1)
  pub same_counts : r.1.latency_count ≡ m.latency_count
  pub same_time : r.1.last_timestamp ≡ m.last_timestamp

module _ (c : Context) (regs : Option ℕ) (hardirq : Bool) (latency : ℕ) (m : Metadata)
    (k : IsKernel c) (v : IsValidTrace m) where
  stack : List ℕ
  stack = store_stack_trace c regs (max_trace_entries - m.stacks.nr_entries) 0

  appended : Stacks TraceInfo
  unfolding stack
  appended = append (2 ^ 64) (trace_info c regs hardirq latency) stack m.stacks

  appended-Fits :
      m.stacks.nr_slots < max_stack_trace_entries
      → Fits max_stack_trace_entries max_trace_entries (2 ^ 64) stack m.stacks
  unfolding stack
  appended-Fits h = record {
    valid = v.buffers;
    slot_free = h;
    words_free = omega (
      arith,
      store_stack_trace_bound c regs (max_trace_entries - m.stacks.nr_entries) 0 k,
      v.buffers.entries_fit,
    );
    slots_small = omega arith;
    words_small = omega arith;
  }

  appended-Appended :
      m.stacks.nr_slots < max_stack_trace_entries
      → Appended
          (new_trace c regs hardirq latency m)
          m
          (not (leb (max_trace_entries - 1) appended.nr_entries), record m { stacks = appended })
  unfolding appended stack
  appended-Appended h = record {
    log = contents-append (trace_info c regs hardirq latency) stack m.stacks (appended-Fits h);
    valid = record {
      buffers = append-IsValid (trace_info c regs hardirq latency) stack m.stacks (appended-Fits h);
      counters = v.counters;
    };
    result = (λ e. ground arith, λ lt. ground arith);
    same_counts = refl;
    same_time = refl;
  }

  -- With buffers that are laid out as the module declares them, `save_trace` either refuses the
  -- trace because the slots or the words are used up, changing nothing, or appends it, with the
  -- stack that the kernel saved, behind all earlier traces, which stay as they were.
  pub save_into-cases :
      Refused m (save_into c regs hardirq latency m)
      ⊎ Appended (new_trace c regs hardirq latency m) m (save_into c regs hardirq latency m)
  unfolding save_into appended stack
  save_into-cases = elim (Bool-cases (leb max_stack_trace_entries m.stacks.nr_slots)) [
    | inl full ↦ rw full (inl (record { full = inl (ground arith); result = refl; same = refl }))
    | inr free ↦ elim (Bool-cases (leb (max_trace_entries - 1) m.stacks.nr_entries)) [
      | inl full ↦
          rw (free, full) (inl (record { full = inr (ground arith); result = refl; same = refl }))
      | inr room ↦ rw (free, room) (inr (appended-Appended (ground arith)))
    ]
  ]

-- ===== src/Nosched/Record/Laws.antt =====
-- The invariant of a CPU's buffer, and what the timer's tick does to it.
use native.Mathlib.Nat.{two-pow-succ}
use uio_linux_sample.Prelude.{
  ℕ, suc, ◌-◌, ◌*◌, ◌/◌, ◌^◌, ◌≤◌, ◌<◌, ◌≡◌, refl, ap, subst, ◌⊎◌, inl, inr, ◌↔◌, Bool, true, false,
  not, Option, none, some, List, [], ◌∷◌, ◌++◌, arith, leb, leb→le, length, Option-cases, ltb,
  ltb→lt, lt→ltb, ◌∙◌, Bool-cases, if◌then◌else◌,
}
use uio_linux_sample.Prelude.Words.{sub64}
use uio_linux_sample.Trace.Shift.{shift_while, shift_while_zero-Halves, Halves}
use uio_linux_sample.Trace.Stacks.{Stacks, append, contents}
use uio_linux_sample.Trace.Stacks.Laws.{
  IsValid, Fits, append-IsValid, contents-append, nr_slots-append,
}
use uio_linux_sample.Nosched.Data.{
  Settings, TraceInfo, Cpu, Context, IsKernel, SavesWithin, duration_histogram_entry,
  max_trace_entries, max_stack_trace_entries,
}
use uio_linux_sample.Nosched.Record.{
  in_kernel, store_stack_trace, trace_info, stack_trace_record_into, stack_trace_record, is_running,
  record_running, trace_nosched_hrtimer_handler, hist_index, hist_bucket,
}

-- The arrays have their sizes and are filled within them.
pub record IsValidCpu (p : Cpu) : Type 0 where
  pub buffers : IsValid max_stack_trace_entries max_trace_entries p.stacks
  pub counters : length p.hist ≡ duration_histogram_entry

-- A task that is skipped has its trace in the last slot.
abbrev pub SkipSound : Option ℕ → ℕ → Type 0
SkipSound none nr_slots = Unit
SkipSound (some task) nr_slots = 0 < nr_slots

pub record Inv (p : Cpu) : Type 0 where
  pub valid : IsValidCpu p
  pub skipped : SkipSound p.skip p.stacks.nr_slots

store_stack_trace_bound :
    (c : Context) (regs : Option ℕ) (size skip : ℕ)
    → IsKernel c
    → length (store_stack_trace c regs size skip) ≤ size
unfolding store_stack_trace
store_stack_trace_bound c none size skip k = k.save_bound size skip
store_stack_trace_bound c (some r) size skip k = elim (Option-cases c.stack_trace_save_regs) [
  | inl e ↦ rw e (k.save_bound size skip)
  | inr (save, e) ↦ rw e ((subst SavesWithin e k.save_regs_bound) r size skip)
]

abbrev pub new_trace : Context → ℕ → Cpu → TraceInfo × List ℕ
new_trace c duration p = (
  trace_info c duration,
  store_stack_trace c c.irq_regs (max_trace_entries - p.stacks.nr_entries) 0,
)

pub record Refused (p : Cpu) (r : Bool × Cpu) : Type 0 where
  pub full :
      (max_stack_trace_entries ≤ p.stacks.nr_slots) ⊎ (max_trace_entries ≤ p.stacks.nr_entries)
  pub same : r ≡ (false, p)

pub record Appended (t : TraceInfo × List ℕ) (p : Cpu) (r : Bool × Cpu) : Type 0 where
  pub log : contents r.1.stacks ≡ contents p.stacks ++ t ∷ []
  pub valid : IsValidCpu r.1
  pub result : (r.0 ≡ true) ↔ (r.1.stacks.nr_entries < max_trace_entries)
  pub slots : r.1.stacks.nr_slots ≡ suc p.stacks.nr_slots
  pub room :
      (p.stacks.nr_slots < max_stack_trace_entries) × (p.stacks.nr_entries < max_trace_entries)
  pub same_rest :
      (r.1.hist ≡ p.hist)
      × (r.1.last_timestamp ≡ p.last_timestamp)
      × (r.1.skip ≡ p.skip)
      × (r.1.hrtimer ≡ p.hrtimer)

module _ (c : Context) (duration : ℕ) (p : Cpu) (k : IsKernel c) (v : IsValidCpu p) where
  stack : List ℕ
  stack = store_stack_trace c c.irq_regs (max_trace_entries - p.stacks.nr_entries) 0

  appended : Stacks TraceInfo
  unfolding stack
  appended = append (2 ^ 32) (trace_info c duration) stack p.stacks

  appended-Fits :
      p.stacks.nr_slots < max_stack_trace_entries
      → p.stacks.nr_entries < max_trace_entries
      → Fits max_stack_trace_entries max_trace_entries (2 ^ 32) stack p.stacks
  unfolding stack
  appended-Fits h h' = record {
    valid = v.buffers;
    slot_free = h;
    words_free =
        omega (
          arith,
          store_stack_trace_bound c c.irq_regs (max_trace_entries - p.stacks.nr_entries) 0 k,
        );
    slots_small = omega arith;
    words_small = omega arith;
  }

  appended-Appended :
      p.stacks.nr_slots < max_stack_trace_entries
      → p.stacks.nr_entries < max_trace_entries
      → Appended
          (new_trace c duration p)
          p
          (not (leb max_trace_entries appended.nr_entries), record p { stacks = appended })
  unfolding appended stack
  appended-Appended h h' = record {
    log = contents-append (trace_info c duration) stack p.stacks (appended-Fits h h');
    valid = record {
      buffers = append-IsValid (trace_info c duration) stack p.stacks (appended-Fits h h');
      counters = v.counters;
    };
    result = (λ e. ground arith, λ lt. ground arith);
    slots = nr_slots-append (trace_info c duration) stack p.stacks (appended-Fits h h');
    room = (h, h');
    same_rest = (refl, refl, refl, refl);
  }

  -- With valid buffers, a record call either finds the slots or the words used up and changes
  -- nothing, or appends one trace behind the earlier ones, which stay as they were; the result
  -- then says whether words are left.
  pub stack_trace_record_into-cases :
      Refused p (stack_trace_record_into c c.irq_regs duration p)
      ⊎ Appended (new_trace c duration p) p (stack_trace_record_into c c.irq_regs duration p)
  unfolding stack_trace_record_into appended stack
  stack_trace_record_into-cases =
      elim (Bool-cases (leb max_stack_trace_entries p.stacks.nr_slots)) [
        | inl full ↦ rw full (inl (record { full = inl (ground arith); same = refl }))
        | inr free ↦ elim (Bool-cases (leb max_trace_entries p.stacks.nr_entries)) [
          | inl full ↦ rw (free, full) (inl (record { full = inr (ground arith); same = refl }))
          | inr room ↦ rw (free, room) (inr (appended-Appended (ground arith) (ground arith)))
        ]
      ]

-- What a tick may do to a CPU.
abbrev pub delta : Context → Cpu → ℕ
delta c p = sub64 c.local_clock p.last_timestamp

-- The tick interrupted the kernel code of a thread that is not the idle task and not alone.
abbrev pub IsHeld : Context → Type 0
IsHeld c =
    (c.is_idle_task c.current ≡ false)
    × ((regs : ℕ) × (c.irq_regs ≡ some regs) × (c.user_mode regs ≡ false))
    × (c.single_task_running ≡ false)

abbrev pub IsFull : Cpu → Type 0
IsFull p = (max_stack_trace_entries ≤ p.stacks.nr_slots) ⊎ (max_trace_entries ≤ p.stacks.nr_entries)

-- A thread whose trace is not to be recorded: it is already, or its time is short, or the buffer is
-- full.
pub record Passes (g : Settings) (c : Context) (p q : Cpu) : Type 0 where
  pub why : ((task : ℕ) × (p.skip ≡ some task)) ⊎ ((delta c p < g.duration_threshold) ⊎ IsFull p)
  pub stacks : q.stacks ≡ p.stacks
  pub skip : q.skip ≡ p.skip

-- A thread whose trace is recorded.
pub record Records (g : Settings) (c : Context) (p q : Cpu) : Type 0 where
  pub unmarked : p.skip ≡ none
  pub long : g.duration_threshold ≤ delta c p
  pub slot_free : p.stacks.nr_slots < max_stack_trace_entries
  pub word_free : p.stacks.nr_entries < max_trace_entries
  pub log : contents q.stacks ≡ contents p.stacks ++ new_trace c (delta c p) p ∷ []
  pub marks : q.skip ≡ (if ltb q.stacks.nr_entries max_trace_entries then some c.current else none)

record Ran (g : Settings) (c : Context) (p q : Cpu) : Type 0 where
  inv : Inv q
  case : Passes g c p q ⊎ Records g c p q
  hist : q.hist ≡ p.hist
  time : q.last_timestamp ≡ p.last_timestamp

same-Ran :
    (g : Settings) (c : Context) (p : Cpu)
    → Inv p
    → ((task : ℕ) × (p.skip ≡ some task)) ⊎ ((delta c p < g.duration_threshold) ⊎ IsFull p)
    → Ran g c p p
same-Ran g c p v w = record {
  inv = v;
  case = inl (record { why = w; stacks = refl; skip = refl });
  hist = refl;
  time = refl;
}

-- What record_running makes of the result of the record call.
mark : Context → Bool × Cpu → Cpu
mark c r = if r.0 then record r.1 { skip = some c.current } else r.1

logged-Ran :
    (g : Settings) (c : Context) (p : Cpu) (r : Bool × Cpu)
    → p.skip ≡ none
    → g.duration_threshold ≤ delta c p
    → Appended (new_trace c (delta c p) p) p r
    → Ran g c p (mark c r)
unfolding mark
logged-Ran g c p (true, q) e h a = record {
  inv = record {
    valid = record { buffers = a.valid.buffers; counters = a.valid.counters };
    skipped = omega (arith, a.slots);
  };
  case = inr (record {
    unmarked = e;
    long = h;
    slot_free = a.room.0;
    word_free = a.room.1;
    log = a.log;
    marks = rw (lt→ltb _ _ (a.result.0 refl));
  });
  hist = a.same_rest.0;
  time = a.same_rest.1;
}
logged-Ran g c p (false, q) e h a =
    let words_used : ltb q.stacks.nr_entries max_trace_entries ≡ false =
      elim (Bool-cases (ltb q.stacks.nr_entries max_trace_entries)) [
        | inl t ↦ absurd (cc (a.result.1 (ltb→lt _ _ t)))
        | inr f ↦ f
      ] in
    record {
      inv = record { valid = a.valid; skipped = rw (a.same_rest.2, e) tt };
      case = inr (record {
        unmarked = e;
        long = h;
        slot_free = a.room.0;
        word_free = a.room.1;
        log = a.log;
        marks = rw words_used (a.same_rest.2 ∙ e);
      });
      hist = a.same_rest.0;
      time = a.same_rest.1;
    }

record_running-Ran :
    (g : Settings) (c : Context) (skip : Option ℕ) (p : Cpu)
    → IsKernel c
    → Inv p
    → p.skip ≡ skip
    → Ran g c p (record_running g c skip p)
unfolding record_running stack_trace_record mark
record_running-Ran g c (some t) p k v e = same-Ran g c p v (inl (t, e))
record_running-Ran g c none p k v e = elim (Bool-cases (leb g.duration_threshold (delta c p))) [
  | inl h ↦ elim (stack_trace_record_into-cases c (delta c p) p k v.valid) [
    | inl r ↦ rw (h, r.same) (same-Ran g c p v (inr (inr r.full)))
    | inr a ↦
        rw h
          (logged-Ran g c p (stack_trace_record_into c c.irq_regs (delta c p) p) e (leb→le _ _ h) a)
  ]
  | inr h ↦ rw h (same-Ran g c p v (inr (inl (ground arith))))
]

in_kernel-some :
    (c : Context) (o : Option ℕ)
    → in_kernel c o ≡ true
    → (regs : ℕ) × (o ≡ some regs) × (c.user_mode regs ≡ false)
in_kernel-some c none h = absurd (cc h)
in_kernel-some c (some regs) h = (regs, refl, ground arith)

is_running-IsHeld : (c : Context) → is_running c ≡ true → IsHeld c
is_running-IsHeld c h =
    let busy : c.is_idle_task c.current ≡ false = ground arith in
    let kernel : in_kernel c c.irq_regs ≡ true = ground arith in
    let shared : c.single_task_running ≡ false = ground arith in
    (busy, in_kernel-some c c.irq_regs kernel, shared)

IsHeld-is_running : (c : Context) → IsHeld c → is_running c ≡ true
IsHeld-is_running c (busy, (regs, e, kernel), shared) = rw (busy, e, kernel, shared)

-- What a tick does to the mark, the log and the measurement.
abbrev pub TickCase : Settings → Context → Cpu → Cpu → Type 0
TickCase g c p q =
    (¬ IsHeld c × (q.stacks ≡ p.stacks) × (q.skip ≡ p.skip) × (q.last_timestamp ≡ c.local_clock))
    ⊎ (IsHeld c × (q.last_timestamp ≡ p.last_timestamp) × (Passes g c p q ⊎ Records g c p q))

pub record Ticked (g : Settings) (c : Context) (p q : Cpu) : Type 0 where
  pub inv : Inv q
  pub rearmed : q.hrtimer ≡ some g.sampling_period
  pub hist : q.hist ≡ p.hist
  pub case : TickCase g c p q

-- With a saved stack within the bound that the kernel documents, and the invariant of the CPU, a
-- tick arms the timer again, keeps the invariant and touches no histogram. A tick that did not
-- interrupt the kernel code of a thread that is neither the idle task nor alone on its CPU restarts
-- the measurement and leaves the log and the mark alone. A tick that did goes on measuring. It
-- appends the trace of the thread exactly if no task is marked, the time since the last mark
-- reaches the threshold and a slot and a word are free, and then marks the thread if words are left
-- behind the trace, and none otherwise; else it leaves the log and the mark alone.
pub trace_nosched_hrtimer_handler-Ticked :
    (g : Settings) (c : Context) (p : Cpu)
    → IsKernel c
    → Inv p
    → Ticked g c p (trace_nosched_hrtimer_handler g c p)
unfolding trace_nosched_hrtimer_handler
trace_nosched_hrtimer_handler-Ticked g c p k v = elim (Bool-cases (is_running c)) [
  | inl e ↦
      let r = record_running-Ran g c p.skip p k v refl in
      rw e (record {
        inv = record {
          valid = record { buffers = r.inv.valid.buffers; counters = r.inv.valid.counters };
          skipped = r.inv.skipped;
        };
        rearmed = refl;
        hist = r.hist;
        case = inr (
          is_running-IsHeld c e,
          r.time,
          elim r.case [
            | inl a ↦ inl (record { why = a.why; stacks = a.stacks; skip = a.skip })
            | inr a ↦ inr (record {
              unmarked = a.unmarked;
              long = a.long;
              slot_free = a.slot_free;
              word_free = a.word_free;
              log = a.log;
              marks = a.marks;
            })
          ],
        );
      })
  | inr e ↦ rw e (record {
    inv = record {
      valid = record { buffers = v.valid.buffers; counters = v.valid.counters };
      skipped = v.skipped;
    };
    rearmed = refl;
    hist = refl;
    case = inl ((λ h. cc (IsHeld-is_running c h)), refl, refl, refl);
  })
]

step_bounds :
    (limit delay n : ℕ)
    → limit ≤ delay
    → Halves limit (delay / 2) n
    → (limit * 2 ^ n ≤ delay) × (delay < limit * 2 ^ suc n)
step_bounds limit delay n h (above, inl e) =
    rw (two-pow-succ n) (omega (arith, ap (λ k. limit * 2 ^ k) e), omega arith)
step_bounds limit delay n h (above, inr below) = rw (two-pow-succ n) (omega arith, omega arith)

-- For a step that is not zero and every delay of 64 bits that reaches it, the index `i` of the
-- loop satisfies step * 2^i <= delay < step * 2^(i + 1).
pub hist_index_bounds :
    (limit delay : ℕ)
    → 0 < limit
    → limit ≤ delay
    → delay < 2 ^ 64
    → (limit * 2 ^ hist_index limit delay ≤ delay)
      × (delay < limit * 2 ^ suc (hist_index limit delay))
unfolding hist_index
hist_index_bounds limit delay p h d =
    step_bounds limit delay (shift_while 64 (λ x. leb limit x) (delay / 2) 0) h
      (shift_while_zero-Halves 64 (λ x. leb limit x) limit (delay / 2) (λ x. refl) p (omega arith))

pub hist_bucket-lt : (limit delay : ℕ) → hist_bucket limit delay < duration_histogram_entry
unfolding hist_bucket
hist_bucket-lt limit delay = ground arith

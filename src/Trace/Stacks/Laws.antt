-- ===== src/Trace/Stacks/Laws.antt =====
-- The buffer of stacks as a bounded log.
use uio_linux_sample.Prelude.{
  ℕ, zero, suc, ◌+◌, ◌≤◌, ◌<◌, ◌≡◌, refl, ap, ap₂, ◌∙◌, arith, List, [], ◌∷◌, ◌++◌, map, length,
  take, All, All-append, All-map, length-set, take-set_end,
}
use mathlib.Core.List.{map-append}
use native.Mathlib.Nat.{mod-eq_of_lt}
use uio_linux_sample.Trace.Stacks.{
  Slot, Stacks, write_at, slice, append, clear, recorded, trace_of, contents,
}

module _ {ℓ} {A : Type ℓ} where
  pub length-write_at : (off : ℕ) (vs xs : List A) → length (write_at off vs xs) ≡ length xs
  length-write_at off vs [] = refl
  length-write_at zero [] (x ∷ xs) = refl
  length-write_at zero (v ∷ vs) (x ∷ xs) = ap suc (length-write_at zero vs xs)
  length-write_at (suc off) vs (x ∷ xs) = ap suc (length-write_at off vs xs)

  take-write_at :
      (vs xs : List A) → length vs ≤ length xs → take (length vs) (write_at zero vs xs) ≡ vs
  take-write_at [] [] h = refl
  take-write_at [] (x ∷ xs) h = refl
  take-write_at (v ∷ vs) [] h = absurd (omega arith)
  take-write_at (v ∷ vs) (x ∷ xs) h = ap (◌∷◌ v) (take-write_at vs xs (omega arith))

  -- Reading back what was written.
  pub slice-write_at_self :
      (off : ℕ) (vs xs : List A)
      → off + length vs ≤ length xs
      → slice (write_at off vs xs) off (length vs) ≡ vs
  slice-write_at_self zero vs xs h = take-write_at vs xs (omega arith)
  slice-write_at_self (suc off) vs [] h = absurd (omega arith)
  slice-write_at_self (suc off) vs (x ∷ xs) h = slice-write_at_self off vs xs (omega arith)

  take-write_at_before :
      (n off : ℕ) (vs xs : List A) → n ≤ off → take n (write_at off vs xs) ≡ take n xs
  take-write_at_before zero off vs xs h = refl
  take-write_at_before (suc n) off vs [] h = refl
  take-write_at_before (suc n) zero vs (x ∷ xs) h = absurd (omega arith)
  take-write_at_before (suc n) (suc off) vs (x ∷ xs) h =
      ap (◌∷◌ x) (take-write_at_before n off vs xs (omega arith))

  -- A window that ends where the write begins is not touched.
  pub slice-write_at_before :
      (start n off : ℕ) (vs xs : List A)
      → start + n ≤ off
      → slice (write_at off vs xs) start n ≡ slice xs start n
  slice-write_at_before zero n off vs xs h = take-write_at_before n off vs xs (omega arith)
  slice-write_at_before (suc start) n off vs [] h = refl
  slice-write_at_before (suc start) n zero vs (x ∷ xs) h = absurd (omega arith)
  slice-write_at_before (suc start) n (suc off) vs (x ∷ xs) h =
      slice-write_at_before start n off vs xs (omega arith)

module _ {ℓ} {A : Type ℓ} where
  abbrev pub Within : ℕ → Slot A → Type 0
  Within n t = t.start + t.nr_entries ≤ n

  -- The arrays have `cap` slots and `room` words, and every recorded stack lies in the words
  -- that are filled.
  pub record IsValid (cap room : ℕ) (s : Stacks A) : Type 0 where
    pub slots_size : length s.slots ≡ cap
    pub entries_size : length s.entries ≡ room
    pub slots_fit : s.nr_slots ≤ cap
    pub entries_fit : s.nr_entries ≤ room
    pub windows : All (Within s.nr_entries) (recorded s)

  pub clear-IsValid :
      {cap room : ℕ} (s : Stacks A) → IsValid cap room s → IsValid cap room (clear s)
  unfolding clear
  clear-IsValid s v = record {
    slots_size = v.slots_size;
    entries_size = v.entries_size;
    slots_fit = omega arith;
    entries_fit = omega arith;
    windows = tt;
  }

  pub contents-clear : (s : Stacks A) → contents (clear s) ≡ []
  unfolding clear
  contents-clear s = refl

  map-trace_of :
      (off : ℕ) (stack xs : List ℕ) (ts : List (Slot A))
      → All (Within off) ts
      → map (trace_of (write_at off stack xs)) ts ≡ map (trace_of xs) ts
  map-trace_of off stack xs [] h = refl
  map-trace_of off stack xs (t ∷ ts) h =
      ap₂ ◌∷◌ (ap (λ w. (t.info, w)) (slice-write_at_before t.start t.nr_entries off stack xs h.0))
        (map-trace_of off stack xs ts h.1)

  -- What an `append` with room needs: counters that do not wrap, a free slot and free words.
  pub record Fits (cap room word : ℕ) (stack : List ℕ) (s : Stacks A) : Type 0 where
    pub valid : IsValid cap room s
    pub slot_free : s.nr_slots < cap
    pub words_free : s.nr_entries + length stack ≤ room
    pub slots_small : cap < word
    pub words_small : room < word

  module _ {cap room word : ℕ} (a : A) (stack : List ℕ) (s : Stacks A)
      (f : Fits cap room word stack s) where
    new_slot : Slot A
    new_slot = record { info = a; start = s.nr_entries; nr_entries = length stack }

    pub nr_slots-append : (append word a stack s).nr_slots ≡ suc s.nr_slots
    unfolding append
    nr_slots-append = mod-eq_of_lt {n = s.nr_slots + 1} {m = word} (omega arith) ∙ omega arith

    nr_entries-append : (append word a stack s).nr_entries ≡ s.nr_entries + length stack
    unfolding append
    nr_entries-append = mod-eq_of_lt {n = s.nr_entries + length stack} {m = word} (omega arith)

    recorded-append : recorded (append word a stack s) ≡ recorded s ++ new_slot ∷ []
    unfolding append new_slot
    recorded-append = rw nr_slots-append (take-set_end s.nr_slots s.slots new_slot (omega arith))

    windows-append : All (Within (s.nr_entries + length stack)) (recorded s ++ new_slot ∷ [])
    unfolding new_slot
    windows-append =
        All-append (Within (s.nr_entries + length stack)) (recorded s) (new_slot ∷ [])
          (All-map (Within s.nr_entries) (Within (s.nr_entries + length stack)) (λ t h. omega arith)
            (recorded s) f.valid.windows)
          (omega arith, tt)

    recorded-append-Within :
        All (Within (append word a stack s).nr_entries) (recorded (append word a stack s))
    recorded-append-Within = rw (recorded-append, nr_entries-append) windows-append

    pub append-IsValid : IsValid cap room (append word a stack s)
    unfolding append new_slot
    append-IsValid = record {
      slots_size = omega (arith, length-set s.slots s.nr_slots new_slot, f.valid.slots_size);
      entries_size = omega (arith, length-write_at s.nr_entries stack s.entries);
      slots_fit = omega (arith, nr_slots-append);
      entries_fit = omega (arith, nr_entries-append);
      windows = recorded-append-Within;
    }

    trace_of-new_slot : trace_of (write_at s.nr_entries stack s.entries) new_slot ≡ (a, stack)
    unfolding new_slot
    trace_of-new_slot =
        ap (λ w. (a, w))
          (slice-write_at_self s.nr_entries stack s.entries (omega (arith, f.valid.entries_size)))

    entries-append : (append word a stack s).entries ≡ write_at s.nr_entries stack s.entries
    unfolding append
    entries-append = refl

    -- One trace more, and the earlier ones as they were.
    pub contents-append : contents (append word a stack s) ≡ contents s ++ (a, stack) ∷ []
    contents-append =
        rw (recorded-append, entries-append, map-append)
          (ap₂ ◌++◌ (map-trace_of s.nr_entries stack s.entries (recorded s) f.valid.windows)
            (ap (λ t. t ∷ []) trace_of-new_slot))

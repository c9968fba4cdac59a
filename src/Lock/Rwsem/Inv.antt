-- ===== src/Lock/Rwsem/Inv.antt =====
-- A writer is alone.
use uio_linux_sample.Prelude.{
  ℕ, zero, suc, ◌+◌, ◌≤◌, ◌≡◌, refl, ap, sym, subst, ◌∙◌, ◌⊎◌, inl, inr, Bool, true, false, List,
  ◌∷◌, ◌++◌, arith, replicate,
}
use uio_linux_sample.Trace.Counters.{sum_over, sum_over-swap}
use uio_linux_sample.Lock.Rwsem.{
  RwSemaphore, IsRwSemaphore, Reads, Writes, pred, Pc, outside, reading, writing, System, Step,
  read_begins, read_ends, write_begins, write_ends, Steps, here, more,
}

abbrev pub reads : Pc → ℕ
reads outside = 0
reads reading = 1
reads writing = 0

abbrev pub writes : Pc → ℕ
writes outside = 0
writes reading = 0
writes writing = 1

abbrev pub as_number : Bool → ℕ
as_number true = 1
as_number false = 0

as_number_bound : (b : Bool) → as_number b ≤ 1
as_number_bound true = omega arith
as_number_bound false = omega arith

replaced :
    (f : Pc → ℕ) (ps before after : List Pc) (p q : Pc)
    → ps ≡ before ++ p ∷ after
    → sum_over f (before ++ q ∷ after) + f p ≡ sum_over f ps + f q
replaced f ps before after p q e = rw e (sum_over-swap f before after p q)

all_outside : (f : Pc → ℕ) (n : ℕ) → f outside ≡ 0 → sum_over f (replicate n outside) ≡ 0
all_outside f zero h = refl
all_outside f (suc n) h = omega (arith, h, all_outside f n h)

module _ (k : RwSemaphore) where
  -- The semaphore knows who is inside, and a writer is alone.
  pub record Inv (s : System k) : Type 0 where
    pub readers : sum_over reads s.threads ≡ k.readers s.rwsem
    pub writer : sum_over writes s.threads ≡ as_number (k.writer s.rwsem)
    pub alone : (k.writer s.rwsem ≡ false) ⊎ (k.readers s.rwsem ≡ 0)

  abbrev pub loaded : ℕ → System k
  loaded n = record { rwsem = k.unlocked; threads = replicate n outside }

module _ (k : RwSemaphore) (law : IsRwSemaphore k) where
  Step-Inv : {s t : System k} → Step k s t → Inv k s → Inv k t
  Step-Inv {s = s} (read_begins before after m e d) h =
      let r = replaced reads s.threads before after outside reading e in
      let w = replaced writes s.threads before after outside reading e in
      let (free, free', one_more) = subst (Reads k s.rwsem) d (law.lets_read s.rwsem) in
      let none_writes : as_number (k.writer s.rwsem) ≡ 0 = ap as_number free in
      record {
        readers = omega (arith, r, h.readers, one_more);
        writer = rw free' (omega (arith, w, h.writer, none_writes));
        alone = inl free';
      }
  Step-Inv {s = s} (read_ends before after e) h =
      let n = sum_over reads (before ++ outside ∷ after) in
      let r = replaced reads s.threads before after reading outside e in
      let w = replaced writes s.threads before after reading outside e in
      let (one_less, same) = law.ends_read s.rwsem in
      let left : k.readers s.rwsem ≡ suc n = omega (arith, r, h.readers) in
      record {
        readers = sym (one_less ∙ ap pred left);
        writer = rw same (omega (arith, w, h.writer));
        alone = elim (h.alone) [
          | inl free ↦ inl (same ∙ free)
          | inr none_reads ↦ absurd (omega (arith, left, none_reads))
        ];
      }
  Step-Inv {s = s} (write_begins before after m e d) h =
      let r = replaced reads s.threads before after outside writing e in
      let w = replaced writes s.threads before after outside writing e in
      let (free, none_reads, mine, still_none) =
        subst (Writes k s.rwsem) d (law.lets_write s.rwsem) in
      let none_writes : as_number (k.writer s.rwsem) ≡ 0 = ap as_number free in
      record {
        readers = omega (arith, r, h.readers, none_reads, still_none);
        writer = rw mine (omega (arith, w, h.writer, none_writes));
        alone = inr still_none;
      }
  Step-Inv {s = s} (write_ends before after e) h =
      let r = replaced reads s.threads before after writing outside e in
      let w = replaced writes s.threads before after writing outside e in
      let (same, free) = law.ends_write s.rwsem in
      let bound = as_number_bound (k.writer s.rwsem) in
      record {
        readers = omega (arith, r, h.readers, same);
        writer = rw free (omega (arith, w, h.writer, bound));
        alone = inl free;
      }

  Steps-Inv : {s t : System k} → Inv k s → Steps k s t → Inv k t
  Steps-Inv h here = h
  Steps-Inv h (more r st) = Step-Inv st (Steps-Inv h r)

  -- With a semaphore that lets readers in while there is no writer and a writer while nobody holds
  -- it: however many threads call read and write, in any order, at most one is in the write at any
  -- time, and while one is, no thread is in the read.
  pub Steps-alone :
      (n : ℕ) (t : System k)
      → Steps k (loaded k n) t
      → (sum_over writes t.threads ≤ 1)
        × ((sum_over writes t.threads ≡ 0) ⊎ (sum_over reads t.threads ≡ 0))
  Steps-alone n t steps =
      let inv : Inv k (loaded k n) = record {
        readers = all_outside reads n refl ∙ sym law.at_first.0;
        writer = all_outside writes n refl ∙ sym (ap as_number law.at_first.1);
        alone = inl law.at_first.1;
      } in
      let h = Steps-Inv inv steps in
      let bound = as_number_bound (k.writer t.rwsem) in
      (
        omega (arith, h.writer, bound),
        elim (h.alone) [
          | inl free ↦ inl (h.writer ∙ ap as_number free)
          | inr none_reads ↦ inr (h.readers ∙ none_reads)
        ],
      )

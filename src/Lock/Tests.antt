-- ===== src/Lock/Tests.antt =====
-- Runs of the threads.
use uio_linux_sample.Prelude.{
  ℕ, zero, suc, ◌+◌, ◌≤◌, ◌≡◌, refl, Bool, true, false, inl, ◌≢◌, ◌⊎◌, none, some, [], ◌∷◌, ◌++◌,
  if◌then◌else◌,
}
use uio_linux_sample.Prelude.Words.{u32}
use uio_linux_sample.Trace.Counters.{sum_over}
use uio_linux_sample.Lock.Rwsem
use uio_linux_sample.Lock.Rwsem.{RwSemaphore, IsRwSemaphore, Reads, Writes, pred}
use uio_linux_sample.Lock.Rwsem.Inv.{reads, writes, loaded, Steps-alone}
use uio_linux_sample.Lock.Counter.{
  System, waiting, stored, stopped, goes_on, takes, loads, stores, first, second, init_thread,
  Steps, here, more,
}
use uio_linux_sample.Lock.Counter.Inv.{critical, Steps-exclude}
use uio_linux_sample.Lock.Counter.Progress.{Increments, Steps-progress}

-- The first thread has stored, the second waits.
abbrev contended : System
contended = record {
  mem = record { free = 0; counter = 1 };
  thread1 = stored;
  thread2 = waiting;
  increments = 1;
}

contended_run : Steps true (init_thread true true) contended
contended_run =
    more
      (more (more (more (more here (first goes_on)) (first (takes 0 refl))) (second goes_on))
        (first (loads 0 refl)))
      (first (stores 0))

exclude_example : (0 + critical stored + critical waiting ≡ 1) × (1 ≡ u32 1)
exclude_example = Steps-exclude true true true contended_run

stored_running : stored ≢ stopped
stored_running e = cc

progress_example : Increments true contended
progress_example = Steps-progress true true true contended_run (inl stored_running)

-- A semaphore that counts its readers.
record Counted : Type 0 where
  readers : ℕ
  writer : Bool

abbrev is_zero : ℕ → Bool
is_zero zero = true
is_zero (suc n) = false

abbrev counting : RwSemaphore
counting = record {
  Sem = Counted;
  unlocked = record { readers = 0; writer = false };
  down_read = λ a. if a.writer then none else some (record a { readers = suc a.readers });
  up_read = λ a. record a { readers = pred a.readers };
  down_write = λ a.
      if a.writer
      then none
      else if is_zero a.readers
      then some (record a { writer = true })
      else none;
  up_write = λ a. record a { writer = false };
  readers = λ a. a.readers;
  writer = λ a. a.writer;
}

counting-Reads :
    (readers : ℕ) (writer : Bool)
    → let a : Counted = record { readers = readers; writer = writer } in
      Reads counting a (counting.down_read a)
counting-Reads readers true = tt
counting-Reads readers false = (refl, refl, refl)

counting-Writes :
    (readers : ℕ) (writer : Bool)
    → let a : Counted = record { readers = readers; writer = writer } in
      Writes counting a (counting.down_write a)
counting-Writes readers true = tt
counting-Writes zero false = (refl, refl, refl, refl)
counting-Writes (suc n) false = tt

counting-IsRwSemaphore : IsRwSemaphore counting
counting-IsRwSemaphore = record {
  at_first = (refl, refl);
  lets_read = λ a. counting-Reads a.readers a.writer;
  lets_write = λ a. counting-Writes a.readers a.writer;
  ends_read = λ a. (refl, refl);
  ends_write = λ a. (refl, refl);
}

-- One of three threads reads.
abbrev one_reads : Rwsem.System counting
one_reads = record {
  rwsem = record { readers = 1; writer = false };
  threads = [] ++ Rwsem.reading ∷ Rwsem.outside ∷ Rwsem.outside ∷ [];
}

one_reads_run : Rwsem.Steps counting (loaded counting 3) one_reads
one_reads_run = Rwsem.more Rwsem.here (
    Rwsem.read_begins [] (Rwsem.outside ∷ Rwsem.outside ∷ [])
      (record { readers = 1; writer = false }) refl refl)

alone_example :
    (sum_over writes one_reads.threads ≤ 1)
    × ((sum_over writes one_reads.threads ≡ 0) ⊎ (sum_over reads one_reads.threads ≡ 0))
alone_example = Steps-alone counting counting-IsRwSemaphore 3 one_reads one_reads_run

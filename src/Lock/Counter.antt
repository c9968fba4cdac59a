-- ===== src/Lock/Counter.antt =====
-- The threads of lock/mutex/mutex.c and lock/semaphore/semaphore.c. Both files run two threads of
-- the same body over one counter and one lock: a mutex, or a semaphore that starts at 1 and whose
-- wait a signal may break off. `counter++` is a load and a store, between which others may run.
pub mod Inv
pub mod Progress
use uio_linux_sample.Prelude.{ℕ, suc, ◌+◌, ◌≡◌, Bool, true, if◌then◌else◌}
use uio_linux_sample.Prelude.Words.{u32}

-- `free` is the semaphore's count, for the mutex 1 while nobody holds it.
pub record Shared : Type 0 where
  pub free : ℕ
  pub counter : ℕ

-- Where a thread stands: before kthread_should_stop, before the lock is taken, before `counter` is
-- loaded, between load and store, before the unlock, and at its end.
pub data Pc : Type 0 where
  testing waiting entered : Pc
  loaded : ℕ → Pc
  stored stopped : Pc

-- One step of a thread. Whether it is told to stop is up to the kernel.
pub data Move (interruptible : Bool) (m : Shared) : Pc → Shared → Pc → Type 0 where
  goes_on : Move interruptible m testing m waiting
  stops : Move interruptible m testing m stopped
  takes : (n : ℕ) → m.free ≡ suc n → Move interruptible m waiting (record m { free = n }) entered
  interrupted : interruptible ≡ true → Move interruptible m waiting m stopped
  loads : (n : ℕ) → m.counter ≡ n → Move interruptible m entered m (loaded n)
  stores : (n : ℕ) → Move interruptible m (loaded n) (record m { counter = u32 (n + 1) }) stored
  releases : Move interruptible m stored (record m { free = suc m.free }) testing

-- `increments` counts the stores; no thread reads it.
pub record System : Type 0 where
  pub mem : Shared
  pub thread1 : Pc
  pub thread2 : Pc
  pub increments : ℕ

abbrev pub after_step : Pc → ℕ → ℕ
after_step testing k = k
after_step waiting k = k
after_step entered k = k
after_step (loaded n) k = suc k
after_step stored k = k
after_step stopped k = k

pub data Step (interruptible : Bool) (s : System) : System → Type 0 where
  first :
      {m : Shared} {p : Pc}
      → Move interruptible s.mem s.thread1 m p
      → Step interruptible s
          (record s { mem = m; thread1 = p; increments = after_step s.thread1 s.increments })
  second :
      {m : Shared} {p : Pc}
      → Move interruptible s.mem s.thread2 m p
      → Step interruptible s
          (record s { mem = m; thread2 = p; increments = after_step s.thread2 s.increments })

-- init_thread, with the threads that could be created.
abbrev pub init_thread : Bool → Bool → System
init_thread created1 created2 = record {
  mem = record { free = 1; counter = 0 };
  thread1 = if created1 then testing else stopped;
  thread2 = if created2 then testing else stopped;
  increments = 0;
}

pub data Steps (interruptible : Bool) (s : System) : System → Type 0 where
  here : Steps interruptible s s
  more : {t u : System} → Steps interruptible s t → Step interruptible t u → Steps interruptible s u

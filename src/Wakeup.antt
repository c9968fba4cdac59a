-- ===== src/Wakeup.antt =====
-- The readers and writers of wakeup/wakeup.c: read waits until the flag is 'y' or a signal comes,
-- and write sets the flag and wakes the readers.
pub mod Laws
pub mod Wakes
mod Tests
use uio_linux_sample.Prelude.{ℕ, suc, ◌+◌, ◌≡◌, ◌≢◌, ◌==◌, if◌then◌else◌, Option, none, some}
use uio_linux_sample.Prelude.Words.{ℤ, pos, negsuc}

-- The codes of 'n' and 'y'.
abbrev pub n_code : ℕ
n_code = 110

abbrev pub y_code : ℕ
y_code = 121

-- `testing` readers are in wait_event_interruptible and about to test the flag, `sleeping` ones
-- found it lowered and sleep in the queue wq, `passed` ones are behind the wait and before the store
-- to the flag, and `returned` ones have returned. `writing` writers are between the store to the
-- flag and wake_up_interruptible. `signals` counts the waits that a signal broke off, and `wakes`
-- the stores of 'y'; the program keeps neither.
pub record State : Type 0 where
  pub flag : ℕ
  pub testing : ℕ
  pub sleeping : ℕ
  pub passed : ℕ
  pub returned : ℕ
  pub writing : ℕ
  pub signals : ℕ
  pub wakes : ℕ

abbrev pub at_load : State
at_load = record {
  flag = n_code;
  testing = 0;
  sleeping = 0;
  passed = 0;
  returned = 0;
  writing = 0;
  signals = 0;
  wakes = 0;
}

abbrev pub wakes_of : ℕ → ℕ → ℕ
wakes_of c wakes = if c == y_code then wakes + 1 else wakes

-- The first half of write, with the byte that __get_user brings: `none` if it fails, when it stores
-- 0 and write returns -EFAULT (14); else the writer goes on.
unfoldable pub write_flag : Option ℕ → State → Option ℤ × State
write_flag none s = (some (negsuc 13), record s { flag = 0 })
write_flag (some c) s =
    (none, record s { flag = c; writing = suc s.writing; wakes = wakes_of c s.wakes })

-- The second half, of one of `suc w` writers: wake_up_interruptible lets all sleeping readers of the
-- queue test the flag again.
unfoldable pub write_wake : ℕ → ℕ → State → ℤ × State
write_wake count w s =
    (pos count, record s { testing = s.sleeping + s.testing; sleeping = 0; writing = w })

-- The steps of the readers and writers. A reader tests the flag and stores to it in two steps, and
-- does not look at what the wait gave. It is in the queue before it tests the flag, so that a test
-- that fails and the sleep are one step.
pub data Step (s : State) : State → Type 0 where
  reads : Step s (record s { testing = suc s.testing })
  passes :
      (n : ℕ)
      → s.testing ≡ suc n
      → s.flag ≡ y_code
      → Step s (record s { testing = n; passed = suc s.passed })
  sleeps :
      (n : ℕ)
      → s.testing ≡ suc n
      → s.flag ≢ y_code
      → Step s (record s { testing = n; sleeping = suc s.sleeping })
  breaks_off :
      (n : ℕ)
      → s.sleeping ≡ suc n
      → Step s (record s { sleeping = n; passed = suc s.passed; signals = suc s.signals })
  returns :
      (p : ℕ)
      → s.passed ≡ suc p
      → Step s (record s { flag = n_code; passed = p; returned = suc s.returned })
  stores : (c : Option ℕ) → Step s (write_flag c s).1
  wakes_up : (count w : ℕ) → s.writing ≡ suc w → Step s (write_wake count w s).1

pub data Steps (s : State) : State → Type 0 where
  here : Steps s s
  more : {t u : State} → Steps s t → Step t u → Steps s u

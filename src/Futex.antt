-- ===== src/Futex.antt =====
-- The two processes of lock/futex/tfutex.c: the child stores a total and three items to shared
-- memory and wakes the parent, which waits on the total with a futex and then reads.
pub mod Laws
mod Tests
use uio_linux_sample.Prelude.{ℕ, suc, ◌<◌, ◌≡◌, ◌≢◌}

-- `total` is the word that the futex is on, and `items` the number of items the child has stored;
-- the memory may hold a total of an earlier run, since the program does not unlink it.
pub record Shared : Type 0 where
  pub total : ℕ
  pub items : ℕ

-- The child before its first store, while it stores, and after its wake.
pub data Child : Type 0 where
  asleep storing finished : Child

-- The parent before it loads the value it waits on, with the value, in the kernel's queue, behind
-- the wait for one of three reasons, and after it has read the total and the items.
pub data Parent : Type 0 where
  started : Parent
  expecting : ℕ → Parent
  queued woken mismatched interrupted : Parent
  done : ℕ → ℕ → Parent

pub record System : Type 0 where
  pub mem : Shared
  pub child : Child
  pub parent : Parent

abbrev pub at_fork : ℕ → System
at_fork old = record { mem = record { total = old; items = 0 }; child = asleep; parent = started }

-- FUTEX_WAKE takes the parent from the queue, if it is there.
abbrev pub wake : Parent → Parent
wake started = started
wake (expecting v) = expecting v
wake queued = woken
wake woken = woken
wake mismatched = mismatched
wake interrupted = interrupted
wake (done t n) = done t n

-- The answer of FUTEX_WAIT is not looked at, so that the parent reads whatever ended the wait; its
-- loads of the total and of the items are one step.
pub data IsBehind : Parent → Type 0 where
  by_wake : IsBehind woken
  by_mismatch : IsBehind mismatched
  by_signal : IsBehind interrupted

pub data Step (s : System) : System → Type 0 where
  stores_total :
      s.child ≡ asleep
      → Step s (record s { mem = record { total = 3; items = 0 }; child = storing })
  stores_item :
      s.child ≡ storing
      → s.mem.items < 3
      → Step s (record s { mem = record { total = s.mem.total; items = suc s.mem.items } })
  wakes :
      s.child ≡ storing
      → s.mem.items ≡ 3
      → Step s (record s { child = finished; parent = wake s.parent })
  loads : s.parent ≡ started → Step s (record s { parent = expecting s.mem.total })
  waits : s.parent ≡ expecting s.mem.total → Step s (record s { parent = queued })
  returns :
      (v : ℕ) → s.parent ≡ expecting v → s.mem.total ≢ v → Step s (record s { parent = mismatched })
  signalled : s.parent ≡ queued → Step s (record s { parent = interrupted })
  reads : IsBehind s.parent → Step s (record s { parent = done s.mem.total s.mem.items })

pub data Steps (s : System) : System → Type 0 where
  here : Steps s s
  more : {t u : System} → Steps s t → Step t u → Steps s u

-- ===== src/Lock/Rwsem.antt =====
-- read and write of lock/rwsem/rwsem.c, called by any number of threads, over a semaphore that is the
-- kernel's: a parameter, with what its documentation says.
pub mod Inv
use uio_linux_sample.Prelude.{
  ℕ, zero, suc, ◌≡◌, Bool, true, false, Option, none, some, List, ◌∷◌, ◌++◌,
}
use uio_linux_sample.Prelude.Words.{ℤ, pos}

-- struct rw_semaphore, init_rwsem and the four calls; a caller waits while the answer is `none`. Who
-- holds the semaphore is the number of its readers and whether there is a writer.
pub record RwSemaphore : Type 1 where
  pub Sem : Type 0
  pub unlocked : Sem
  pub down_read : Sem → Option Sem
  pub up_read : Sem → Sem
  pub down_write : Sem → Option Sem
  pub up_write : Sem → Sem
  pub readers : Sem → ℕ
  pub writer : Sem → Bool

abbrev pub Reads : (k : RwSemaphore) → k.Sem → Option k.Sem → Type 0
Reads k a none = Unit
Reads k a (some b) = (k.writer a ≡ false) × (k.writer b ≡ false) × (k.readers b ≡ suc (k.readers a))

abbrev pub Writes : (k : RwSemaphore) → k.Sem → Option k.Sem → Type 0
Writes k a none = Unit
Writes k a (some b) =
    (k.writer a ≡ false) × (k.readers a ≡ 0) × (k.writer b ≡ true) × (k.readers b ≡ 0)

abbrev pub pred : ℕ → ℕ
pred zero = 0
pred (suc n) = n

-- Readers are let in while there is no writer, and a writer while nobody holds the semaphore.
pub record IsRwSemaphore (k : RwSemaphore) : Type 0 where
  pub at_first : (k.readers k.unlocked ≡ 0) × (k.writer k.unlocked ≡ false)
  pub lets_read : (a : k.Sem) → Reads k a (k.down_read a)
  pub lets_write : (a : k.Sem) → Writes k a (k.down_write a)
  pub ends_read :
      (a : k.Sem)
      → (k.readers (k.up_read a) ≡ pred (k.readers a)) × (k.writer (k.up_read a) ≡ k.writer a)
  pub ends_write :
      (a : k.Sem) → (k.readers (k.up_write a) ≡ k.readers a) × (k.writer (k.up_write a) ≡ false)

-- Where a thread stands: outside of the two functions, or between down and up of one of them.
pub data Pc : Type 0 where
  outside reading writing : Pc

-- The values that the two functions return.
abbrev pub read_result : ℤ
read_result = pos 0

abbrev pub write_result : ℕ → ℤ
write_result count = pos count

pub record System (k : RwSemaphore) : Type 0 where
  pub rwsem : k.Sem
  pub threads : List Pc

pub data Step (k : RwSemaphore) (s : System k) : System k → Type 0 where
  read_begins :
      (before after : List Pc) (m : k.Sem)
      → s.threads ≡ before ++ outside ∷ after
      → k.down_read s.rwsem ≡ some m
      → Step k s (record { rwsem = m; threads = before ++ reading ∷ after })
  read_ends :
      (before after : List Pc)
      → s.threads ≡ before ++ reading ∷ after
      → Step k s (record { rwsem = k.up_read s.rwsem; threads = before ++ outside ∷ after })
  write_begins :
      (before after : List Pc) (m : k.Sem)
      → s.threads ≡ before ++ outside ∷ after
      → k.down_write s.rwsem ≡ some m
      → Step k s (record { rwsem = m; threads = before ++ writing ∷ after })
  write_ends :
      (before after : List Pc)
      → s.threads ≡ before ++ writing ∷ after
      → Step k s (record { rwsem = k.up_write s.rwsem; threads = before ++ outside ∷ after })

pub data Steps (k : RwSemaphore) (s : System k) : System k → Type 0 where
  here : Steps k s s
  more : {t u : System k} → Steps k s t → Step k t u → Steps k s u

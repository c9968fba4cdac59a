-- ===== src/Lock/Fops.antt =====
-- read and write of lock/cdev_mutex/cdev_mutex.c and lock/cdev_semaphore/cdev_semaphore.c: a read takes
-- the lock and keeps it when it returns, and a write gives it back.
use uio_linux_sample.Prelude.{
  ℕ, ◌+◌, ◌≡◌, refl, Bool, true, false, not, ◌&&◌, Option, none, some, arith, if◌then◌else◌,
}
use uio_linux_sample.Prelude.Words.{ℤ, pos, negsuc}

-- The lock, and the byte `c`.
pub record Device : Type 0 where
  pub held : Bool
  pub byte : ℕ

abbrev pub at_load : Device
at_load = record { held = false; byte = b'A' }

-- A caller waits, or is given a value.
pub data Answer : Type 0 where
  waits : Answer
  returns : ℤ → Answer

-- my_read of cdev_mutex.c; a signal breaks the wait off.
unfoldable pub mutex_read : Bool → Device → Answer × Device
mutex_read interrupted d =
    if interrupted
    then (returns (negsuc 0), d)
    else if d.held
    then (waits, d)
    else (returns (pos 0), record d { held = true })

-- my_read of cdev_semaphore.c, whose lock is a spin lock
unfoldable pub spin_read : Device → Answer × Device
spin_read d = if d.held then (waits, d) else (returns (pos 0), record d { held = true })

-- copy_from_user; EFAULT is 14.
abbrev pub copied : Option ℕ → ℕ → Device → ℤ × Device
copied none len d = (negsuc 13, d)
copied (some byte) len d = (pos len, record d { byte = byte })

-- my_write of both files: `user` is the byte at buf + len - 1, if it can be read. `none` is the unlock of
-- a lock that nobody holds.
unfoldable pub my_write : Option ℕ → ℕ → Device → Option (ℤ × Device)
my_write user len d = if d.held then some (copied user len (record d { held = false })) else none

-- Calls of the two functions of cdev_mutex.c.
pub data Call : Type 0 where
  read : Bool → Call
  write : Option ℕ → ℕ → Call

abbrev after_write : Option (ℤ × Device) → Option Device
after_write none = none
after_write (some r) = some r.1

abbrev pub call : Call → Device → Option Device
call (read interrupted) d = some (mutex_read interrupted d).1
call (write user len) d = after_write (my_write user len d)

-- Whether a read is let in.
abbrev pub enters : Call → Device → Bool
enters (read interrupted) d = not interrupted && not d.held
enters (write user len) d = false

abbrev pub as_number : Bool → ℕ
as_number true = 1
as_number false = 0

abbrev pub is_write : Call → ℕ
is_write (read interrupted) = 0
is_write (write user len) = 1

call-held :
    (x : Call) (d t : Device)
    → call x d ≡ some t
    → as_number (enters x d) + as_number d.held ≡ is_write x + as_number t.held
unfolding mutex_read my_write
call-held (read interrupted) d t e = ground arith
call-held (write none len) d t e = ground arith
call-held (write (some b) len) d t e = ground arith

-- Calls one after the other, with the number of reads that were let in.
pub data Calls (d : Device) : ℕ → ℕ → Device → Type 0 where
  here : Calls d 0 0 d
  next :
      {reads writes : ℕ} {t u : Device} (x : Call)
      → Calls d reads writes t
      → call x t ≡ some u
      → Calls d (as_number (enters x t) + reads) (is_write x + writes) u

-- As long as no write comes without a lock that is held, the reads that were let in and the writes
-- alternate: there is one more of the first exactly while the lock is held.
pub Calls-alternate :
    {t : Device} {reads writes : ℕ}
    → Calls at_load reads writes t
    → reads ≡ writes + as_number t.held
Calls-alternate here = refl
Calls-alternate (next {t = t} {u = u} x r e) = omega (arith, Calls-alternate r, call-held x t u e)

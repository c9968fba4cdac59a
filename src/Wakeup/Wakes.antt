-- ===== src/Wakeup/Wakes.antt =====
-- Which readers sleep while the flag is raised.
use uio_linux_sample.Prelude.{◌<◌, ◌≡◌, ◌≢◌, refl, ◌⊎◌, inl, inr, arith, none, some}
use uio_linux_sample.Wakeup.{
  State, y_code, at_load, write_flag, write_wake, Step, reads, passes, sleeps, breaks_off, returns,
  stores, wakes_up, Steps, here, more,
}

-- A raised flag with sleeping readers has a writer that is about to wake them.
abbrev IsAwaited : State → Type 0
IsAwaited s = (s.flag ≢ y_code) ⊎ ((s.sleeping ≡ 0) ⊎ (0 < s.writing))

Step-IsAwaited : {s t : State} → Step s t → IsAwaited s → IsAwaited t
unfolding write_flag write_wake
Step-IsAwaited reads a = a
Step-IsAwaited (passes n e f) a = a
Step-IsAwaited (sleeps n e ne) a = inl ne
Step-IsAwaited (breaks_off n e) (inl ne) = inl ne
Step-IsAwaited (breaks_off n e) (inr (inl none_sleeps)) = absurd (omega arith)
Step-IsAwaited (breaks_off n e) (inr (inr writes)) = inr (inr writes)
Step-IsAwaited (returns p e) a = inl (omega arith)
Step-IsAwaited (stores none) a = inl (omega arith)
Step-IsAwaited (stores (some c)) a = inr (inr (omega arith))
Step-IsAwaited (wakes_up count w e) a = inr (inl refl)

Steps-IsAwaited : {t : State} → Steps at_load t → IsAwaited t
Steps-IsAwaited here = inr (inl refl)
Steps-IsAwaited (more a x) = Step-IsAwaited x (Steps-IsAwaited a)

-- No wake-up is lost. However the readers and writers are interleaved: while the flag is 'y', no
-- reader sleeps in the queue, unless a writer is between its store to the flag and its wake-up.
pub Steps-none_sleeps :
    {t : State} → Steps at_load t → t.flag ≡ y_code → (t.sleeping ≡ 0) ⊎ (0 < t.writing)
Steps-none_sleeps a f = elim (Steps-IsAwaited a) [ inl ne ↦ absurd (ne f) | inr r ↦ r ]

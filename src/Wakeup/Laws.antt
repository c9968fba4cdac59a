-- ===== src/Wakeup/Laws.antt =====
-- When a reader of wakeup.c returns.
use uio_linux_sample.Prelude.{ℕ, ◌+◌, ◌≡◌, ◌≢◌, arith, none, some}
use uio_linux_sample.Wakeup.{
  State, y_code, at_load, wakes_of, write_flag, write_wake, Step, reads, passes, sleeps, breaks_off,
  returns, stores, wakes_up, Steps, here, more,
}

-- As long as nobody has written 'y'.
pub record Quiet (s : State) : Type 0 where
  pub lowered : s.flag ≢ y_code
  pub broken_off : s.passed + s.returned ≡ s.signals

wakes-kept : (c wakes : ℕ) → wakes_of c wakes ≡ 0 → (wakes ≡ 0) × (c ≢ y_code)
wakes-kept c wakes h = ground arith

Step-Quiet : {s t : State} → Step s t → (s.wakes ≡ 0 → Quiet s) → t.wakes ≡ 0 → Quiet t
unfolding write_flag write_wake
Step-Quiet reads q h = let v = q h in record { lowered = v.lowered; broken_off = v.broken_off }
Step-Quiet (passes n e f) q h = absurd ((q h).lowered f)
Step-Quiet (sleeps n e f) q h =
    let v = q h in record { lowered = v.lowered; broken_off = v.broken_off }
Step-Quiet (breaks_off n e) q h =
    let v = q h in record { lowered = v.lowered; broken_off = omega (arith, v.broken_off) }
Step-Quiet (returns p e) q h =
    let v = q h in record { lowered = omega arith; broken_off = omega (arith, v.broken_off, e) }
Step-Quiet (stores none) q h =
    let v = q h in record { lowered = omega arith; broken_off = v.broken_off }
Step-Quiet {s} (stores (some c)) q h =
    let (e, ne) = wakes-kept c s.wakes h in
    let v = q e in record { lowered = ne; broken_off = v.broken_off }
Step-Quiet (wakes_up count w e) q h =
    let v = q h in record { lowered = v.lowered; broken_off = v.broken_off }

Steps-Quiet : {t : State} → Steps at_load t → t.wakes ≡ 0 → Quiet t
Steps-Quiet here h = record { lowered = omega arith; broken_off = omega arith }
Steps-Quiet (more a x) h = Step-Quiet x (Steps-Quiet a) h

-- However the readers and writers are interleaved: as long as no 'y' was written, as many readers
-- are past their wait or have returned as signals came, so that without a signal none has.
pub Steps-wait : {t : State} → Steps at_load t → t.wakes ≡ 0 → t.passed + t.returned ≡ t.signals
Steps-wait a h = (Steps-Quiet a h).broken_off

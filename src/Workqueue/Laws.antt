-- ===== src/Workqueue/Laws.antt =====
-- How often the work item runs.
use uio_linux_sample.Prelude.{
  ℕ, ◌+◌, ◌≡◌, ap, inl, inr, ◌↔◌, Bool, true, false, ◌&&◌, Option, none, some, List, [], ◌∷◌, arith,
  ◌==◌, Option-cases, if◌then◌else◌,
}
use uio_linux_sample.Workqueue.{
  my_dev_id, State, init_work, schedule_work, myirq_handler, mywork_handler,
}

-- Interrupts, of a device and with a key, and turns of the work queue.
pub data Step : Type 0 where
  irq : ℕ → ℕ → Step
  turn : Step

abbrev pub step : Step → State → Option State
step (irq devid key_code) s = myirq_handler devid key_code s
step turn s = some (mywork_handler s)

abbrev pub run : List Step → State → Option State
run [] s = some s
run (x ∷ xs) s = elim (step x s) [ none ↦ none | some t ↦ run xs t ]

abbrev pub is_escape : Step → Bool
is_escape (irq devid key_code) = my_dev_id == devid && key_code == 1
is_escape turn = false

abbrev pub count_escapes : List Step → ℕ
count_escapes [] = 0
count_escapes (x ∷ xs) = (if is_escape x then 1 else 0) + count_escapes xs

-- The runs, and the one that is due.
abbrev pub due : State → ℕ
due s = (if s.queued then 1 else 0) + s.runs

step-due :
    (x : Step) (s t : State) → step x s ≡ some t → due t ≡ (if is_escape x then 1 else 0) + due s
unfolding myirq_handler mywork_handler init_work schedule_work
step-due (irq devid key_code) s t e = ground arith
step-due turn s t e = ground arith

-- The handler fails exactly if ESC is pressed on its device while the item is queued.
myirq_handler-none :
    (devid key_code : ℕ) (s : State)
    → (myirq_handler devid key_code s ≡ none)
      ↔ ((is_escape (irq devid key_code) ≡ true) × (s.queued ≡ true))
unfolding myirq_handler init_work
myirq_handler-none devid key_code s = ground arith

runs-due : (xs : List Step) (s t : State) → run xs s ≡ some t → due t ≡ count_escapes xs + due s
runs-due [] s t e = let same : s ≡ t = cc in omega (arith, ap due same)
runs-due (x ∷ xs) s t e = elim (Option-cases (step x s)) [
  | inl fails ↦ cc (rw (fails, run) at e)
  | inr (u, same) ↦ omega (arith, runs-due xs u t (rw (same, run) at e), step-due x s u same)
]

-- As long as the item is never initialised while it is queued, it runs once for each press of ESC on
-- the device, but for the last one while it waits for its turn.
pub run-runs :
    (xs : List Step) (s t : State)
    → s.queued ≡ false
    → run xs s ≡ some t
    → (if t.queued then 1 else 0) + t.runs ≡ count_escapes xs + s.runs
run-runs xs s t q e =
    let none_due : due s ≡ s.runs = rw q (omega arith) in omega (arith, runs-due xs s t e, none_due)

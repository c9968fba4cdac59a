-- ===== src/Futex/Laws.antt =====
-- What the parent reads, and when it never does.
use uio_linux_sample.Prelude.{ℕ, ◌≡◌, ◌≢◌, refl, sym, subst, ◌∙◌, ◌⊎◌, inl, inr}
use uio_linux_sample.Futex.{
  storing, finished, Parent, started, expecting, queued, woken, mismatched, interrupted, done,
  System, at_fork, wake, IsBehind, by_wake, by_mismatch, by_signal, Step, stores_total, stores_item,
  wakes, loads, waits, returns, signalled, reads, Steps, here, more,
}

-- Once the parent is woken, and once the child is finished, everything is stored.
pub record Inv (s : System) : Type 0 where
  pub on_finish : s.child ≡ finished → (s.mem.total ≡ 3) × (s.mem.items ≡ 3)
  pub on_store : s.child ≡ storing → s.mem.total ≡ 3
  pub on_wake : s.parent ≡ woken → s.child ≡ finished

wake-woken : (p : Parent) → wake p ≡ woken → (p ≡ queued) ⊎ (p ≡ woken)
wake-woken started e = absurd cc
wake-woken (expecting v) e = absurd cc
wake-woken queued e = inl refl
wake-woken woken e = inr refl
wake-woken mismatched e = absurd cc
wake-woken interrupted e = absurd cc
wake-woken (done t n) e = absurd cc

Step-Inv : {s t : System} → Step s t → Inv s → Inv t
Step-Inv (stores_total a) v = record {
  on_finish = λ e. absurd cc;
  on_store = λ e. refl;
  on_wake = λ e. absurd (let f = v.on_wake e in cc);
}
Step-Inv (stores_item a l) v = record {
  on_finish = λ e. absurd cc;
  on_store = v.on_store;
  on_wake = v.on_wake;
}
Step-Inv (wakes a e) v = record {
  on_finish = λ f. (v.on_store a, e);
  on_store = λ f. absurd cc;
  on_wake = λ f. refl;
}
Step-Inv (loads a) v = record {
  on_finish = v.on_finish;
  on_store = v.on_store;
  on_wake = λ e. absurd cc;
}
Step-Inv (waits a) v = record {
  on_finish = v.on_finish;
  on_store = v.on_store;
  on_wake = λ e. absurd cc;
}
Step-Inv (returns w a n) v = record {
  on_finish = v.on_finish;
  on_store = v.on_store;
  on_wake = λ e. absurd cc;
}
Step-Inv (signalled a) v = record {
  on_finish = v.on_finish;
  on_store = v.on_store;
  on_wake = λ e. absurd cc;
}
Step-Inv (reads a) v = record {
  on_finish = v.on_finish;
  on_store = v.on_store;
  on_wake = λ e. absurd cc;
}

Steps-Inv : (old : ℕ) {s : System} → Steps (at_fork old) s → Inv s
Steps-Inv old here = record {
  on_finish = λ e. absurd cc;
  on_store = λ e. absurd cc;
  on_wake = λ e. absurd cc;
}
Steps-Inv old (more a x) = Step-Inv x (Steps-Inv old a)

-- The parent has not got behind its wait, with a total of 3 or one it has yet to load.
pub data Stuck : Parent → Type 0 where
  to_load : Stuck started
  to_wait : Stuck (expecting 3)
  in_queue : Stuck queued

-- Without a signal.
pub data Unsignalled (s : System) : System → Type 0 where
  nothing : Unsignalled s s
  then_step : {t u : System} → Unsignalled s t → Step t u → u.parent ≢ interrupted → Unsignalled s u

IsBehind-Stuck : {p q : Parent} → Stuck p → IsBehind q → p ≢ q
IsBehind-Stuck to_load by_wake e = cc
IsBehind-Stuck to_load by_mismatch e = cc
IsBehind-Stuck to_load by_signal e = cc
IsBehind-Stuck to_wait by_wake e = cc
IsBehind-Stuck to_wait by_mismatch e = cc
IsBehind-Stuck to_wait by_signal e = cc
IsBehind-Stuck in_queue by_wake e = cc
IsBehind-Stuck in_queue by_mismatch e = cc
IsBehind-Stuck in_queue by_signal e = cc

Stuck-expecting : {p : Parent} (v : ℕ) → Stuck p → p ≡ expecting v → v ≡ 3
Stuck-expecting v to_load e = absurd cc
Stuck-expecting v to_wait e = cc
Stuck-expecting v in_queue e = absurd cc

-- The child has finished first.
pub record Missed (s : System) : Type 0 where
  pub ended : s.child ≡ finished
  pub stored : s.mem.total ≡ 3
  pub stuck : Stuck s.parent

Step-Missed : {s t : System} → Step s t → t.parent ≢ interrupted → Missed s → Missed t
Step-Missed (stores_total a) ne v = absurd (let e = v.ended in cc)
Step-Missed (stores_item a l) ne v = absurd (let e = v.ended in cc)
Step-Missed (wakes a e) ne v = absurd (let f = v.ended in cc)
Step-Missed {s} (loads a) ne v = record {
  ended = v.ended;
  stored = v.stored;
  stuck = subst (λ x. Stuck (expecting x)) (sym v.stored) to_wait;
}
Step-Missed (waits a) ne v = record { ended = v.ended; stored = v.stored; stuck = in_queue }
Step-Missed (returns w a n) ne v = absurd (n (v.stored ∙ sym (Stuck-expecting w v.stuck a)))
Step-Missed (signalled a) ne v = absurd (ne refl)
Step-Missed (reads b) ne v = absurd (IsBehind-Stuck v.stuck b refl)

-- In every run, whatever the memory held before: when the child's wake has taken the parent out of
-- the queue, the total is 3 and all three items are stored, so that the parent reads all of them.
pub Steps-woken :
    (old : ℕ) {s : System}
    → Steps (at_fork old) s
    → s.parent ≡ woken
    → (s.mem.total ≡ 3) × (s.mem.items ≡ 3)
Steps-woken old a e = let v = Steps-Inv old a in v.on_finish (v.on_wake e)

-- A wake that comes first is lost: if the child is finished, with the total at 3, before the parent
-- is in the queue or has loaded another value, then in every run without a signal the parent never
-- gets behind its wait.
pub Unsignalled-Missed : {s t : System} → Unsignalled s t → Missed s → Missed t
Unsignalled-Missed nothing v = v
Unsignalled-Missed (then_step a x ne) v = Step-Missed x ne (Unsignalled-Missed a v)

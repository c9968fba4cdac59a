-- ===== src/Lock/Counter/Progress.antt =====
-- What the threads can still do.
use uio_linux_sample.Prelude.{ℕ, suc, ◌≤◌, ◌<◌, ◌≡◌, refl, ◌⊎◌, inl, inr, ◌≢◌, arith, Bool}
use uio_linux_sample.Lock.Counter.{
  Shared, Pc, testing, waiting, entered, loaded, stored, stopped, goes_on, takes, loads, stores,
  releases, System, Step, first, second, init_thread, Steps, here, more,
}
use uio_linux_sample.Lock.Counter.Inv.{
  critical, Inv, Inv-swap, SystemInv, Steps-Inv, Steps-SystemInv,
}

abbrev system : Shared → Pc → Pc → ℕ → System
system m p q k = record { mem = m; thread1 = p; thread2 = q; increments = k }

Steps-trans : {b : Bool} {s t u : System} → Steps b s t → Steps b t u → Steps b s u
Steps-trans a here = a
Steps-trans a (more c x) = more (Steps-trans a c) x

-- The second thread leaves the critical section by itself.
leave :
    (b : Bool) (m : Shared) (p q : Pc) (k : ℕ)
    → (m' : Shared) × (q' : Pc) × (k' : ℕ) × Steps b (system m p q k) (system m' p q' k')
      × (critical q' ≡ 0)
      × (k ≤ k')
leave b m p testing k = (m, testing, k, here, refl, omega arith)
leave b m p waiting k = (m, waiting, k, here, refl, omega arith)
leave b m p entered k = (
  _,
  testing,
  suc k,
  more (more (more here (second (loads m.counter refl))) (second (stores m.counter)))
      (second releases),
  refl,
  omega arith,
)
leave b m p (loaded n) k =
    (_, testing, suc k, more (more here (second (stores n))) (second releases), refl, omega arith)
leave b m p stored k = (_, testing, k, more here (second releases), refl, omega arith)
leave b m p stopped k = (m, stopped, k, here, refl, omega arith)

-- A thread that finds the lock free stores once more.
abbrev pub Increments : Bool → System → Type 0
Increments b s = (t : System) × Steps b s t × (s.increments < t.increments)

enter : (b : Bool) (m : Shared) (q : Pc) (k : ℕ) → m.free ≡ 1 → Increments b (system m waiting q k)
enter b m q k h = (
  _,
  more (more (more here (first (takes 0 h))) (first (loads m.counter refl)))
      (first (stores m.counter)),
  omega arith,
)

advance :
    (b : Bool) (m : Shared) (p q : Pc) (k : ℕ)
    → Inv m p q k
    → critical q ≡ 0
    → p ≢ stopped
    → Increments b (system m p q k)
advance b m testing q k v h ne =
    let (t, a, l) = enter b m q k (let lock = v.lock in omega (arith, lock, h)) in
    (t, Steps-trans (more here (first goes_on)) a, l)
advance b m waiting q k v h ne = enter b m q k (let lock = v.lock in omega (arith, lock, h))
advance b m entered q k v h ne =
    (_, more (more here (first (loads m.counter refl))) (first (stores m.counter)), omega arith)
advance b m (loaded n) q k v h ne = (_, more here (first (stores n)), omega arith)
advance b m stored q k v h ne =
    let m' = record m { free = suc m.free } in
    let (t, a, l) = enter b m' q k (let lock = v.lock in omega (arith, lock, h)) in
    (t, Steps-trans (more (more here (first releases)) (first goes_on)) a, l)
advance b m stopped q k v h ne = absurd (ne refl)

SystemInv-progress : (b : Bool) (s : System) → SystemInv s → s.thread1 ≢ stopped → Increments b s
SystemInv-progress b s v ne =
    let (m, q, k, a, h, l) = leave b s.mem s.thread1 s.thread2 s.increments in
    let (t, c, l') = advance b m s.thread1 q k (Steps-Inv a v) h ne in
    (t, Steps-trans a c, omega (arith, l, l'))

abbrev swap : System → System
swap s = record s { thread1 = s.thread2; thread2 = s.thread1 }

swap-Step : {b : Bool} {s t : System} → Step b s t → Step b (swap s) (swap t)
swap-Step (first a) = second a
swap-Step (second a) = first a

swap-Steps : {b : Bool} {s t : System} → Steps b s t → Steps b (swap s) (swap t)
swap-Steps here = here
swap-Steps (more a x) = more (swap-Steps a) (swap-Step x)

-- No deadlock: from every state the two threads can reach, as long as one of them has not stopped,
-- there is a run in which the counter is incremented once more, wherever the other thread stands.
pub Steps-progress :
    (b created1 created2 : Bool) {s : System}
    → Steps b (init_thread created1 created2) s
    → (s.thread1 ≢ stopped) ⊎ (s.thread2 ≢ stopped)
    → Increments b s
Steps-progress b created1 created2 {s} a (inl ne) =
    SystemInv-progress b s (Steps-SystemInv b created1 created2 a) ne
Steps-progress b created1 created2 {s} a (inr ne) =
    let v = Inv-swap (Steps-SystemInv b created1 created2 a) in
    let (t, c, l) = SystemInv-progress b (swap s) v ne in (swap t, swap-Steps c, l)

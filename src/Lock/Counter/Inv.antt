-- ===== src/Lock/Counter/Inv.antt =====
-- What holds while the threads run.
use uio_linux_sample.Prelude.{ℕ, suc, ◌+◌, ◌≡◌, refl, sym, ◌∙◌, arith, Bool, true, false}
use uio_linux_sample.Prelude.Words.{u32}
use uio_linux_sample.Lock.Counter.{
  Shared, Pc, testing, waiting, entered, loaded, stored, stopped, Move, goes_on, stops, takes,
  interrupted, loads, stores, releases, System, after_step, Step, first, second, init_thread, Steps,
  here, more,
}

-- 1 while the thread holds the lock.
abbrev pub critical : Pc → ℕ
critical testing = 0
critical waiting = 0
critical entered = 1
critical (loaded n) = 1
critical stored = 1
critical stopped = 0

-- What a thread has loaded is still the counter's value.
abbrev pub Fresh : Pc → ℕ → Type 0
Fresh testing c = Unit
Fresh waiting c = Unit
Fresh entered c = Unit
Fresh (loaded n) c = n ≡ c
Fresh stored c = Unit
Fresh stopped c = Unit

-- `p` is the thread that moves next, `q` the other.
pub record Inv (m : Shared) (p q : Pc) (increments : ℕ) : Type 0 where
  pub lock : m.free + critical p + critical q ≡ 1
  pub fresh : Fresh p m.counter
  pub other_fresh : Fresh q m.counter
  pub counted : m.counter ≡ u32 increments

-- A thread outside of the critical section has loaded nothing.
outside-Fresh : (q : Pc) (c : ℕ) → critical q ≡ 0 → Fresh q c
outside-Fresh testing c h = tt
outside-Fresh waiting c h = tt
outside-Fresh entered c h = tt
outside-Fresh (loaded n) c h = absurd (omega arith)
outside-Fresh stored c h = tt
outside-Fresh stopped c h = tt

-- The invariant reads the lock by the sum alone.
Inv-kept :
    {m : Shared} {p p' q : Pc} {k : ℕ}
    → critical p ≡ critical p'
    → Fresh p' m.counter
    → Inv m p q k
    → Inv m p' q k
Inv-kept {m} {p} {p'} {q} {k} e f v =
    let lock = v.lock in
    record {
      lock = omega (arith, lock, e);
      fresh = f;
      other_fresh = v.other_fresh;
      counted = v.counted;
    }

next-counted : (n k : ℕ) → n ≡ u32 k → u32 (n + 1) ≡ u32 (suc k)
next-counted n k h = omega (arith, h)

Move-Inv :
    {b : Bool} {m m' : Shared} {p p' : Pc} (q : Pc) (k : ℕ)
    → Move b m p m' p'
    → Inv m p q k
    → Inv m' p' q (after_step p k)
Move-Inv q k goes_on v = Inv-kept refl tt v
Move-Inv q k stops v = Inv-kept refl tt v
Move-Inv {m = m} q k (takes n e) v =
    let lock = v.lock in
    record {
      lock = omega (arith, lock, e);
      fresh = tt;
      other_fresh = v.other_fresh;
      counted = v.counted;
    }
Move-Inv q k (interrupted e) v = Inv-kept refl tt v
Move-Inv q k (loads n e) v = Inv-kept refl (sym e) v
Move-Inv q k (stores n) v =
    let lock = v.lock in
    record {
      lock = lock;
      fresh = tt;
      other_fresh = outside-Fresh q _ (omega (arith, lock));
      counted = next-counted n k (v.fresh ∙ v.counted);
    }
Move-Inv q k releases v =
    let lock = v.lock in
    record {
      lock = omega (arith, lock);
      fresh = tt;
      other_fresh = v.other_fresh;
      counted = v.counted;
    }

pub Inv-swap : {m : Shared} {p q : Pc} {k : ℕ} → Inv m p q k → Inv m q p k
Inv-swap v =
    let lock = v.lock in
    record {
      lock = omega (arith, lock);
      fresh = v.other_fresh;
      other_fresh = v.fresh;
      counted = v.counted;
    }

abbrev pub SystemInv : System → Type 0
SystemInv s = Inv s.mem s.thread1 s.thread2 s.increments

Step-Inv : {b : Bool} {s t : System} → Step b s t → SystemInv s → SystemInv t
Step-Inv {s = s} (first a) v = Move-Inv s.thread2 s.increments a v
Step-Inv {s = s} (second a) v = Inv-swap (Move-Inv s.thread1 s.increments a (Inv-swap v))

pub Steps-Inv : {b : Bool} {s t : System} → Steps b s t → SystemInv s → SystemInv t
Steps-Inv here v = v
Steps-Inv (more a x) v = Step-Inv x (Steps-Inv a v)

init_thread-Inv : (created1 created2 : Bool) → SystemInv (init_thread created1 created2)
init_thread-Inv true true = record { lock = refl; fresh = tt; other_fresh = tt; counted = refl }
init_thread-Inv true false = record { lock = refl; fresh = tt; other_fresh = tt; counted = refl }
init_thread-Inv false true = record { lock = refl; fresh = tt; other_fresh = tt; counted = refl }
init_thread-Inv false false = record { lock = refl; fresh = tt; other_fresh = tt; counted = refl }

-- However the two threads are interleaved, interrupted and stopped, at most one of them is between
-- its lock and its unlock, the lock's count is 1 when none is and 0 otherwise, and the counter is
-- the number of increments modulo 2^32: no increment is lost.
pub Steps-exclude :
    (b created1 created2 : Bool) {s : System}
    → Steps b (init_thread created1 created2) s
    → (s.mem.free + critical s.thread1 + critical s.thread2 ≡ 1)
      × (s.mem.counter ≡ u32 s.increments)
Steps-exclude b created1 created2 a =
    let v = Steps-Inv a (init_thread-Inv created1 created2) in (v.lock, v.counted)

pub Steps-SystemInv :
    (b created1 created2 : Bool) {s : System}
    → Steps b (init_thread created1 created2) s
    → SystemInv s
Steps-SystemInv b created1 created2 a = Steps-Inv a (init_thread-Inv created1 created2)

-- ===== src/Avglat/Module/Laws.antt =====
-- What is averaged, and what a read leaves.
use uio_linux_sample.Prelude.{
  ℕ, zero, suc, ◌+◌, ◌/◌, ◌≡◌, refl, sym, ap, ap₂, ◌∙◌, arith, List, [], ◌∷◌, ◌++◌, false, length,
  length-append, Option, none, some,
}
use uio_linux_sample.Prelude.Words.{ℤ, u64}
use uio_linux_sample.Avglat.Module.{
  Child, Task, Found, task, State, Outcome, value, divides_by_zero, is_invalid, threads_loop,
  children_loop, quotient_of, average, get_tids_lat, lat_show, pid_write,
}

-- The delays that are counted: the children's and those of their other threads, or, of a process
-- without a child, those of its own other threads.
abbrev pub of_child : Child → List ℕ
of_child c = c.run_delay ∷ c.thread_group

abbrev pub of_children : List Child → List ℕ
of_children [] = []
of_children (c ∷ l) = of_child c ++ of_children l

abbrev pub counted : Task → List ℕ
counted t = elim t.children [ [] ↦ t.thread_group | c ∷ l ↦ of_children (c ∷ l) ]

abbrev pub sum : List ℕ → ℕ
sum [] = 0
sum (d ∷ l) = d + sum l

sum-append : (l r : List ℕ) → sum (l ++ r) ≡ sum l + sum r
sum-append [] r = omega arith
sum-append (d ∷ l) r = omega (arith, sum-append l r)

u64-absorb : (x d : ℕ) → u64 (u64 x + d) ≡ u64 (x + d)
u64-absorb x d = omega arith

-- The sum and the number of a list of delays that is read on top of others.
abbrev totals : List ℕ → ℕ → ℕ → ℕ × ℕ
totals l x n = (u64 (x + sum l), n + length l)

totals-nil : (x n : ℕ) → totals [] x n ≡ (u64 x, n)
totals-nil x n = ap₂ (λ a b. (u64 a, b)) (omega arith) (omega arith)

totals-cons : (d : ℕ) (l : List ℕ) (x n : ℕ) → totals (d ∷ l) x n ≡ totals l (x + d) (suc n)
totals-cons d l x n = ap₂ (λ a b. (u64 a, b)) (omega arith) (omega arith)

totals-append : (l r : List ℕ) (x n : ℕ) → totals (l ++ r) x n ≡ totals r (x + sum l) (n + length l)
totals-append l r x n =
    ap₂ (λ a b. (u64 a, b)) (omega (arith, sum-append l r)) (omega (arith, length-append l r))

threads_loop-totals : (l : List ℕ) (x n : ℕ) → threads_loop l (u64 x, n) ≡ totals l x n
threads_loop-totals [] x n = sym (totals-nil x n)
threads_loop-totals (d ∷ l) x n =
    ap (λ y. threads_loop l (y, suc n)) (u64-absorb x d)
    ∙ (threads_loop-totals l (x + d) (suc n) ∙ sym (totals-cons d l x n))

children_loop-totals :
    (l : List Child) (x n : ℕ) → children_loop l (u64 x, n) ≡ totals (of_children l) x n
children_loop-totals [] x n = sym (totals-nil x n)
children_loop-totals (c ∷ l) x n =
    ap (λ y. children_loop l (threads_loop c.thread_group (y, suc n))) (u64-absorb x c.run_delay)
    ∙ (ap (children_loop l) (
          threads_loop-totals c.thread_group (x + c.run_delay) (suc n)
          ∙ sym (totals-cons c.run_delay c.thread_group x n))
        ∙ (children_loop-totals l (x + sum (of_child c)) (n + length (of_child c))
            ∙ sym (totals-append (of_child c) (of_children l) x n)))

average-totals :
    (d : ℕ) (threads : List ℕ) (children : List Child)
    → average (record { run_delay = d; thread_group = threads; children = children })
      ≡ quotient_of (
          totals
            (counted (record { run_delay = d; thread_group = threads; children = children }))
            d
            0)
average-totals d threads [] = ap quotient_of (threads_loop-totals threads d 0)
average-totals d threads (c ∷ l) = ap quotient_of (children_loop-totals (c ∷ l) d 0)

abbrev pub mean : ℕ → List ℕ → Outcome
mean x [] = divides_by_zero
mean x (d ∷ l) = value (u64 x / suc (length l))

quotient_of-totals : (l : List ℕ) (x : ℕ) → quotient_of (totals l x 0) ≡ mean (x + sum l) l
quotient_of-totals [] x = refl
quotient_of-totals (d ∷ l) x =
    ap (λ n. quotient_of (u64 (x + sum (d ∷ l)), n))
      (let e : 0 + suc (length l) ≡ suc (length l) = omega arith in e)

get_tids_lat-found :
    (find : ℤ → Found) (pid : ℤ) (t : Task) (s : State)
    → is_invalid pid ≡ false
    → find pid ≡ task t
    → get_tids_lat find pid s ≡ (average t, record s { pids = s.pids + 1; tasks = s.tasks + 1 })
unfolding get_tids_lat
get_tids_lat-found find pid t s h k = rw (h, k) refl

-- What the file runqlat shows of a process is the sum, modulo 2^64, of its own delay and of the
-- counted ones, over the number of the counted ones alone; the counted ones are those of all
-- children with their other threads, and the own other threads if there is no child. A process
-- without a child and without another thread divides by zero.
pub get_tids_lat-average :
    (find : ℤ → Found) (pid : ℤ) (t : Task) (s : State)
    → is_invalid pid ≡ false
    → find pid ≡ task t
    → (get_tids_lat find pid s).0 ≡ mean (t.run_delay + sum (counted t)) (counted t)
get_tids_lat-average find pid t s h k =
    ap (λ r. r.0) (get_tids_lat-found find pid t s h k)
    ∙ (average-totals t.run_delay t.thread_group t.children
        ∙ quotient_of-totals (counted t) t.run_delay)

-- The reads of the file.
abbrev pub shows : (ℤ → Found) → ℕ → State → State
shows find zero s = s
shows find (suc n) s = shows find n (lat_show find s).1

shows-references :
    (find : ℤ → Found) (n : ℕ) (t : Task) (s : State)
    → is_invalid s.info.pid ≡ false
    → find s.info.pid ≡ task t
    → ((shows find n s).pids ≡ s.pids + n) × ((shows find n s).tasks ≡ s.tasks + n)
unfolding lat_show
shows-references find zero t s h k = (omega arith, omega arith)
shows-references find (suc n) t s h k =
    let s' = record s { pids = s.pids + 1; tasks = s.tasks + 1 } in
    let (a, b) = shows-references find n t s' h k in
    rw (shows, get_tids_lat-found find s.info.pid t s h k) (omega (arith, a), omega (arith, b))

-- After n reads of the file runqlat for a process that exists, the module holds n more references
-- on its pid and n more on its task; nothing gives them back, and a write to the file pid, which
-- chooses the next process, keeps them too.
pub lat_show-references :
    (find : ℤ → Found) (n : ℕ) (t : Task) (s : State) (o : Option ℤ) (count : ℕ)
    → is_invalid s.info.pid ≡ false
    → find s.info.pid ≡ task t
    → let s' = (pid_write o count (shows find n s)).1 in
      (s'.pids ≡ s.pids + n) × (s'.tasks ≡ s.tasks + n)
unfolding pid_write
lat_show-references find n t s none count h k = shows-references find n t s h k
lat_show-references find n t s (some pid) count h k = shows-references find n t s h k

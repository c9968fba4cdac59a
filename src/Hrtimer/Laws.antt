-- ===== src/Hrtimer/Laws.antt =====
-- What runs and what is printed.
use uio_linux_sample.Prelude.{
  ℕ, suc, ◌+◌, ◌*◌, ◌/◌, ◌%◌, ◌^◌, ◌≤◌, ◌<◌, ◌≡◌, refl, arith, true, false, Bool-cases, inl, inr,
  ◌==◌,
}
use uio_linux_sample.Prelude.Words.{u32, sub64}
use uio_linux_sample.Hrtimer.{
  count_interval, Timespec, diff_tv, State, started, my_hrtimer_callback, wq_func_hrtimer, Step,
  inits_work, expires, works, Steps, here, more,
}

pub record Inv (s : State) : Type 0 where
  pub one : s.armed + s.pending ≡ 1
  pub counted : s.count ≡ u32 s.runs
  pub printed : s.runs < 2 ^ 32 → s.lines ≡ (s.runs + 9) / 10

tenth-printed :
    (count runs lines : ℕ)
    → count ≡ u32 runs
    → runs < 2 ^ 32
    → lines ≡ (runs + 9) / 10
    → count % 10 ≡ 0
    → suc lines ≡ (suc runs + 9) / 10
tenth-printed count runs lines e h l z = omega arith

between-printed :
    (count runs lines : ℕ)
    → count ≡ u32 runs
    → runs < 2 ^ 32
    → lines ≡ (runs + 9) / 10
    → 0 < count % 10
    → lines ≡ (suc runs + 9) / 10
between-printed count runs lines e h l z = omega arith

next-counted : (count runs : ℕ) → count ≡ u32 runs → u32 (count + 1) ≡ u32 (suc runs)
next-counted count runs e = omega arith

is_tenth : (n : ℕ) → (n == 0) ≡ true → n ≡ 0
is_tenth n h = ground arith

is_between : (n : ℕ) → (n == 0) ≡ false → 0 < n
is_between n h = ground arith

Step-Inv : {s t : State} → Step s t → Inv s → Inv t
unfolding my_hrtimer_callback wq_func_hrtimer
Step-Inv (inits_work e) v = record { one = v.one; counted = v.counted; printed = v.printed }
Step-Inv (expires r e) v = record { one = refl; counted = v.counted; printed = v.printed }
Step-Inv {s} (works uptime e) v = elim (Bool-cases (s.count % count_interval == 0)) [
  | inl h ↦ rw h (record {
    one = refl;
    counted = next-counted s.count s.runs v.counted;
    printed = λ l.
        let m : s.runs < 2 ^ 32 = omega (arith, l) in
        tenth-printed s.count s.runs s.lines v.counted m (v.printed m) (is_tenth _ h);
  })
  | inr h ↦ rw h (record {
    one = refl;
    counted = next-counted s.count s.runs v.counted;
    printed = λ l.
        let m : s.runs < 2 ^ 32 = omega (arith, l) in
        between-printed s.count s.runs s.lines v.counted m (v.printed m) (is_between _ h);
  })
]

Steps-Inv : (uptime : Timespec) {s : State} → Steps (started uptime) s → Inv s
Steps-Inv uptime here = record { one = refl; counted = refl; printed = λ l. refl }
Steps-Inv uptime (more a x) = Step-Inv x (Steps-Inv uptime a)

-- As long as the module is loaded and the timer does not expire before INIT_WORK, in every order of expiries and runs, either the timer or the
-- work item is queued and never both; and over the first 2^32 - 1 runs of the work item one line is
-- printed for every ten begun.
pub Steps-printed :
    (uptime : Timespec) {s : State}
    → Steps (started uptime) s
    → s.runs < 2 ^ 32
    → (s.armed + s.pending ≡ 1) × (s.lines ≡ (s.runs + 9) / 10)
Steps-printed uptime a h = let v = Steps-Inv uptime a in (v.one, v.printed h)

-- For times of at most 2^34 seconds with the nanoseconds below a second, diff_tv is the difference
-- in nanoseconds, modulo 2^64 if the end is before the start.
pub diff_tv_lem :
    (start end : Timespec)
    → start.tv_sec ≤ 2 ^ 34
    → end.tv_sec ≤ 2 ^ 34
    → start.tv_nsec < 1000000000
    → end.tv_nsec < 1000000000
    → diff_tv start end
      ≡ sub64 (end.tv_sec * 1000000000 + end.tv_nsec) (start.tv_sec * 1000000000 + start.tv_nsec)
diff_tv_lem start end h k l m = omega arith

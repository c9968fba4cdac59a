-- ===== src/Runqlat/Probes/Switched.antt =====
-- The probe of sched_switch as a step on the log and the pending tasks.
use uio_linux_sample.Prelude.{
  Bool, none, ℕ, ◌≡◌, refl, sym, subst, ◌⊎◌, inl, inr, true, false, not, ◌&&◌, ◌||◌, ◌≢◌, Option,
  some, arith, if◌then◌else◌, Bool-cases,
}
use uio_linux_sample.Prelude.Words.{pos, eqb_ℤ, eqb_ℤ_iff, sub64}
use uio_linux_sample.Runqlat.Data.{Info, Context, Seen, invalid}
use uio_linux_sample.Runqlat.Record.{runqlat_info_reset, record_task_commit}
use uio_linux_sample.Runqlat.Record.Stores.{HasRoom}
use uio_linux_sample.Runqlat.Record.Refines.{Abstract, Refines, closed, record_task_commit-Refines}
use uio_linux_sample.Runqlat.Probes.{
  charge, set_curr, start_trace, switched_in, switched_out, others_switch, follow_trace,
  probe_sched_switch,
}
use uio_linux_sample.Runqlat.Probes.Laws.{
  charged, resets, started_at, charge-Charged, traced-HasRoom,
}

abbrev pub curr_after : Context → ℕ → Info → Option ℕ
curr_after c next n = if c.is_idle_task next then n.curr else some next

-- What the probe read without the lock names a traced thread that this CPU may follow.
abbrev pub reads_traced : ℕ → Seen → Bool
reads_traced cpu seen =
    not (eqb_ℤ seen.pid invalid) && (eqb_ℤ seen.cpu invalid || eqb_ℤ seen.cpu (pos cpu))

-- The traced thread is preempted, and its wait is not yet followed.
abbrev pub starts : Context → ℕ → ℕ → Seen → Info → Bool
starts c cpu prev seen n =
    (reads_traced cpu seen && eqb_ℤ seen.cpu_then invalid)
    && ((eqb_ℤ seen.pid_last (pos (c.pid prev)) && c.is_running prev)
        && (eqb_ℤ n.cpu invalid && eqb_ℤ n.pid (pos (c.pid prev))))

-- The wait is followed on this CPU.
abbrev pub follows : ℕ → Seen → Info → Bool
follows cpu seen n =
    (reads_traced cpu seen && not (eqb_ℤ seen.cpu_then invalid))
    && ((eqb_ℤ seen.cpu_last (pos cpu) && not (eqb_ℤ seen.pid_last invalid))
        && (eqb_ℤ n.cpu (pos cpu) && not (eqb_ℤ n.pid invalid)))

-- The start of a wait, with nothing recorded yet.
pub record Started (c : Context) (prev next : ℕ) (a : Abstract) (n q : Info) : Type 0 where
  pub refines : Refines a q
  pub rq_start : q.rq_start ≡ c.clock
  pub run_start : q.run_start ≡ c.clock
  pub cpu : q.cpu ≡ pos (c.task_cpu prev)
  pub curr : q.curr ≡ curr_after c next n
  pub pid : q.pid ≡ n.pid

-- The traced thread waits again, or sleeps and is no longer followed.
pub record Left (c : Context) (prev : ℕ) (a : Abstract) (curr : Option ℕ) (n q : Info)
    : Type 0 where
  pub refines : Refines a q
  pub rq_start : q.rq_start ≡ (if c.is_running prev then c.clock else 0)
  pub run_start : q.run_start ≡ (if c.is_running prev then c.clock else 0)
  pub cpu : q.cpu ≡ (if c.is_running prev then n.cpu else invalid)
  pub curr_task : q.curr ≡ (if c.is_running prev then curr else none)
  pub pid : q.pid ≡ n.pid

-- Two other threads switch, and the first is charged.
pub record Waited (c : Context) (prev : ℕ) (a : Abstract) (curr : Option ℕ) (n q : Info)
    : Type 0 where
  pub refines : Refines (charged c prev n a) q
  pub rq_start : q.rq_start ≡ started_at n
  pub run_start : q.run_start ≡ c.clock
  pub curr_task : q.curr ≡ (if resets n then none else curr)

-- The wait ends: the last thread is charged, and the tasks are kept or forgotten.
abbrev pub Ended : Context → ℕ → Abstract → Info → Info → Type 0
Ended c prev a n q =
    Refines (closed (sub64 c.clock (started_at n)) n.threshold (charged c prev n a)) q

-- The three cases of a switch while the wait is followed.
abbrev pub Followed : Context → ℕ → ℕ → Abstract → Info → Info → Type 0
Followed c prev next a n q =
    ((n.pid ≡ pos (c.pid next)) × Ended c prev a n q)
    ⊎ (((n.pid ≢ pos (c.pid next))
          × (n.pid ≡ pos (c.pid prev))
          × Left c prev a (curr_after c next n) n q)
        ⊎ ((n.pid ≢ pos (c.pid next))
            × (n.pid ≢ pos (c.pid prev))
            × Waited c prev a (curr_after c next n) n q))

-- All that a switch may do.
abbrev pub SwitchCase : Context → ℕ → ℕ → ℕ → Seen → Abstract → Info → Info → Type 0
SwitchCase c cpu prev next seen a n q =
    ((starts c cpu prev seen n ≡ false) × (follows cpu seen n ≡ false) × (q ≡ n))
    ⊎ (((starts c cpu prev seen n ≡ true) × Started c prev next a n q)
        ⊎ ((follows cpu seen n ≡ true) × Followed c prev next a n q))

switched_in-Ended :
    (c : Context) (prev : ℕ) (a : Abstract) (n : Info)
    → Refines a n
    → HasRoom n.records
    → Ended c prev a n (switched_in c prev n)
unfolding switched_in
switched_in-Ended c prev a n r room =
    let d = charge-Charged c prev a n r room in
    let q = charge c prev n in
    let ended =
      record_task_commit-Refines (sub64 c.clock q.rq_start) (charged c prev n a) q d.refines
        d.open_trace in
    let after = (record_task_commit (sub64 c.clock q.rq_start) q).1 in
    let tasks = charged c prev n a in
    subst (λ s. Refines (closed (sub64 c.clock s) n.threshold tasks) after) d.start
      (subst (λ t. Refines (closed (sub64 c.clock q.rq_start) t tasks) after) d.threshold ended)

switched_out-Left :
    (c : Context) (prev : ℕ) (a : Abstract) (n : Info)
    → Refines a n
    → Left c prev a n.curr n (switched_out c prev n)
unfolding switched_out runqlat_info_reset
switched_out-Left c prev a n r = elim (Bool-cases (c.is_running prev)) [
  | inl e ↦ simp e (record {
    refines = record { holds = r.holds; room = r.room; hist = r.hist };
    rq_start = simp e refl;
    run_start = simp e refl;
    cpu = simp e refl;
    curr_task = simp e refl;
    pid = refl;
  })
  | inr e ↦ simp e (record {
    refines = record { holds = r.holds; room = r.room; hist = r.hist };
    rq_start = simp e refl;
    run_start = simp e refl;
    cpu = simp e refl;
    curr_task = simp e refl;
    pid = refl;
  })
]

others_switch-Waited :
    (c : Context) (prev : ℕ) (a : Abstract) (n : Info)
    → Refines a n
    → HasRoom n.records
    → Waited c prev a n.curr n (others_switch c prev n)
unfolding others_switch
others_switch-Waited c prev a n r room =
    let d = charge-Charged c prev a n r room in
    record {
      refines = record { holds = d.refines.holds; room = d.refines.room; hist = d.refines.hist };
      rq_start = d.start;
      run_start = refl;
      curr_task = d.curr;
    }

-- The three cases, after `curr` is set.
switch_in_cases :
    (c : Context) (prev next : ℕ) (a : Abstract) (n : Info)
    → Refines a n
    → HasRoom n.records
    → let q = set_curr c next n in
      Followed c prev next a n (
        if eqb_ℤ q.pid (pos (c.pid next))
        then switched_in c prev q
        else if eqb_ℤ q.pid (pos (c.pid prev))
        then switched_out c prev q
        else others_switch c prev q)
switch_in_cases c prev next a n r room =
    let q = set_curr c next n in
    let same : Refines a q = record { holds = r.holds; room = r.room; hist = r.hist } in
    let is_next = eqb_ℤ_iff n.pid (pos (c.pid next)) in
    let is_prev = eqb_ℤ_iff n.pid (pos (c.pid prev)) in
    elim (Bool-cases (eqb_ℤ n.pid (pos (c.pid next)))) [
      | inl e ↦ simp e (inl (is_next.0 e, switched_in-Ended c prev a q same room))
      | inr e ↦
          let not_next : n.pid ≢ pos (c.pid next) = λ h. cc (is_next.1 h) in
          elim (Bool-cases (eqb_ℤ n.pid (pos (c.pid prev)))) [
            | inl f ↦
                let l = switched_out-Left c prev a q same in
                simp (e, f)
                  (inr (
                    inl (
                      not_next,
                      is_prev.0 f,
                      record {
                        refines = l.refines;
                        rq_start = l.rq_start;
                        run_start = l.run_start;
                        cpu = l.cpu;
                        curr_task = l.curr_task;
                        pid = l.pid;
                      },
                    )))
            | inr f ↦
                let not_prev : n.pid ≢ pos (c.pid prev) = λ h. cc (is_prev.1 h) in
                let w = others_switch-Waited c prev a q same room in
                simp (e, f)
                  (inr (
                    inr (
                      not_next,
                      not_prev,
                      record {
                        refines = w.refines;
                        rq_start = w.rq_start;
                        run_start = w.run_start;
                        curr_task = w.curr_task;
                      },
                    )))
          ]
    ]

start_trace-Started :
    (c : Context) (prev next : ℕ) (a : Abstract) (n : Info)
    → Refines a n
    → (not (eqb_ℤ n.cpu invalid) || not (eqb_ℤ n.pid (pos (c.pid prev)))) ≡ false
    → Started c prev next a n (start_trace c prev next n)
unfolding start_trace
start_trace-Started c prev next a n r e = simp e (record {
  refines = record { holds = r.holds; room = r.room; hist = r.hist };
  rq_start = refl;
  run_start = refl;
  cpu = refl;
  curr = refl;
  pid = refl;
})

follow_trace-Followed :
    (c : Context) (cpu prev next : ℕ) (a : Abstract) (n : Info)
    → Refines a n
    → (not (eqb_ℤ n.cpu (pos cpu)) || eqb_ℤ n.pid invalid) ≡ false
    → Followed c prev next a n (follow_trace c cpu prev next n)
unfolding follow_trace
follow_trace-Followed c cpu prev next a n r e =
    let traced : eqb_ℤ n.pid invalid ≡ false = ground arith in
    simp e (switch_in_cases c prev next a n r (traced-HasRoom a n r traced))

-- The branch behind the tests of what was read without the lock.
started_or_stays :
    (c : Context) (cpu prev next : ℕ) (seen : Seen) (a : Abstract) (n : Info)
    → Refines a n
    → reads_traced cpu seen ≡ true
    → eqb_ℤ seen.cpu_then invalid ≡ true
    → (not (eqb_ℤ seen.pid_last (pos (c.pid prev))) || not (c.is_running prev)) ≡ false
    → SwitchCase c cpu prev next seen a n (start_trace c prev next n)
unfolding start_trace
started_or_stays c cpu prev next seen a n r e f g =
    elim (Bool-cases (not (eqb_ℤ n.cpu invalid) || not (eqb_ℤ n.pid (pos (c.pid prev))))) [
      | inl h ↦ simp h (inl (ground arith, ground arith, refl))
      | inr h ↦ inr (inl (ground arith, start_trace-Started c prev next a n r h))
    ]

followed_or_stays :
    (c : Context) (cpu prev next : ℕ) (seen : Seen) (a : Abstract) (n : Info)
    → Refines a n
    → reads_traced cpu seen ≡ true
    → eqb_ℤ seen.cpu_then invalid ≡ false
    → (not (eqb_ℤ seen.cpu_last (pos cpu)) || eqb_ℤ seen.pid_last invalid) ≡ false
    → SwitchCase c cpu prev next seen a n (follow_trace c cpu prev next n)
unfolding follow_trace
followed_or_stays c cpu prev next seen a n r e f g =
    elim (Bool-cases (not (eqb_ℤ n.cpu (pos cpu)) || eqb_ℤ n.pid invalid)) [
      | inl h ↦ simp h (inl (ground arith, ground arith, refl))
      | inr h ↦ inr (inr (ground arith, follow_trace-Followed c cpu prev next a n r h))
    ]

-- In a state that represents a log and pending tasks, whatever the probe read before it took the
-- lock: a switch changes nothing unless the traced thread is preempted before its wait is followed,
-- or its wait is followed on this CPU, by what was read and by the state itself. In the first case
-- the wait starts now, and the log and the tasks stay. In the second, if the traced thread is
-- switched in, the time of `prev` is added to the pending tasks, if its measurement was started, and
-- the wait ends: the pending tasks become a trace of the log or are forgotten, by the threshold in
-- the state. If it is switched out, the log and the tasks stay, and the wait starts again, or is
-- followed no longer if the thread sleeps. Otherwise the time of `prev` is added in the same way and
-- the next measurement starts now. Unless the traced thread is switched in, a `next` that is
-- not the idle task becomes the current one, if the wait is still followed and the last entry for a
-- task was not taken.
pub probe_sched_switch-SwitchCase :
    (c : Context) (cpu prev next : ℕ) (seen : Seen) (a : Abstract) (n : Info)
    → Refines a n
    → SwitchCase c cpu prev next seen a n (probe_sched_switch c cpu prev next seen n)
unfolding probe_sched_switch
probe_sched_switch-SwitchCase c cpu prev next seen a n r =
    elim (Bool-cases (eqb_ℤ seen.pid invalid)) [
      | inl e ↦ inl (ground arith, ground arith, simp e)
      | inr e ↦ elim (Bool-cases (not (eqb_ℤ seen.cpu invalid) && not (eqb_ℤ seen.cpu (pos cpu)))) [
        | inl f ↦ inl (ground arith, ground arith, simp (e, f))
        | inr f ↦
            let reads : reads_traced cpu seen ≡ true = ground arith in
            elim (Bool-cases (eqb_ℤ seen.cpu_then invalid)) [
              | inl g ↦
                  elim (Bool-cases
                    (not (eqb_ℤ seen.pid_last (pos (c.pid prev))) || not (c.is_running prev))) [
                      | inl k ↦ inl (ground arith, ground arith, simp (e, f, g, k))
                      | inr k ↦
                          let same : probe_sched_switch c cpu prev next seen n
                              ≡ start_trace c prev next n =
                            simp (e, f, g, k) in
                          subst (SwitchCase c cpu prev next seen a n) (sym same)
                            (started_or_stays c cpu prev next seen a n r reads g k)
                    ]
              | inr g ↦
                  elim (Bool-cases
                    (not (eqb_ℤ seen.cpu_last (pos cpu)) || eqb_ℤ seen.pid_last invalid)) [
                      | inl k ↦ inl (ground arith, ground arith, simp (e, f, g, k))
                      | inr k ↦
                          let same : probe_sched_switch c cpu prev next seen n
                              ≡ follow_trace c cpu prev next n =
                            simp (e, f, g, k) in
                          subst (SwitchCase c cpu prev next seen a n) (sym same)
                            (followed_or_stays c cpu prev next seen a n r reads g k)
                    ]
            ]
      ]
    ]

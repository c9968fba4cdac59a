-- ===== src/Threadsnoop/Laws.antt =====
-- The status that main returns, and what it releases.
use uio_linux_sample.Prelude.{
  ◌≡◌, ◌≢◌, refl, ap, ◌∙◌, sym, subst, ◌⊎◌, inl, inr, ◌↔◌, true, false, Option, some, List, [], ◌∷◌,
  Bool-cases,
}
use uio_linux_sample.Prelude.Words.{ℤ, pos, eqb_ℤ_iff}
use uio_linux_sample.Threadsnoop.{
  Held, nothing, Exit, Poll, Answers, is_zero, is_negative, attach_uprobes, poll_loop, cleanup,
  poll, trace, load_and_trace, main,
}

-- A poll that ends the loop.
abbrev pub Ends : List Poll → Type 0
Ends [] = ⊥
Ends (p ∷ ps) = ((is_negative p.result ≡ true) ⊎ (p.exiting ≡ true)) ⊎ Ends ps

poll_loop-some : (ps : List Poll) → Ends ps → (err : ℤ) × (poll_loop ps ≡ some err)
unfolding poll_loop
poll_loop-some [] h = absurd h
poll_loop-some (p ∷ ps) h = elim (Bool-cases (is_negative p.result)) [
  | inl n ↦ (p.result, rw n)
  | inr n ↦ elim (Bool-cases p.exiting) [
    | inl e ↦ (p.result, rw (n, e))
    | inr e ↦
        let rest : Ends ps = elim h [
          | inl (inl k) ↦ cc (k, n)
          | inl (inr k) ↦ cc (k, e)
          | inr k ↦ k
        ] in
        let (err, r) = poll_loop-some ps rest in (err, rw (n, e) r)
  ]
]

-- main has returned, with everything released; the status is 0 exactly if `Z`.
record Ended (Z : Type 0) (r : Option Exit) : Type 0 where
  exit : Exit
  returns : r ≡ some exit
  released : exit.held ≡ nothing
  success : (exit.status ≡ pos 0) ↔ Z

zero_of : (err : ℤ) → is_zero err ≡ true → err ≡ pos 0
zero_of err h = (eqb_ℤ_iff err (pos 0)).0 h

nonzero_of : (err : ℤ) → is_zero err ≡ false → err ≢ pos 0
nonzero_of err h e = let h' = (eqb_ℤ_iff err (pos 0)).1 e in cc

Ended-iff : (Y Z : Type 0) (r : Option Exit) → (Y → Z) → (Z → Y) → Ended Y r → Ended Z r
Ended-iff Y Z r f g e = record {
  exit = e.exit;
  returns = e.returns;
  released = e.released;
  success = (λ s. f (e.success.0 s), λ z. e.success.1 (g z));
}

Ended-same : {Z : Type 0} {r : Option Exit} (r' : Option Exit) → r ≡ r' → Ended Z r' → Ended Z r
Ended-same {Z = Z} r' e h = subst (Ended Z) (sym e) h

cleanup-Ended : (err : ℤ) (h : Held) → Ended (err ≡ pos 0) (some (cleanup err h))
unfolding cleanup
cleanup-Ended err h = elim (Bool-cases (is_zero err)) [
  | inl z ↦ record {
    exit = cleanup err h;
    returns = refl;
    released = refl;
    success = rw z (λ e. zero_of err z, λ e. refl);
  }
  | inr n ↦ record {
    exit = cleanup err h;
    returns = refl;
    released = refl;
    success = rw n (λ e. cc, λ e. absurd (nonzero_of err n e));
  }
]

-- An error that is not 0 ends the program with a status that is not 0.
failed-Ended :
    (Z : Type 0) (err : ℤ) (h : Held)
    → is_zero err ≡ false
    → (Z → err ≡ pos 0)
    → Ended Z (some (cleanup err h))
failed-Ended Z err h n f =
    Ended-iff (err ≡ pos 0) Z (some (cleanup err h)) (λ e. absurd (nonzero_of err n e)) f
      (cleanup-Ended err h)

poll-some :
    (ps : List Poll) (h : Held) (err : ℤ)
    → poll_loop ps ≡ some err
    → poll ps h ≡ some (cleanup err h)
poll-some ps h err e = rw (e, poll) refl

poll-Ended : (ps : List Poll) (h : Held) → Ends ps → Ended (poll_loop ps ≡ some (pos 0)) (poll ps h)
poll-Ended ps h ends =
    let (err, e) = poll_loop-some ps ends in
    subst (Ended (poll_loop ps ≡ some (pos 0))) (sym (poll-some ps h err e)) (
      Ended-iff (err ≡ pos 0) (poll_loop ps ≡ some (pos 0)) (some (cleanup err h))
        (λ z. e ∙ ap some z) (λ z. cc (z, e)) (cleanup-Ended err h))

-- The handler of SIGINT could not be set, or the last poll of the loop found no event.
abbrev pub Quiet : Answers → Type 0
Quiet a = (a.signal ≡ false) ⊎ ((a.signal ≡ true) × (poll_loop a.polls ≡ some (pos 0)))

trace-Ended :
    (a : Answers) (h : Held)
    → Ends a.polls
    → Ended ((a.perf_buffer_new ≡ pos 0) × Quiet a) (trace a h)
unfolding trace
trace-Ended a h ends = elim (Bool-cases (is_zero a.perf_buffer_new)) [
  | inr n ↦ simp n (failed-Ended _ a.perf_buffer_new h n (λ z. z.0))
  | inl z ↦
      let h' : Held = record h { pb = true } in
      let zero' = zero_of a.perf_buffer_new z in
      elim (Bool-cases a.signal) [
        | inr n ↦ Ended-same (some (cleanup a.perf_buffer_new h')) (simp (z, n)) (
            Ended-iff (a.perf_buffer_new ≡ pos 0) ((a.perf_buffer_new ≡ pos 0) × Quiet a)
              (some (cleanup a.perf_buffer_new h')) (λ e. (e, inl n)) (λ e. e.0)
              (cleanup-Ended a.perf_buffer_new h'))
        | inl s ↦ Ended-same (poll a.polls h') (simp (z, s)) (
            Ended-iff (poll_loop a.polls ≡ some (pos 0)) ((a.perf_buffer_new ≡ pos 0) × Quiet a)
              (poll a.polls h') (λ e. (zero', inr (s, e)))
              (λ e. elim (e.1) [ inl k ↦ cc (k, s) | inr k ↦ k.1 ]) (poll-Ended a.polls h' ends))
      ]
]

-- The symbol was found, and the probe is attached to it.
abbrev pub Attached : Answers → Type 0
Attached a = (is_negative a.get_elf_func_offset ≡ false) × (a.attach_uprobe ≡ pos 0)

attach_uprobes-Attached : (a : Answers) → (attach_uprobes a ≡ pos 0) ↔ Attached a
unfolding attach_uprobes
attach_uprobes-Attached a = elim (Bool-cases (is_negative a.get_elf_func_offset)) [
  | inl n ↦ (λ e. cc (rw n at e), λ h. cc (h.0, n))
  | inr n ↦ elim (Bool-cases (is_zero a.attach_uprobe)) [
    | inl z ↦ (λ e. (n, zero_of a.attach_uprobe z), λ h. rw (n, z) refl)
    | inr z ↦ (λ e. cc (rw (n, z) at e), λ h. absurd (nonzero_of a.attach_uprobe z h.1))
  ]
]

-- No cache of symbols could be made, or the probe is attached and the rest is quiet.
abbrev pub Unnoticed : Answers → Type 0
Unnoticed a =
    (a.syms_cache_new ≡ false)
    ⊎ ((a.syms_cache_new ≡ true) × Attached a × (a.perf_buffer_new ≡ pos 0) × Quiet a)

load_and_trace-Ended :
    (a : Answers) (h : Held)
    → Ends a.polls
    → Ended ((a.load ≡ pos 0) × Unnoticed a) (load_and_trace a h)
unfolding load_and_trace
load_and_trace-Ended a h ends = elim (Bool-cases (is_zero a.load)) [
  | inr n ↦ simp n (failed-Ended _ a.load h n (λ z. z.0))
  | inl z ↦
      let h' : Held = record h { syms_cache = true } in
      let zero' = zero_of a.load z in
      elim (Bool-cases a.syms_cache_new) [
        | inr n ↦ Ended-same (some (cleanup a.load h)) (simp (z, n)) (
            Ended-iff (a.load ≡ pos 0) ((a.load ≡ pos 0) × Unnoticed a) (some (cleanup a.load h))
              (λ e. (e, inl n)) (λ e. e.0) (cleanup-Ended a.load h))
        | inl s ↦ elim (Bool-cases (is_zero (attach_uprobes a))) [
          | inr n ↦ Ended-same (some (cleanup (attach_uprobes a) h')) (simp (z, s, n)) (
              failed-Ended _ (attach_uprobes a) h' n
                (λ e. elim (e.1) [ inl k ↦ cc (k, s) | inr k ↦ (attach_uprobes-Attached a).1 k.1 ]))
          | inl t ↦ Ended-same (trace a h') (simp (z, s, t)) (
              Ended-iff ((a.perf_buffer_new ≡ pos 0) × Quiet a) ((a.load ≡ pos 0) × Unnoticed a)
                (trace a h')
                (λ e. (
                  zero',
                  inr (s, (attach_uprobes-Attached a).0 (zero_of (attach_uprobes a) t), e.0, e.1),
                ))
                (λ e. elim (e.1) [ inl k ↦ cc (k, s) | inr k ↦ (k.2, k.3) ])
                (trace-Ended a h' ends))
        ]
      ]
]

-- What main starts with has gone well.
abbrev pub Started : Answers → Type 0
Started a =
    (a.argp_parse ≡ pos 0)
    × (a.bump_memlock_rlimit ≡ pos 0)
    × (a.open_object ≡ true)
    × (a.load ≡ pos 0)

early-Ended :
    (Z : Type 0) (err : ℤ)
    → err ≢ pos 0
    → (Z → ⊥)
    → Ended Z (some (record { status = err; held = nothing }))
early-Ended Z err n f = record {
  exit = record { status = err; held = nothing };
  returns = refl;
  released = refl;
  success = (λ e. absurd (n e), λ z. absurd (f z));
}

main-Ended : (a : Answers) → Ends a.polls → Ended (Started a × Unnoticed a) (main a)
unfolding main
main-Ended a ends = elim (Bool-cases (is_zero a.argp_parse)) [
  | inr n ↦ simp n (
      early-Ended _ a.argp_parse (nonzero_of a.argp_parse n) (λ z. nonzero_of a.argp_parse n z.0.0))
  | inl z ↦ elim (Bool-cases (is_zero a.bump_memlock_rlimit)) [
    | inr n ↦
        simp (z, n)
          (early-Ended _ (pos 1) (λ e. cc) (λ e. nonzero_of a.bump_memlock_rlimit n e.0.1))
    | inl y ↦ elim (Bool-cases a.open_object) [
      | inr n ↦
          Ended-same (some (record { status = pos 1; held = nothing })) (simp (z, y, n))
            (early-Ended _ (pos 1) (λ e. cc) (λ e. cc (e.0.2, n)))
      | inl o ↦ Ended-same (load_and_trace a (record nothing { obj = true })) (simp (z, y, o)) (
          Ended-iff ((a.load ≡ pos 0) × Unnoticed a) (Started a × Unnoticed a)
            (load_and_trace a (record nothing { obj = true }))
            (λ e. ((zero_of a.argp_parse z, zero_of a.bump_memlock_rlimit y, o, e.0), e.1))
            (λ e. (e.0.3, e.1)) (load_and_trace-Ended a (record nothing { obj = true }) ends))
    ]
  ]
]

-- If a poll of the loop fails or finds the program interrupted, main returns with the object, the
-- cache and the buffer released. It returns 0 exactly if everything up to the load went well and
-- then no cache of symbols could be made, or the probe and the perf buffer are set up and the
-- handler of SIGINT could not be set or the last poll gave 0.
pub main-status :
    (a : Answers)
    → Ends a.polls
    → (e : Exit) × (main a ≡ some e)
      × (e.held ≡ nothing)
      × ((e.status ≡ pos 0) ↔ (Started a × Unnoticed a))
main-status a ends = let r = main-Ended a ends in (r.exit, r.returns, r.released, r.success)

-- ===== src/Runqlat/Probes/Migrated.antt =====
-- The probe of sched_migrate_task as a step on the log and the pending tasks.
use uio_linux_sample.Prelude.{
  ℕ, ◌≡◌, refl, ◌⊎◌, inl, inr, Bool, true, false, not, ◌&&◌, ◌||◌, Option, none, some, arith,
  Bool-cases,
}
use uio_linux_sample.Prelude.Words.{pos, eqb_ℤ}
use uio_linux_sample.Runqlat.Data.{Info, Context, Seen, invalid}
use uio_linux_sample.Runqlat.Record.Stores.{HasRoom}
use uio_linux_sample.Runqlat.Record.Refines.{Abstract, Refines}
use uio_linux_sample.Runqlat.Probes.{charge_curr, probe_sched_migrate_task}
use uio_linux_sample.Runqlat.Probes.Laws.{charged, charge-Charged, traced_pos-HasRoom}

-- A migration while the wait is followed: the current task is charged, and the measurement goes on
-- for the new CPU.
abbrev pub charged_curr : Context → Option ℕ → Info → Abstract → Abstract
charged_curr c none n a = a
charged_curr c (some p) n a = charged c p n a

pub record Migrated (c : Context) (cpu : ℕ) (a : Abstract) (n q : Info) : Type 0 where
  pub refines : Refines (charged_curr c n.curr n a) q
  pub cpu_after : q.cpu ≡ pos cpu
  pub run_start : q.run_start ≡ c.clock

charge_curr-Refines :
    (c : Context) (curr : Option ℕ) (a : Abstract) (n : Info)
    → Refines a n
    → HasRoom n.records
    → Refines (charged_curr c curr n a) (charge_curr c curr n)
charge_curr-Refines c none a n r room = r
charge_curr-Refines c (some p) a n r room = (charge-Charged c p a n r room).refines

abbrev pub follows_task : Context → ℕ → Seen → Info → Bool
follows_task c p seen n =
    (eqb_ℤ (pos (c.pid p)) seen.pid && not (eqb_ℤ seen.cpu invalid))
    && (eqb_ℤ (pos (c.pid p)) n.pid && not (eqb_ℤ n.cpu invalid))

abbrev pub MigrateCase : Context → ℕ → ℕ → Seen → Abstract → Info → Info → Type 0
MigrateCase c p cpu seen a n q =
    ((follows_task c p seen n ≡ false) × (q ≡ n))
    ⊎ ((follows_task c p seen n ≡ true) × Migrated c cpu a n q)

charge_curr-Migrated :
    (c : Context) (cpu : ℕ) (a : Abstract) (n : Info)
    → Refines a n
    → HasRoom n.records
    → Migrated c cpu a n (record (charge_curr c n.curr n) { cpu = pos cpu; run_start = c.clock })
charge_curr-Migrated c cpu a n r room =
    let d = charge_curr-Refines c n.curr a n r room in
    record {
      refines = record { holds = d.holds; room = d.room; hist = d.hist };
      cpu_after = refl;
      run_start = refl;
    }

pub probe_sched_migrate_task-MigrateCase :
    (c : Context) (p cpu : ℕ) (seen : Seen) (a : Abstract) (n : Info)
    → Refines a n
    → MigrateCase c p cpu seen a n (probe_sched_migrate_task c p cpu seen n)
unfolding probe_sched_migrate_task
probe_sched_migrate_task-MigrateCase c p cpu seen a n r =
    elim (Bool-cases (not (eqb_ℤ (pos (c.pid p)) seen.pid) || eqb_ℤ seen.cpu invalid)) [
      | inl e ↦ simp e (inl (ground arith, refl))
      | inr e ↦ elim (Bool-cases (not (eqb_ℤ (pos (c.pid p)) n.pid) || eqb_ℤ n.cpu invalid)) [
        | inl f ↦ simp (e, f) (inl (ground arith, refl))
        | inr f ↦
            let same : eqb_ℤ (pos (c.pid p)) n.pid ≡ true = ground arith in
            let m = charge_curr-Migrated c cpu a n r (traced_pos-HasRoom a n (c.pid p) r same) in
            simp (e, f) (inr (ground arith, m))
      ]
    ]

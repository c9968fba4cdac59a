-- ===== src/Percpu.antt =====
-- percpu/percpu.c: the two per-CPU variables of the module, one of them allocated. A variable is the
-- list of its values on the possible CPUs.
mod Laws
mod Tests
use uio_linux_sample.Prelude.{
  ℕ, zero, suc, ◌+◌, ◌*◌, ◌^◌, Bool, true, false, not, Option, none, some, List, [], ◌∷◌, set,
  get_or, replicate, if◌then◌else◌,
}
use uio_linux_sample.Prelude.Words.{u64}

-- `allocated` has every allocation that is not freed, the newest first; cpualloc points to one.
pub record State : Type 0 where
  pub cpuvar : List ℕ
  pub cpualloc : Option (List ℕ)
  pub allocated : ℕ

abbrev pub at_load : ℕ → State
at_load cpus = record { cpuvar = replicate cpus 10; cpualloc = none; allocated = 0 }

-- for_each_possible_cpu(i) *per_cpu_ptr(cpualloc, i) = i, from CPU i on
unfoldable pub number_from : ℕ → ℕ → List ℕ
number_from i zero = []
number_from i (suc n) = i ∷ number_from (i + 1) n

-- The result: the value that is returned, what is printed of the first allocation, and of cpuvar on
-- the current CPU, and the state. `none` is a store through a null pointer.
pub record Loaded : Type 0 where
  pub ok : Bool
  pub shown : List ℕ
  pub current : ℕ
  pub state : State

-- Behind the first allocation: cpuvar, and the second allocation with its values.
unfoldable pub second_half : Bool → ℕ → ℕ → State → Option Loaded
second_half alloc2 cpus cpu s =
    let cpuvar = replicate cpus 18 in
    let current = get_or cpuvar cpu 0 in
    if not alloc2
    then none
    else some (record {
      ok = true;
      shown = number_from 0 cpus;
      current = current;
      state = record {
        cpuvar = set cpuvar cpu (u64 (current + 1));
        cpualloc = some (replicate cpus 100);
        allocated = suc s.allocated;
      };
    })

-- The answers of the two calls of alloc_percpu, the number of CPUs and the current one.
unfoldable pub percpu_init : Bool → Bool → ℕ → ℕ → State → Option Loaded
percpu_init alloc1 alloc2 cpus cpu s =
    if not alloc1
    then some (record { ok = false; shown = []; current = 0; state = record s { cpualloc = none } })
    else second_half alloc2 cpus cpu
        (record s { cpualloc = some (number_from 0 cpus); allocated = suc s.allocated })

abbrev pred : ℕ → ℕ
pred zero = 0
pred (suc n) = n

-- free_percpu(cpualloc), which accepts a null pointer
unfoldable pub percpu_exit : State → State
percpu_exit s = elim s.cpualloc [
  | none ↦ s
  | some values ↦ record s { allocated = pred s.allocated }
]

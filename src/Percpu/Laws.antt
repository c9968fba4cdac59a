-- ===== src/Percpu/Laws.antt =====
-- What the module leaves behind.
use uio_linux_sample.Prelude.{
  ℕ, ◌≡◌, ◌<◌, refl, ◌∙◌, true, some, List, arith, length, get_or, replicate, length-replicate,
  get_or-set_self, zero, suc,
}
use uio_linux_sample.Percpu.{at_load, Loaded, second_half, percpu_init, percpu_exit}

get_or-replicate : (n k v : ℕ) → k < n → get_or (replicate n v) k 0 ≡ v
get_or-replicate zero k v h = absurd (omega arith)
get_or-replicate (suc n) zero v h = refl
get_or-replicate (suc n) (suc k) v h = get_or-replicate n k v (omega arith)

-- If both allocations succeed, the load leaves cpuvar 19 on the CPU on which it ran, and
-- after the unload one of the two allocations is still there.
pub percpu_init-exit :
    (cpus cpu : ℕ)
    → cpu < cpus
    → (r : Loaded) × (percpu_init true true cpus cpu (at_load cpus) ≡ some r)
      × (get_or r.state.cpuvar cpu 0 ≡ 19)
      × ((percpu_exit r.state).allocated ≡ 1)
unfolding percpu_init second_half percpu_exit
percpu_init-exit cpus cpu h =
    let eighteen = get_or-replicate cpus cpu 18 h in
    let eighteens : List ℕ = replicate cpus 18 in
    let size : length eighteens ≡ cpus = length-replicate cpus 18 in
    (_, refl, get_or-set_self eighteens cpu _ 0 (omega (arith, size)) ∙ rw eighteen refl, refl)

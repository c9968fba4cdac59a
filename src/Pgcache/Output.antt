-- ===== src/Pgcache/Output.antt =====
-- What a write to the sysctl prints, and what it does to the lock.
use uio_linux_sample.Prelude.{
  ℕ, zero, suc, ◌+◌, ◌*◌, ◌≤◌, ◌<◌, ◌≡◌, refl, ap, Bool, true, false, Option, none, some, List, [],
  ◌∷◌, arith, subst, take, ltb, if◌then◌else◌,
}
use uio_linux_sample.Prelude.Words.{u64, ℤ, pos}
use uio_linux_sample.Pgcache.Scan.{
  Node, Ordered, spin_lock, spin_unlock, order_list_clear, SuperBlock, scan_inodes_pagecache_one_sb,
  scan_supers, Task, File, scan_task, scan_process_inodes_pagecache,
}
use uio_linux_sample.Pgcache.Print.{
  k, m, g, Size, size_of, is_printed, print_nodes, is_empty, print_top_num, Sysctls, Kernel,
  scan_mode, scan_and_print, scan_caches_sysctl_handler,
}
use uio_linux_sample.Pgcache.Order.{
  Sorted, found_supers, found_task, found_processes, found_supers-Sorted, found_processes-Sorted,
}

-- The printed gigabytes, megabytes and kilobytes make up the bytes to within a kilobyte, the last
-- two below 1024.
pub size_of_bounds :
    (bytes : ℕ)
    → let s = size_of bytes in
      (s.gb * g + s.mb * m + s.kb * k ≤ bytes)
      × (bytes < s.gb * g + s.mb * m + s.kb * k + k)
      × (s.mb < 1024)
      × (s.kb < 1024)
unfolding size_of
size_of_bounds bytes = (omega arith, omega arith, omega arith, omega arith)

-- The nodes of the list that reach a kilobyte, with their sizes.
abbrev pub printed : ℕ → List Node → List (Node × Size)
printed page_size [] = []
printed page_size (n ∷ ns) =
    let s = size_of (u64 (n.pagecount * page_size)) in
    if is_printed s then (n, s) ∷ printed page_size ns else printed page_size ns

print_nodes-none :
    (page_size num count : ℕ) (ns : List Node)
    → num ≤ count
    → print_nodes page_size num count ns ≡ []
unfolding print_nodes
print_nodes-none page_size num count [] h = refl
print_nodes-none page_size num count (n ∷ ns) h =
    let stop : ltb count num ≡ false = ground arith in
    rw stop (print_nodes-none page_size num (count + 1) ns (omega arith))

-- The loop prints, of the first `left` nodes, those that reach a kilobyte.
pub print_nodes-printed :
    (page_size left count : ℕ) (ns : List Node)
    → print_nodes page_size (count + left) count ns ≡ printed page_size (take left ns)
unfolding print_nodes
print_nodes-printed page_size zero count ns =
    print_nodes-none page_size (count + 0) count ns (omega arith)
print_nodes-printed page_size (suc left) count [] = refl
print_nodes-printed page_size (suc left) count (n ∷ ns) =
    let go : ltb count (count + suc left) ≡ true = ground arith in
    let more : (count + 1) + left ≡ count + suc left = omega arith in
    let rest =
      subst (λ x. print_nodes page_size x (count + 1) ns ≡ printed page_size (take left ns)) more
        (print_nodes-printed page_size left (count + 1) ns) in
    rw (go, rest) refl

-- The nodes that a write finds.
abbrev pub found : Sysctls → Kernel → ℕ → List Node
found c e zero = found_processes c.file_deleted_but_used e.processes []
found c e (suc zero) = found_supers e.supers []
found c e (suc (suc n)) =
    found_processes c.file_deleted_but_used e.processes (found_supers e.supers [])

pub found-Sorted : (c : Sysctls) (e : Kernel) (mode : ℕ) → Sorted (found c e mode)
found-Sorted c e zero = found_processes-Sorted c.file_deleted_but_used e.processes [] tt
found-Sorted c e (suc zero) = found_supers-Sorted e.supers [] tt
found-Sorted c e (suc (suc n)) =
    found_processes-Sorted c.file_deleted_but_used e.processes (found_supers e.supers [])
      (found_supers-Sorted e.supers [] tt)

abbrev pub free_list : List Node → Ordered
free_list list = record { list = list; locked = false }

scan_supers-found :
    (sbs : List SuperBlock) (list : List Node)
    → scan_supers sbs (free_list list) ≡ some (free_list (found_supers sbs list))
unfolding scan_supers scan_inodes_pagecache_one_sb spin_lock spin_unlock
scan_supers-found [] list = refl
scan_supers-found (sb ∷ sbs) list = scan_supers-found sbs _

task-found :
    (deleted skip : Bool) (t : Task) (files : Option (ℕ → List File)) (list : List Node)
    → (if skip then some (free_list list) else scan_task deleted t files (free_list list))
      ≡ some (free_list (if skip then list else found_task deleted t files list))
unfolding spin_lock spin_unlock
task-found deleted true t files list = refl
task-found deleted false t none list = refl
task-found deleted false t (some fs) list = refl

scan_process-found :
    (deleted : Bool) (ts : List Task) (list : List Node)
    → scan_process_inodes_pagecache deleted ts (free_list list)
      ≡ some (free_list (found_processes deleted ts list))
unfolding scan_process_inodes_pagecache
scan_process-found deleted [] list = refl
scan_process-found deleted (t ∷ ts) list =
    rw (task-found deleted t.init_or_current t t.files list) (
      scan_process-found deleted ts
        (if t.init_or_current then list else found_task deleted t t.files list))

scan_mode-found :
    (c : Sysctls) (e : Kernel) (mode : ℕ)
    → scan_mode c e mode (free_list []) ≡ some (free_list (found c e mode))
unfolding scan_mode
scan_mode-found c e zero = scan_process-found c.file_deleted_but_used e.processes []
scan_mode-found c e (suc zero) = scan_supers-found e.supers []
scan_mode-found c e (suc (suc n)) =
    rw (scan_supers-found e.supers [])
      (scan_process-found c.file_deleted_but_used e.processes (found_supers e.supers []))

abbrev pub top : ℕ → ℕ → List Node → Option (List (Node × Size) × Ordered)
top page_size num list =
    if is_empty list then none else some (printed page_size (take num list), free_list list)

print_top_num-top :
    (page_size num : ℕ) (list : List Node)
    → print_top_num page_size num (free_list list) ≡ top page_size num list
unfolding print_top_num spin_lock spin_unlock
print_top_num-top page_size num [] = refl
print_top_num-top page_size num (n ∷ ns) =
    ap (λ ls. some (ls, free_list (n ∷ ns)))
      (subst (λ x. print_nodes page_size x 0 (n ∷ ns) ≡ printed page_size (take num (n ∷ ns)))
        (omega arith) (print_nodes-printed page_size num 0 (n ∷ ns)))

abbrev pub answered :
    Option (List (Node × Size) × Ordered) → Option (ℤ × List (Node × Size) × Ordered)
answered none = none
answered (some (ls, o)) = some (pos 0, ls, o)

-- With the lock free and a mode below 3, a write that the kernel accepts finds an ordered list. If
-- it is empty, the handler releases a lock that nobody holds; otherwise it prints, of the first
-- nodes up to the number that is set, those that reach a kilobyte, keeps the list and leaves the
-- lock free.
pub scan_caches_sysctl_handler-cases :
    (c : Sysctls) (e : Kernel) (list : List Node)
    → c.mode < 3
    → Sorted (found c e c.mode)
      × (scan_caches_sysctl_handler c e (pos 0) true (free_list list)
          ≡ answered (top e.page_size c.top_n (found c e c.mode)))
unfolding scan_caches_sysctl_handler scan_and_print order_list_clear spin_lock spin_unlock
scan_caches_sysctl_handler-cases c e list h =
    let below : ltb c.mode 3 ≡ true = ground arith in
    (
      found-Sorted c e c.mode,
      rw
          (
            below,
            scan_mode-found c e c.mode,
            print_top_num-top e.page_size c.top_n (found c e c.mode),
          )
          refl,
    )

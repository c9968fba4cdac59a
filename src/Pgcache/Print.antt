-- ===== src/Pgcache/Print.antt =====
-- print_top_num and the handler of the sysctl.
use uio_linux_sample.Prelude.{
  and_then, ℕ, zero, suc, ◌+◌, ◌-◌, ◌*◌, ◌/◌, Bool, true, false, not, ◌&&◌, ◌||◌, Option, none,
  some, List, [], ◌∷◌, ltb, ◌==◌, if◌then◌else◌,
}
use uio_linux_sample.Prelude.Words.{u64, ℤ, pos, eqb_ℤ}
use uio_linux_sample.Pgcache.Scan.{
  Node, Ordered, spin_lock, spin_unlock, order_list_clear, SuperBlock, Task, scan_supers,
  scan_process_inodes_pagecache,
}

-- K, M and G
abbrev pub k : ℕ
k = 1024

abbrev pub m : ℕ
m = 1024 * k

abbrev pub g : ℕ
g = 1024 * m

pub record Size : Type 0 where
  pub gb : ℕ
  pub mb : ℕ
  pub kb : ℕ

unfoldable pub size_of : ℕ → Size
size_of bytes =
    let gb = bytes / g in
    let mb = (bytes - gb * g) / m in record { gb = gb; mb = mb; kb = (bytes - gb * g - mb * m) / k }

-- The three formats differ in nothing but a letter's case.
abbrev pub is_printed : Size → Bool
is_printed s = not (s.gb == 0) || (not (s.mb == 0) || not (s.kb == 0))

-- The loop of print_top_num, with PAGE_SIZE.
unfoldable pub print_nodes : ℕ → ℕ → ℕ → List Node → List (Node × Size)
print_nodes page_size num count [] = []
print_nodes page_size num count (n ∷ ns) =
    let rest = print_nodes page_size num (count + 1) ns in
    let s = size_of (u64 (n.pagecount * page_size)) in
    if ltb count num && is_printed s then (n, s) ∷ rest else rest

abbrev pub is_empty : List Node → Bool
is_empty [] = true
is_empty (n ∷ ns) = false

abbrev pub with_lines : List (Node × Size) → Option Ordered → Option (List (Node × Size) × Ordered)
with_lines ls none = none
with_lines ls (some o) = some (ls, o)

-- An empty list goes to `out`, where the lock is released.
unfoldable pub print_top_num : ℕ → ℕ → Ordered → Option (List (Node × Size) × Ordered)
print_top_num page_size num o =
    if is_empty o.list then with_lines [] (spin_unlock o) else elim (spin_lock o) [
      | none ↦ none
      | some p ↦ with_lines (print_nodes page_size num 0 p.list) (spin_unlock p)
    ]

-- The sysctls that the handler reads; the kernel keeps sysctl_pgcache_scan_mode from 0 to 2.
pub record Sysctls : Type 0 where
  pub top_n : ℕ
  pub mode : ℕ
  pub file_deleted_but_used : Bool

-- What the scans find.
pub record Kernel : Type 0 where
  pub page_size : ℕ
  pub supers : List SuperBlock
  pub processes : List Task

-- The scans of a mode, after the list is cleared.
unfoldable pub scan_mode : Sysctls → Kernel → ℕ → Ordered → Option Ordered
scan_mode c e zero o = scan_process_inodes_pagecache c.file_deleted_but_used e.processes o
scan_mode c e (suc zero) o = scan_supers e.supers o
scan_mode c e (suc (suc n)) o =
    and_then (scan_supers e.supers o)
      (scan_process_inodes_pagecache c.file_deleted_but_used e.processes)

unfoldable pub scan_and_print : Sysctls → Kernel → Ordered → Option (List (Node × Size) × Ordered)
scan_and_print c e o = elim (order_list_clear o) [
  | none ↦ none
  | some p ↦ elim (scan_mode c e c.mode p) [
    | none ↦ none
    | some q ↦ print_top_num e.page_size c.top_n q
  ]
]

-- `ret` is what proc_dointvec_minmax answers. A result is the answer with the printed lines.
unfoldable pub scan_caches_sysctl_handler :
    Sysctls → Kernel → ℤ → Bool → Ordered → Option (ℤ × List (Node × Size) × Ordered)
scan_caches_sysctl_handler c e ret write o =
    if not (eqb_ℤ ret (pos 0))
    then some (ret, [], o)
    else if write && ltb c.mode 3
    then elim (scan_and_print c e o) [ none ↦ none | some (ls, p) ↦ some (pos 0, ls, p) ]
    else some (pos 0, [], o)

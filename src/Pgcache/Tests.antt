-- ===== src/Pgcache/Tests.antt =====
-- A run on a small superblock, and the theorems at inputs that meet their hypotheses.
use mathlib.Core.List.{Permᴰ}
use uio_linux_sample.Prelude.{ℕ, ◌≡◌, refl, true, false, none, some, [], ◌∷◌, arith, All}
use uio_linux_sample.Prelude.Words.{pos}
use uio_linux_sample.Pgcache.Scan.{
  Inode, SuperBlock, scan_supers, spin_lock, spin_unlock, order_list_clear,
}
use uio_linux_sample.Pgcache.Print.{
  print_top_num, Sysctls, Kernel, scan_mode, scan_and_print, scan_caches_sysctl_handler,
}
use uio_linux_sample.Pgcache.Order.{Sorted}
use uio_linux_sample.Pgcache.Output.{
  found, top, answered, free_list, scan_caches_sysctl_handler-cases,
}
use uio_linux_sample.Pgcache.Bag.{Descending}
use uio_linux_sample.Pgcache.Bag.Pages.{pages, found_pages}
use uio_linux_sample.Pgcache.Bag.Found.{Allocates, found-pages}

abbrev inode : ℕ → ℕ → Inode
inode ino nrpages = record { ino = ino; busy = false; nrpages = nrpages; icount = 1 }

abbrev super : SuperBlock
super = record {
  device = some (b'a' ∷ []);
  inodes = inode 1 300 ∷ inode 2 0 ∷ inode 3 262144 ∷ inode 4 0 ∷ [];
  kzalloc = λ i. true;
}

abbrev sysctls : Sysctls
sysctls = record { top_n = 1; mode = 1; file_deleted_but_used = false }

abbrev kernel : Kernel
kernel = record { page_size = 4096; supers = super ∷ []; processes = [] }

handler_example :
    Sorted (found sysctls kernel 1)
    × (scan_caches_sysctl_handler sysctls kernel (pos 0) true (free_list [])
        ≡ answered (top 4096 1 (found sysctls kernel 1)))
handler_example = scan_caches_sysctl_handler-cases sysctls kernel [] (omega arith)

kernel-Allocates : All Allocates kernel.supers
kernel-Allocates = (λ i. refl, tt)

found_pages_example :
    Descending (pages (found sysctls kernel 1))
    × Permᴰ (pages (found sysctls kernel 1)) (found_pages sysctls kernel 1)
found_pages_example = found-pages sysctls kernel 1 kernel-Allocates

-- With no superblock the list is empty.
handler_faults :
    scan_caches_sysctl_handler sysctls (record kernel { supers = [] }) (pos 0) true (free_list [])
    ≡ none
unfolding scan_caches_sysctl_handler scan_and_print order_list_clear scan_mode scan_supers
    print_top_num spin_lock spin_unlock
handler_faults = refl

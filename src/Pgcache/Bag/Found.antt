-- ===== src/Pgcache/Bag/Found.antt =====
-- What the scans list, whatever the order in which the kernel gives the files and the inodes.
use mathlib.Core.List.Permᴰ
use mathlib.Core.List.{Permᴰ}
use uio_linux_sample.Prelude.{
  ℕ, zero, suc, ◌+◌, ◌≤◌, ◌≡◌, refl, inl, inr, Bool, true, false, Option, none, some, List, [], ◌∷◌,
  ◌++◌, subst, All, Bool-cases,
}
use uio_linux_sample.Pgcache.Scan.{
  Node, order_list_add, Inode, inode_node, zero_node, skips, scan_inodes, SuperBlock,
}
use uio_linux_sample.Pgcache.Print.{Sysctls, Kernel}
use uio_linux_sample.Pgcache.Order.{Sorted, found_supers}
use uio_linux_sample.Pgcache.Output.{found, found-Sorted}
use uio_linux_sample.Pgcache.Bag.Pages.{
  pages, device_pages, inode_pages, super_pages, process_pages, found_pages, order_list_add-Permᴰ,
  added, added_block, found_processes-Permᴰ,
}
use uio_linux_sample.Pgcache.Bag.{Descending}

-- The node that the loop over the inodes holds: none, or one that is not used yet.
fresh : Bool → Option Node
fresh false = none
fresh true = some zero_node

-- Every allocation that is made for the superblock succeeds.
abbrev pub Allocates : SuperBlock → Type 0
Allocates sb = (i : ℕ) → sb.kzalloc i ≡ true

device-pages :
    (device : Option (List ℕ)) (i : Inode)
    → (inode_node device i zero_node).pagecount ≡ device_pages device i
device-pages none i = refl
device-pages (some name) i = refl

inode-Permᴰ :
    (device : Option (List ℕ)) (i : Inode) (list : List Node)
    → Permᴰ
        (pages (order_list_add (inode_node device i zero_node) list))
        (device_pages device i ∷ pages list)
inode-Permᴰ device i list =
    subst
      (λ n. Permᴰ (pages (order_list_add (inode_node device i zero_node) list)) (n ∷ pages list))
      (device-pages device i) (order_list_add-Permᴰ (inode_node device i zero_node) list)

scan_inodes-Permᴰ :
    (device : Option (List ℕ)) (kzalloc : ℕ → Bool) (i : ℕ) (inodes : List Inode) (b : Bool)
    (list : List Node)
    → ((j : ℕ) → kzalloc j ≡ true)
    → Permᴰ
        (pages (scan_inodes device kzalloc i inodes (fresh b) list).0)
        (inode_pages device inodes ++ pages list)
unfolding scan_inodes fresh
scan_inodes-Permᴰ device kzalloc i [] b list h = Permᴰ.refl (pages list)
scan_inodes-Permᴰ device kzalloc i (inode ∷ inodes) true list h = elim (Bool-cases (skips inode)) [
  | inl e ↦ rw e (scan_inodes-Permᴰ device kzalloc (i + 1) inodes true list h)
  | inr e ↦ rw e (
      added true (device_pages device inode) (inode_pages device inodes) (pages list) _ _
        (scan_inodes-Permᴰ device kzalloc (i + 1) inodes false
          (order_list_add (inode_node device inode zero_node) list) h)
        (inode-Permᴰ device inode list))
]
scan_inodes-Permᴰ device kzalloc i (inode ∷ inodes) false list h = elim (Bool-cases (skips inode)) [
  | inl e ↦ rw (h i, e) (scan_inodes-Permᴰ device kzalloc (i + 1) inodes true list h)
  | inr e ↦
      rw (h i, e)
        (added true (device_pages device inode) (inode_pages device inodes) (pages list) _ _
          (scan_inodes-Permᴰ device kzalloc (i + 1) inodes false
            (order_list_add (inode_node device inode zero_node) list) h)
          (inode-Permᴰ device inode list))
]

found_supers-Permᴰ :
    (sbs : List SuperBlock) (list : List Node)
    → All Allocates sbs
    → Permᴰ (pages (found_supers sbs list)) (super_pages sbs ++ pages list)
unfolding fresh
found_supers-Permᴰ [] list h = Permᴰ.refl (pages list)
found_supers-Permᴰ (sb ∷ sbs) list h =
    added_block (inode_pages sb.device sb.inodes) (super_pages sbs) (pages list) _ _
      (found_supers-Permᴰ sbs (scan_inodes sb.device sb.kzalloc 0 sb.inodes none list).0 h.1)
      (scan_inodes-Permᴰ sb.device sb.kzalloc 0 sb.inodes false list h.0)

all_supers-Permᴰ :
    (sbs : List SuperBlock)
    → All Allocates sbs
    → Permᴰ (pages (found_supers sbs [])) (super_pages sbs)
all_supers-Permᴰ sbs h =
    Permᴰ.trans (found_supers-Permᴰ sbs [] h) (Permᴰ.append-nil (super_pages sbs))

found-Permᴰ :
    (c : Sysctls) (e : Kernel) (mode : ℕ)
    → All Allocates e.supers
    → Permᴰ (pages (found c e mode)) (found_pages c e mode)
found-Permᴰ c e zero h =
    Permᴰ.trans (found_processes-Permᴰ c.file_deleted_but_used e.processes [])
      (Permᴰ.append-nil (process_pages c.file_deleted_but_used e.processes))
found-Permᴰ c e (suc zero) h = all_supers-Permᴰ e.supers h
found-Permᴰ c e (suc (suc n)) h =
    Permᴰ.trans
      (found_processes-Permᴰ c.file_deleted_but_used e.processes (found_supers e.supers []))
      (Permᴰ.append_left (process_pages c.file_deleted_but_used e.processes)
        (all_supers-Permᴰ e.supers h))

pages-AtMost :
    (n : ℕ) (nodes : List Node)
    → All (λ node. node.pagecount ≤ n) nodes
    → All (λ k. k ≤ n) (pages nodes)
pages-AtMost n [] h = tt
pages-AtMost n (node ∷ nodes) h = (h.0, pages-AtMost n nodes h.1)

pages-Descending : (nodes : List Node) → Sorted nodes → Descending (pages nodes)
pages-Descending [] h = tt
pages-Descending (node ∷ nodes) h =
    (pages-AtMost node.pagecount nodes h.0, pages-Descending nodes h.1)

-- If every allocation succeeds that the scans of the superblocks make, the list that a write of the sysctl
-- makes, in whichever mode, has one node for each file of a scanned process that is looked for and could
-- be allocated, and for each inode of a superblock that is not in transition and has pages, with its
-- number of pages (0 where the superblock has no device), and no others; from the largest to the smallest.
pub found-pages :
    (c : Sysctls) (e : Kernel) (mode : ℕ)
    → All Allocates e.supers
    → Descending (pages (found c e mode)) × Permᴰ (pages (found c e mode)) (found_pages c e mode)
found-pages c e mode h =
    (pages-Descending (found c e mode) (found-Sorted c e mode), found-Permᴰ c e mode h)

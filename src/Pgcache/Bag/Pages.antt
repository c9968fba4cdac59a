-- ===== src/Pgcache/Bag/Pages.antt =====
-- The numbers of pages that the scans look for, and what the scan of the processes lists.
use mathlib.Core.List.Permᴰ
use mathlib.Core.List.{Permᴰ, append_assoc}
use uio_linux_sample.Prelude.{
  ℕ, zero, suc, refl, inl, inr, Bool, true, false, not, ◌&&◌, Option, none, some, List, [], ◌∷◌,
  ◌++◌, map, ltb, ◌==◌, Bool-cases, if◌then◌else◌,
}
use uio_linux_sample.Pgcache.Scan.{
  Node, order_list_add, Inode, skips, SuperBlock, Task, File, file_node, scan_file_inode,
  scan_files,
}
use uio_linux_sample.Pgcache.Print.{Sysctls, Kernel}
use uio_linux_sample.Pgcache.Order.{found_task, found_processes}

abbrev pub pagecount : Node → ℕ
pagecount node = node.pagecount

abbrev pub pages : List Node → List ℕ
pages nodes = map pagecount nodes

abbrev pub prepend_if : Bool → ℕ → List ℕ → List ℕ
prepend_if true n xs = n ∷ xs
prepend_if false n xs = xs

-- The pages of the files of a process: those that have pages in the cache, that are deleted and
-- still used if only such are asked for, and for which a node could be allocated.
abbrev pub is_found : Bool → File → Bool
is_found deleted f =
    not (f.nrpages == 0)
    && (not (deleted && not (f.i_nlink == 0 && not (f.icount == 0))) && f.kzalloc)

abbrev pub file_pages : Bool → List File → List ℕ
file_pages deleted [] = []
file_pages deleted (f ∷ fs) = prepend_if (is_found deleted f) f.nrpages (file_pages deleted fs)

abbrev pub task_pages : Bool → Option (ℕ → List File) → List ℕ
task_pages deleted none = []
task_pages deleted (some fs) = file_pages deleted (fs 1)

abbrev pub process_pages : Bool → List Task → List ℕ
process_pages deleted [] = []
process_pages deleted (t ∷ ts) =
    (if t.init_or_current then [] else task_pages deleted t.files) ++ process_pages deleted ts

-- The pages of the inodes of a superblock that are not in transition and have pages; a superblock
-- without a device gives none of its numbers.
abbrev pub device_pages : Option (List ℕ) → Inode → ℕ
device_pages none i = 0
device_pages (some name) i = i.nrpages

abbrev pub inode_pages : Option (List ℕ) → List Inode → List ℕ
inode_pages device [] = []
inode_pages device (i ∷ is) =
    prepend_if (not (skips i)) (device_pages device i) (inode_pages device is)

abbrev pub super_pages : List SuperBlock → List ℕ
super_pages [] = []
super_pages (sb ∷ sbs) = inode_pages sb.device sb.inodes ++ super_pages sbs

abbrev pub found_pages : Sysctls → Kernel → ℕ → List ℕ
found_pages c e zero = process_pages c.file_deleted_but_used e.processes
found_pages c e (suc zero) = super_pages e.supers
found_pages c e (suc (suc n)) =
    process_pages c.file_deleted_but_used e.processes ++ super_pages e.supers

pub order_list_add-Permᴰ :
    (new : Node) (xs : List Node) → Permᴰ (pages (order_list_add new xs)) (new.pagecount ∷ pages xs)
unfolding order_list_add
order_list_add-Permᴰ new [] = Permᴰ.refl (new.pagecount ∷ [])
order_list_add-Permᴰ new (x ∷ xs) = elim (Bool-cases (ltb x.pagecount new.pagecount)) [
  | inl e ↦ rw e (Permᴰ.refl (new.pagecount ∷ x.pagecount ∷ pages xs))
  | inr e ↦
      rw e (Permᴰ.trans (Permᴰ.cons refl (order_list_add-Permᴰ new xs)) (Permᴰ.swap refl refl))
]

prepend_if-append :
    (b : Bool) (n : ℕ) (xs ys : List ℕ) → Permᴰ (xs ++ prepend_if b n ys) (prepend_if b n xs ++ ys)
prepend_if-append true n xs ys = Permᴰ.middle n xs ys
prepend_if-append false n xs ys = Permᴰ.refl (xs ++ ys)

-- Numbers that were added first stand behind.
pub added :
    (b : Bool) (n : ℕ) (xs ys zs us : List ℕ)
    → Permᴰ us (xs ++ zs)
    → Permᴰ zs (prepend_if b n ys)
    → Permᴰ us (prepend_if b n xs ++ ys)
added b n xs ys zs us h k =
    Permᴰ.trans h (Permᴰ.trans (Permᴰ.append_left xs k) (prepend_if-append b n xs ys))

scan_file_inode-Permᴰ :
    (deleted : Bool) (t : Task) (f : File) (list : List Node)
    → Permᴰ
        (pages (scan_file_inode deleted t f list))
        (prepend_if (is_found deleted f) f.nrpages (pages list))
unfolding scan_file_inode
scan_file_inode-Permᴰ deleted t f list = elim (Bool-cases (f.nrpages == 0)) [
  | inl a ↦ rw a (Permᴰ.refl (pages list))
  | inr a ↦ elim (Bool-cases (deleted && not (f.i_nlink == 0 && not (f.icount == 0)))) [
    | inl b ↦ rw (a, b) (Permᴰ.refl (pages list))
    | inr b ↦ elim (Bool-cases f.kzalloc) [
      | inl c ↦ simp (a, b, c) (order_list_add-Permᴰ (file_node t f) list)
      | inr c ↦ simp (a, b, c) (Permᴰ.refl (pages list))
    ]
  ]
]

scan_files-Permᴰ :
    (deleted : Bool) (t : Task) (fs : List File) (list : List Node)
    → Permᴰ (pages (scan_files deleted t fs list)) (file_pages deleted fs ++ pages list)
unfolding scan_files
scan_files-Permᴰ deleted t [] list = Permᴰ.refl (pages list)
scan_files-Permᴰ deleted t (f ∷ fs) list =
    added (is_found deleted f) f.nrpages (file_pages deleted fs) (pages list) _ _
      (scan_files-Permᴰ deleted t fs (scan_file_inode deleted t f list))
      (scan_file_inode-Permᴰ deleted t f list)

found_task-Permᴰ :
    (deleted skip : Bool) (t : Task) (files : Option (ℕ → List File)) (list : List Node)
    → Permᴰ
        (pages (if skip then list else found_task deleted t files list))
        ((if skip then [] else task_pages deleted files) ++ pages list)
found_task-Permᴰ deleted true t files list = Permᴰ.refl (pages list)
found_task-Permᴰ deleted false t none list = Permᴰ.refl (pages list)
found_task-Permᴰ deleted false t (some fs) list = scan_files-Permᴰ deleted t (fs 1) list

-- Blocks of numbers that were added first stand behind.
pub added_block :
    (ws xs ys zs us : List ℕ)
    → Permᴰ us (xs ++ zs)
    → Permᴰ zs (ws ++ ys)
    → Permᴰ us ((ws ++ xs) ++ ys)
added_block ws xs ys zs us h k = Permᴰ.trans h (
    Permᴰ.trans (Permᴰ.append_left xs k)
      (rw⁻¹ (append_assoc xs ws ys) (Permᴰ.append_right ys (Permᴰ.append_comm xs ws))))

pub found_processes-Permᴰ :
    (deleted : Bool) (ts : List Task) (list : List Node)
    → Permᴰ (pages (found_processes deleted ts list)) (process_pages deleted ts ++ pages list)
found_processes-Permᴰ deleted [] list = Permᴰ.refl (pages list)
found_processes-Permᴰ deleted (t ∷ ts) list =
    added_block (if t.init_or_current then [] else task_pages deleted t.files)
      (process_pages deleted ts) (pages list) _ _
      (found_processes-Permᴰ deleted ts
        (if t.init_or_current then list else found_task deleted t t.files list))
      (found_task-Permᴰ deleted t.init_or_current t t.files list)

-- ===== src/Pgcache/Scan.antt =====
-- The functions of cache_scan.c. What the kernel gives (the inodes of a superblock, the processes
-- with their open files, the answers of kzalloc) comes as data.
use uio_linux_sample.Prelude.{
  and_then, ℕ, ◌+◌, Bool, true, false, not, ◌&&◌, ◌||◌, Option, none, some, List, [], ◌∷◌, ltb,
  ◌==◌, if◌then◌else◌,
}

-- `pgcount_node_t`, as it is stored in the list.
pub record Node : Type 0 where
  pub ino : ℕ
  pub pagecount : ℕ
  pub icount : ℕ
  pub pid : ℕ
  pub size : ℕ
  pub devname : List ℕ
  pub comm : List ℕ
  pub abspath : List ℕ

unfoldable pub order_list_add : Node → List Node → List Node
order_list_add new [] = new ∷ []
order_list_add new (node ∷ nodes) =
    let rest = order_list_add new nodes in
    if ltb node.pagecount new.pagecount then new ∷ node ∷ nodes else node ∷ rest

-- The list with its lock: whether ordered_list_lock is held.
pub record Ordered : Type 0 where
  pub list : List Node
  pub locked : Bool

-- `none` is a lock that is taken twice, or released while nobody holds it.
unfoldable pub spin_lock : Ordered → Option Ordered
spin_lock o = if o.locked then none else some (record o { locked = true })

unfoldable pub spin_unlock : Ordered → Option Ordered
spin_unlock o = if o.locked then some (record o { locked = false }) else none

unfoldable pub order_list_clear : Ordered → Option Ordered
order_list_clear o = elim (spin_lock o) [
  | none ↦ none
  | some p ↦ spin_unlock (record p { list = [] })
]

-- `busy` is i_state & (I_FREEING | I_WILL_FREE | I_NEW).
pub record Inode : Type 0 where
  pub ino : ℕ
  pub busy : Bool
  pub nrpages : ℕ
  pub icount : ℕ

-- The bytes "(null)"
abbrev pub null_name : List ℕ
null_name = b'(' ∷ b'n' ∷ b'u' ∷ b'l' ∷ b'l' ∷ b')' ∷ []

abbrev pub zero_node : Node
zero_node = record {
  ino = 0;
  pagecount = 0;
  icount = 0;
  pid = 0;
  size = 0;
  devname = [];
  comm = [];
  abspath = [];
}

-- The stores into the node; `device` is the name of the disk and the partition, if there is one.
abbrev pub inode_node : Option (List ℕ) → Inode → Node → Node
inode_node none i pgc = record pgc { devname = null_name }
inode_node (some name) i pgc = record pgc {
  ino = i.ino;
  devname = name;
  pagecount = i.nrpages;
  icount = i.icount;
}

abbrev pub skips : Inode → Bool
skips i = i.busy || i.nrpages == 0

-- The loop over the inodes: `kzalloc` says of each inode whether an allocation made for it
-- succeeds, and `pgc` is the node that is allocated and not used yet, if there is one. The result
-- has the node that is left when the loop ends.
unfoldable pub scan_inodes :
    Option (List ℕ)
    → (ℕ → Bool)
    → ℕ
    → List Inode
    → Option Node
    → List Node
    → List Node × Option Node
scan_inodes device kzalloc i [] pgc list = (list, pgc)
scan_inodes device kzalloc i (inode ∷ inodes) (some pgc) list =
    if skips inode
    then scan_inodes device kzalloc (i + 1) inodes (some pgc) list
    else scan_inodes device kzalloc (i + 1) inodes none
        (order_list_add (inode_node device inode pgc) list)
scan_inodes device kzalloc i (inode ∷ inodes) none list =
    if not (kzalloc i)
    then (list, none)
    else if skips inode
    then scan_inodes device kzalloc (i + 1) inodes (some zero_node) list
    else scan_inodes device kzalloc (i + 1) inodes none
        (order_list_add (inode_node device inode zero_node) list)

pub record SuperBlock : Type 0 where
  pub device : Option (List ℕ)
  pub inodes : List Inode
  pub kzalloc : ℕ → Bool

unfoldable pub scan_inodes_pagecache_one_sb : SuperBlock → Ordered → Option Ordered
scan_inodes_pagecache_one_sb sb o = elim (spin_lock o) [
  | none ↦ none
  | some p ↦
      spin_unlock (record p { list = (scan_inodes sb.device sb.kzalloc 0 sb.inodes none p.list).0 })
]

-- iterate_supers
unfoldable pub scan_supers : List SuperBlock → Ordered → Option Ordered
scan_supers [] o = some o
scan_supers (sb ∷ sbs) o = elim (scan_inodes_pagecache_one_sb sb o) [
  | none ↦ none
  | some p ↦ scan_supers sbs p
]

-- An open file: the fields of its inode, and whether its kzalloc succeeds. `device` is the name
-- that is stored.
pub record File : Type 0 where
  pub ino : ℕ
  pub nrpages : ℕ
  pub i_nlink : ℕ
  pub icount : ℕ
  pub i_size : ℕ
  pub device : List ℕ
  pub d_path : List ℕ
  pub kzalloc : Bool

-- `files` gives the files that are open from a descriptor on, as iterate_fd does.
pub record Task : Type 0 where
  pub pid : ℕ
  pub comm : List ℕ
  pub init_or_current : Bool
  pub files : Option (ℕ → List File)

abbrev pub file_node : Task → File → Node
file_node t f = record {
  ino = f.ino;
  pagecount = f.nrpages;
  icount = f.icount;
  pid = t.pid;
  size = f.i_size;
  devname = f.device;
  comm = t.comm;
  abspath = f.d_path;
}

-- `deleted` is sysctl_pgcache_scan_file_deleted_but_used.
unfoldable pub scan_file_inode : Bool → Task → File → List Node → List Node
scan_file_inode deleted t f list =
    if f.nrpages == 0
    then list
    else if deleted && not (f.i_nlink == 0 && not (f.icount == 0))
    then list
    else if not f.kzalloc
    then list
    else order_list_add (file_node t f) list

-- The calls of iterate_fd
unfoldable pub scan_files : Bool → Task → List File → List Node → List Node
scan_files deleted t [] list = list
scan_files deleted t (f ∷ fs) list = scan_files deleted t fs (scan_file_inode deleted t f list)

abbrev pub scan_task : Bool → Task → Option (ℕ → List File) → Ordered → Option Ordered
scan_task deleted t none o = some o
scan_task deleted t (some fs) o = elim (spin_lock o) [
  | none ↦ none
  | some p ↦ spin_unlock (record p { list = scan_files deleted t (fs 1) p.list })
]

unfoldable pub scan_process_inodes_pagecache : Bool → List Task → Ordered → Option Ordered
scan_process_inodes_pagecache deleted [] o = some o
scan_process_inodes_pagecache deleted (t ∷ ts) o =
    and_then (if t.init_or_current then some o else scan_task deleted t t.files o)
      (scan_process_inodes_pagecache deleted ts)

-- ===== src/Pgcache/Order.antt =====
-- The order of the list, by the number of pages, the largest first.
use uio_linux_sample.Prelude.{
  ℕ, ◌+◌, ◌≤◌, ◌<◌, ◌≡◌, refl, sym, ap, subst, inl, inr, Bool, true, false, not, Option, none, some,
  List, [], ◌∷◌, ◌++◌, arith, All, ltb, ◌==◌, ◌&&◌, Bool-cases, if◌then◌else◌,
}
use uio_linux_sample.Pgcache.Scan.{
  Node, order_list_add, inode_node, zero_node, skips, Inode, scan_inodes, SuperBlock, Task, File,
  file_node, scan_file_inode, scan_files,
}

abbrev AtMost : ℕ → Node → Type 0
AtMost n node = node.pagecount ≤ n

abbrev AtLeast : ℕ → Node → Type 0
AtLeast n node = n ≤ node.pagecount

abbrev Below : ℕ → Node → Type 0
Below n node = node.pagecount < n

abbrev pub Sorted : List Node → Type 0
Sorted [] = Unit
Sorted (node ∷ nodes) = All (AtMost node.pagecount) nodes × Sorted nodes

-- `new` stands between the nodes with as many pages or more and those with fewer.
pub record Inserted (new : Node) (xs ys : List Node) : Type 0 where
  pub before : List Node
  pub after : List Node
  pub were : xs ≡ before ++ after
  pub are : ys ≡ before ++ new ∷ after
  pub larger : All (AtLeast new.pagecount) before
  pub smaller : All (Below new.pagecount) after
  pub sorted : Sorted ys

All-Below : (n b : ℕ) (xs : List Node) → b < n → All (AtMost b) xs → All (Below n) xs
All-Below n b [] h k = tt
All-Below n b (x ∷ xs) h k = (omega (arith, k.0), All-Below n b xs h k.1)

All-AtMost : (n b : ℕ) (xs : List Node) → b < n → All (AtMost b) xs → All (AtMost n) xs
All-AtMost n b [] h k = tt
All-AtMost n b (x ∷ xs) h k = (omega (arith, k.0), All-AtMost n b xs h k.1)

AtMost-insert :
    (n : ℕ) (new : Node) (before after : List Node)
    → new.pagecount ≤ n
    → All (AtMost n) (before ++ after)
    → All (AtMost n) (before ++ new ∷ after)
AtMost-insert n new [] after h k = (h, k)
AtMost-insert n new (x ∷ xs) after h k = (k.0, AtMost-insert n new xs after h k.1)

-- Adding a node to an ordered list puts it behind all nodes with as many pages or more and before
-- all others, which stay in their order; the list stays ordered.
pub order_list_add-Inserted :
    (new : Node) (xs : List Node) → Sorted xs → Inserted new xs (order_list_add new xs)
unfolding order_list_add
order_list_add-Inserted new [] h = record {
  before = [];
  after = [];
  were = refl;
  are = refl;
  larger = tt;
  smaller = tt;
  sorted = (tt, tt);
}
order_list_add-Inserted new (x ∷ xs) h = elim (Bool-cases (ltb x.pagecount new.pagecount)) [
  | inl e ↦
      let lt : x.pagecount < new.pagecount = ground (arith, e) in
      rw e (record {
        before = [];
        after = x ∷ xs;
        were = refl;
        are = refl;
        larger = tt;
        smaller = (lt, All-Below new.pagecount x.pagecount xs lt h.0);
        sorted = ((omega arith, All-AtMost new.pagecount x.pagecount xs lt h.0), h);
      })
  | inr e ↦
      let le : new.pagecount ≤ x.pagecount = ground (arith, e) in
      let r = order_list_add-Inserted new xs h.1 in
      rw e (record {
        before = x ∷ r.before;
        after = r.after;
        were = ap (◌∷◌ x) r.were;
        are = ap (◌∷◌ x) r.are;
        larger = (le, r.larger);
        smaller = r.smaller;
        sorted = (
          subst (All (AtMost x.pagecount)) (sym r.are) (
              AtMost-insert x.pagecount new r.before r.after le
                (subst (All (AtMost x.pagecount)) r.were h.0)),
          r.sorted,
        );
      })
]

-- What the scans make of the list.
abbrev pub found_supers : List SuperBlock → List Node → List Node
found_supers [] list = list
found_supers (sb ∷ sbs) list =
    found_supers sbs (scan_inodes sb.device sb.kzalloc 0 sb.inodes none list).0

abbrev pub found_task : Bool → Task → Option (ℕ → List File) → List Node → List Node
found_task deleted t none list = list
found_task deleted t (some fs) list = scan_files deleted t (fs 1) list

abbrev pub found_processes : Bool → List Task → List Node → List Node
found_processes deleted [] list = list
found_processes deleted (t ∷ ts) list =
    found_processes deleted ts
      (if t.init_or_current then list else found_task deleted t t.files list)

scan_inodes-Sorted :
    (device : Option (List ℕ)) (kzalloc : ℕ → Bool) (i : ℕ) (inodes : List Inode)
    (pgc : Option Node) (list : List Node)
    → Sorted list
    → Sorted (scan_inodes device kzalloc i inodes pgc list).0
unfolding scan_inodes
scan_inodes-Sorted device kzalloc i [] pgc list h = h
scan_inodes-Sorted device kzalloc i (inode ∷ inodes) (some pgc) list h =
    elim (Bool-cases (skips inode)) [
      | inl e ↦ rw e (scan_inodes-Sorted device kzalloc (i + 1) inodes (some pgc) list h)
      | inr e ↦
          let new = inode_node device inode pgc in
          rw e (
            scan_inodes-Sorted device kzalloc (i + 1) inodes none (order_list_add new list)
              (order_list_add-Inserted new list h).sorted)
    ]
scan_inodes-Sorted device kzalloc i (inode ∷ inodes) none list h = elim (Bool-cases (kzalloc i)) [
  | inl a ↦ elim (Bool-cases (skips inode)) [
    | inl e ↦ rw (a, e) (scan_inodes-Sorted device kzalloc (i + 1) inodes (some zero_node) list h)
    | inr e ↦
        let new = inode_node device inode zero_node in
        rw (a, e)
          (scan_inodes-Sorted device kzalloc (i + 1) inodes none (order_list_add new list)
            (order_list_add-Inserted new list h).sorted)
  ]
  | inr a ↦ rw a h
]

scan_file_inode-Sorted :
    (deleted : Bool) (t : Task) (f : File) (list : List Node)
    → Sorted list
    → Sorted (scan_file_inode deleted t f list)
unfolding scan_file_inode
scan_file_inode-Sorted deleted t f list h = elim (Bool-cases (f.nrpages == 0)) [
  | inl a ↦ rw a h
  | inr a ↦ elim (Bool-cases (deleted && not (f.i_nlink == 0 && not (f.icount == 0)))) [
    | inl b ↦ rw (a, b) h
    | inr b ↦ elim (Bool-cases f.kzalloc) [
      | inl c ↦ simp (a, b, c) (order_list_add-Inserted (file_node t f) list h).sorted
      | inr c ↦ simp (a, b, c) h
    ]
  ]
]

scan_files-Sorted :
    (deleted : Bool) (t : Task) (fs : List File) (list : List Node)
    → Sorted list
    → Sorted (scan_files deleted t fs list)
unfolding scan_files
scan_files-Sorted deleted t [] list h = h
scan_files-Sorted deleted t (f ∷ fs) list h =
    scan_files-Sorted deleted t fs (scan_file_inode deleted t f list)
      (scan_file_inode-Sorted deleted t f list h)

pub found_supers-Sorted :
    (sbs : List SuperBlock) (list : List Node) → Sorted list → Sorted (found_supers sbs list)
found_supers-Sorted [] list h = h
found_supers-Sorted (sb ∷ sbs) list h =
    found_supers-Sorted sbs (scan_inodes sb.device sb.kzalloc 0 sb.inodes none list).0
      (scan_inodes-Sorted sb.device sb.kzalloc 0 sb.inodes none list h)

found_task-Sorted :
    (deleted skip : Bool) (t : Task) (files : Option (ℕ → List File)) (list : List Node)
    → Sorted list
    → Sorted (if skip then list else found_task deleted t files list)
found_task-Sorted deleted true t files list h = h
found_task-Sorted deleted false t none list h = h
found_task-Sorted deleted false t (some fs) list h = scan_files-Sorted deleted t (fs 1) list h

pub found_processes-Sorted :
    (deleted : Bool) (ts : List Task) (list : List Node)
    → Sorted list
    → Sorted (found_processes deleted ts list)
found_processes-Sorted deleted [] list h = h
found_processes-Sorted deleted (t ∷ ts) list h =
    found_processes-Sorted deleted ts
      (if t.init_or_current then list else found_task deleted t t.files list)
      (found_task-Sorted deleted t.init_or_current t t.files list h)

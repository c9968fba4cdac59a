-- ===== src/Pgcache/Leak.antt =====
-- The node that a scan of a superblock leaves behind.
use uio_linux_sample.Prelude.{
  ℕ, ◌+◌, ◌≡◌, refl, Bool, true, Option, none, some, List, [], ◌∷◌, ◌++◌, Bool-cases, inl, inr,
}
use uio_linux_sample.Pgcache.Scan.{
  Node, Inode, order_list_add, inode_node, zero_node, skips, scan_inodes,
}

-- If every allocation succeeds and the last inode of the superblock is skipped, then, whatever the
-- inodes before it, a node that was allocated is neither in the list nor freed when the loop ends.
pub scan_inodes-leaks :
    (device : Option (List ℕ)) (kzalloc : ℕ → Bool) (i : ℕ) (inodes : List Inode) (last : Inode)
    (pgc : Option Node) (list : List Node)
    → ((j : ℕ) → kzalloc j ≡ true)
    → skips last ≡ true
    → (left : Node) × ((scan_inodes device kzalloc i (inodes ++ last ∷ []) pgc list).1 ≡ some left)
unfolding scan_inodes
scan_inodes-leaks device kzalloc i [] last none list a h = rw (a i, h) (zero_node, refl)
scan_inodes-leaks device kzalloc i [] last (some pgc) list a h = rw h (pgc, refl)
scan_inodes-leaks device kzalloc i (x ∷ xs) last none list a h = elim (Bool-cases (skips x)) [
  | inl e ↦ rw (a i, e) (scan_inodes-leaks device kzalloc (i + 1) xs last (some zero_node) list a h)
  | inr e ↦
      rw (a i, e)
        (scan_inodes-leaks device kzalloc (i + 1) xs last none
          (order_list_add (inode_node device x zero_node) list) a h)
]
scan_inodes-leaks device kzalloc i (x ∷ xs) last (some pgc) list a h = elim (Bool-cases (skips x)) [
  | inl e ↦ rw e (scan_inodes-leaks device kzalloc (i + 1) xs last (some pgc) list a h)
  | inr e ↦ rw e (
      scan_inodes-leaks device kzalloc (i + 1) xs last none
        (order_list_add (inode_node device x pgc) list) a h)
]

-- ===== src/Pgcache/Load.antt =====
-- The load of pgcache_scan: kernel.c, and the table of sysctl.c. The kernel's functions that are not
-- exported are looked up through kallsyms_lookup_name, whose address is a parameter of the module.
use uio_linux_sample.Prelude.{
  ℕ, ◌/◌, ◌^◌, ◌≡◌, arith, Bool, false, not, ◌||◌, ◌&&◌, ◌==◌, if◌then◌else◌, Option, some,
  and_then, [], refl,
}
use uio_linux_sample.Prelude.Words.{ℤ, pos, negsuc, eqb_ℤ}
use uio_linux_sample.Pgcache.Scan.{Ordered, spin_lock, spin_unlock, order_list_clear}

pub data Symbol : Type 0 where
  super_blocks sb_lock inode_sb_list_lock iterate_supers : Symbol

-- What is found of the symbols, 0 for what is not, and whether the table is registered.
pub record Loaded : Type 0 where
  pub _super_blocks : ℕ
  pub _sb_lock : ℕ
  pub inode_sb_list_lock : ℕ
  pub iterate_supers_function : ℕ
  pub registered : Bool

abbrev pub nothing : Loaded
nothing = record {
  _super_blocks = 0;
  _sb_lock = 0;
  inode_sb_list_lock = 0;
  iterate_supers_function = 0;
  registered = false;
}

-- An address in the upper 4 GiB, where the kernel's text is.
unfoldable pub get_kallsyms_lookup_name_function : ℕ → ℤ
get_kallsyms_lookup_name_function addr =
    if not (addr / 2 ^ 32 == 4294967295) || addr == 0 then negsuc 0 else pos 0

-- Each answer is stored, also one of 0, and the first 0 ends the function.
unfoldable pub get_kernel_not_export_function_and_data : (Symbol → ℕ) → Loaded → ℤ × Loaded
get_kernel_not_export_function_and_data lookup s =
    let a = record s { _super_blocks = lookup super_blocks } in
    let b = record a { _sb_lock = lookup sb_lock } in
    let c = record b { inode_sb_list_lock = lookup inode_sb_list_lock } in
    let d = record c { iterate_supers_function = lookup iterate_supers } in
    if lookup super_blocks == 0
    then (negsuc 0, a)
    else if lookup sb_lock == 0
    then (negsuc 0, b)
    else if lookup inode_sb_list_lock == 0
    then (negsuc 0, c)
    else if lookup iterate_supers == 0
    then (negsuc 0, d)
    else (pos 0, d)

-- `header` is whether register_sysctl_paths gives a table.
abbrev pub pgcache_scan_sysctl_register : Bool → Loaded → Loaded
pgcache_scan_sysctl_register header s = record s { registered = header }

abbrev pub pgcache_scan_sysctl_unregister : Loaded → Loaded
pgcache_scan_sysctl_unregister s = record s { registered = false }

abbrev pub after_lookup : Bool → ℤ × Loaded → ℤ × Loaded
after_lookup header (ret, s) =
    if eqb_ℤ ret (pos 0) then (pos 0, pgcache_scan_sysctl_register header s) else (negsuc 0, s)

unfoldable pub init : ℕ → (Symbol → ℕ) → Bool → ℤ × Loaded
init addr lookup header =
    if eqb_ℤ (get_kallsyms_lookup_name_function addr) (pos 0)
    then after_lookup header (get_kernel_not_export_function_and_data lookup nothing)
    else (negsuc 0, nothing)

-- `none` is a lock that is taken twice.
unfoldable pub fini : Loaded → Ordered → Option (Loaded × Ordered)
fini s o = and_then (order_list_clear o) (λ p. some (pgcache_scan_sysctl_unregister s, p))

-- Whether all that the module looks up is there.
abbrev pub is_found : (Symbol → ℕ) → Bool
is_found lookup =
    not (lookup super_blocks == 0)
    && (not (lookup sb_lock == 0)
        && (not (lookup inode_sb_list_lock == 0) && not (lookup iterate_supers == 0)))

abbrev pub accepts : ℕ → (Symbol → ℕ) → Bool
accepts addr lookup = addr / 2 ^ 32 == 4294967295 && is_found lookup

-- A load succeeds exactly if the address is in the upper 4 GiB of a word of 64 bits and all symbols
-- are found, and otherwise returns -1 and registers nothing; it succeeds also if the table was not
-- registered.
pub init-cases :
    (addr : ℕ) (lookup : Symbol → ℕ) (header : Bool)
    → ((init addr lookup header).0 ≡ (if accepts addr lookup then pos 0 else negsuc 0))
      × ((init addr lookup header).1.registered ≡ (accepts addr lookup && header))
unfolding init get_kallsyms_lookup_name_function get_kernel_not_export_function_and_data
init-cases addr lookup header = ground arith

-- With the lock free, an unload empties the list, leaves the lock free and the table unregistered.
pub fini-clears :
    (s : Loaded) (o : Ordered)
    → o.locked ≡ false
    → fini s o ≡ some (record s { registered = false }, record { list = []; locked = false })
unfolding fini order_list_clear spin_lock spin_unlock
fini-clears s o h = rw h refl

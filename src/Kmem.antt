-- ===== src/Kmem.antt =====
-- kmem/kmem.c: a thread that creates two slab caches with an object of each, and the unload that
-- frees them.
use uio_linux_sample.Prelude.{
  ◌≡◌, arith, Bool, false, not, Option, none, some, and_then, if◌then◌else◌,
}
use uio_linux_sample.Prelude.Words.{ℤ, pos, negsuc}

-- Whether each request is granted. The thread runs until it is told to stop or gets a signal.
pub record Answers : Type 0 where
  pub create : Bool
  pub create1 : Bool
  pub alloc : Bool
  pub alloc1 : Bool

-- A cache, and whether one object of it is allocated.
pub record Cache : Type 0 where
  pub object : Bool

pub record Held : Type 0 where
  pub test_kmem : Option Cache
  pub test_kmem1 : Option Cache

abbrev pub kmem_cache_create : Bool → Option Cache
kmem_cache_create granted = if granted then some (record { object = false }) else none

abbrev pub kmem_cache_alloc : Bool → Option Cache → Option Cache
kmem_cache_alloc granted none = none
kmem_cache_alloc granted (some c) = some (record { object = granted })

abbrev pub created : Answers → Held
created a = record {
  test_kmem = kmem_cache_create a.create;
  test_kmem1 = kmem_cache_create a.create1;
}

abbrev pub allocated : Answers → Held → Held
allocated a h = record {
  test_kmem = kmem_cache_alloc a.alloc h.test_kmem;
  test_kmem1 = kmem_cache_alloc a.alloc1 h.test_kmem1;
}

-- ENOMEM is 12. The answer for the second object is not looked at.
unfoldable pub thread_fn : Answers → ℤ × Held
thread_fn a =
    if not a.create
    then (negsuc 11, created a)
    else if not a.create1
    then (negsuc 11, created a)
    else if not a.alloc
    then (negsuc 11, allocated a (created a))
    else (pos 0, allocated a (created a))

abbrev pub kmem_cache_free : Cache → Cache
kmem_cache_free c = record c { object = false }

-- `none` is a cache that is destroyed while an object of it is allocated.
abbrev pub kmem_cache_destroy : Cache → Option (Option Cache)
kmem_cache_destroy c = if c.object then none else some none

abbrev pub cleanup_cache : Option Cache → Option (Option Cache)
cleanup_cache none = some none
cleanup_cache (some c) = kmem_cache_destroy (if c.object then kmem_cache_free c else c)

unfoldable pub cleanup_thread : Held → Option Held
cleanup_thread h = and_then (cleanup_cache h.test_kmem) (λ c.
    and_then (cleanup_cache h.test_kmem1) (λ d. some (record { test_kmem = c; test_kmem1 = d })))

-- Whatever the kernel grants to the thread, the unload after it frees both caches and their
-- objects, and destroys no cache with an object in it.
pub cleanup_thread-thread_fn :
    (a : Answers)
    → cleanup_thread (thread_fn a).1 ≡ some (record { test_kmem = none; test_kmem1 = none })
unfolding cleanup_thread thread_fn
cleanup_thread-thread_fn a = ground arith

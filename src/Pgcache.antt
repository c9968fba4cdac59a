-- ===== src/Pgcache.antt =====
-- kmem/pgcache_scan/cache_scan.c: lists the files with the most pages in the page cache. `Scan` has
-- the ordered list and the two scans, `Print` the output and the handler of the sysctl; `Order` and
-- `Leak` are about the scans, `Output` is about what is printed, and `Load` is the load of the module.
pub mod Scan
pub mod Print
pub mod Order
pub mod Bag
pub mod Output
pub mod Leak
pub mod Load
mod Tests

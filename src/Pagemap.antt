-- ===== src/Pagemap.antt =====
-- qemu_pci/v2p.c, mem/read_pagemap.c and qemu_pci/vtop.c: programs that look up the physical address
-- of a virtual one in /proc/<pid>/pagemap. `Read` has their functions.
pub mod Read
pub mod Entry
pub mod Equal
mod Tests

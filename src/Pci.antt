-- ===== src/Pci.antt =====
-- The scan of the PCI devices through /dev/mem: qemu_pci/show_pci.c.
pub mod Show
pub mod Scan
pub mod Walk
pub mod Address
mod Tests

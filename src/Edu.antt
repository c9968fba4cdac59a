-- ===== src/Edu.antt =====
-- The driver of QEMU's edu device: qemu_pci/edu_driver.c.
pub mod Fops
pub mod Probe
mod Tests

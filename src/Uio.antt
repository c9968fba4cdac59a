-- ===== src/Uio.antt =====
-- uio/: a kernel module that offers a piece of memory through the UIO framework (`Module`), and the
-- programs that wait for the interrupts of a UIO device (`Wait`; qemu_pci/tedu.c has the same loop).
pub mod Module
pub mod Wait
mod Tests

-- ===== src/Edu/Tests.antt =====
-- A device with one register, and a probe.
use uio_linux_sample.Prelude.{ℕ, ◌≡◌, refl, true, false, some, arith}
use uio_linux_sample.Prelude.Words.{pos, negsuc}
use uio_linux_sample.Edu.Fops.{read, write, llseek}
use uio_linux_sample.Edu.Fops.Laws.{write-read}
use uio_linux_sample.Edu.Probe.{Answers, pci_probe, pci_remove}
use uio_linux_sample.Edu.Probe.Laws.{granted, pci_remove-pci_probe}

abbrev ioread32 : ℕ → ℕ → ℕ × ℕ
ioread32 d off = (d, d)

abbrev iowrite32 : ℕ → ℕ → ℕ → ℕ
iowrite32 d off word = word

keeps : (d : ℕ) → (ioread32 (iowrite32 d 4 77) 4).0 ≡ 77
keeps d = refl

write_example :
    let written =
      write ioread32 iowrite32 (some 77) 4 (llseek 4 (record { device = 9; f_pos = 3 })).1 in
    (written.0 ≡ pos 4)
    × ((read ioread32 iowrite32 false 4 written.1).0 ≡ record { ret = pos 4; kbuf = some 77 })
write_example =
    write-read ioread32 iowrite32 77 4 4 (record { device = 9; f_pos = 3 }) (omega arith)
      (omega arith) keeps

-- In mode 1 the interrupt is refused.
abbrev irq_refused : Answers
irq_refused = record {
  register_chrdev = pos 240;
  pci_enable_device = pos 0;
  pci_request_region = pos 0;
  pci_alloc_irq_vectors = pos 1;
  request_irq = negsuc 15;
  is_mem = true;
}

remove_example :
    (pci_probe (pos 1) irq_refused ≡ (pos 1, granted (pos 1) irq_refused))
    × (pci_remove (pos 1) (pci_probe (pos 1) irq_refused).1 ≡ record {
      major = pos 240;
      chrdev = false;
      enabled = true;
      region = false;
      mapping = true;
      vectors = false;
      irq = false;
    })
remove_example = pci_remove-pci_probe (pos 1) irq_refused

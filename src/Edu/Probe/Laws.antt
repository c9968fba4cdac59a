-- ===== src/Edu/Probe/Laws.antt =====
-- What the driver holds after a probe and after a removal.
use uio_linux_sample.Prelude.{◌≡◌, arith, Bool, true, false, not, ◌&&◌, if◌then◌else◌}
use uio_linux_sample.Prelude.Words.{ℤ, pos, eqb_ℤ}
use uio_linux_sample.Edu.Probe.{Held, Answers, is_error, mode0, mode1, pci_probe, pci_remove}

-- Whether each stage of the probe is reached and answered.
abbrev pub enabled : Answers → Bool
enabled a = not (is_error a.pci_enable_device)

abbrev pub mapped : Answers → Bool
mapped a = enabled a && eqb_ℤ a.pci_request_region (pos 0)

abbrev pub with_vectors : ℤ → Answers → Bool
with_vectors mode a = mapped a && (eqb_ℤ mode mode1 && not (is_error a.pci_alloc_irq_vectors))

-- A mode other than 0 and 1 asks for no interrupt.
abbrev pub with_handler : ℤ → Answers → Bool
with_handler mode a =
    (if eqb_ℤ mode mode0 then mapped a else with_vectors mode a) && not (is_error a.request_irq)

abbrev pub without_handler : ℤ → Answers → Bool
without_handler mode a = mapped a && (not (eqb_ℤ mode mode0) && not (eqb_ℤ mode mode1))

abbrev pub succeeds : ℤ → Answers → Bool
succeeds mode a = (if with_handler mode a then true else without_handler mode a) && a.is_mem

-- What is granted before the first refusal, and what is not given back.
abbrev pub granted : ℤ → Answers → Held
granted mode a = record {
  major = a.register_chrdev;
  chrdev = not (is_error a.register_chrdev);
  enabled = enabled a;
  region = mapped a;
  mapping = mapped a;
  vectors = with_vectors mode a;
  irq = with_handler mode a;
}

abbrev pub left_over : ℤ → Answers → Held
left_over mode a = record (granted mode a) { chrdev = false; region = false; vectors = false }

pci_probe-cases :
    (mode : ℤ) (a : Answers)
    → pci_probe mode a ≡ (if succeeds mode a then pos 0 else pos 1, granted mode a)
unfolding pci_probe
pci_probe-cases mode a = ground arith

pci_remove-left_over :
    (mode : ℤ) (a : Answers) → pci_remove mode (pci_probe mode a).1 ≡ left_over mode a
unfolding pci_probe pci_remove
pci_remove-left_over mode a = ground arith

-- A probe returns 0 exactly if every request of its mode is granted and the region is one of
-- memory, and 1 otherwise, whether a character device was registered or not. It undoes nothing: it
-- holds what was granted before the first refusal. A removal after it gives back the character
-- device, the region and the vectors, and leaves the device enabled, the region mapped and the
-- interrupt handler installed as far as the probe did these.
pub pci_remove-pci_probe :
    (mode : ℤ) (a : Answers)
    → (pci_probe mode a ≡ (if succeeds mode a then pos 0 else pos 1, granted mode a))
      × (pci_remove mode (pci_probe mode a).1 ≡ left_over mode a)
pci_remove-pci_probe mode a = (pci_probe-cases mode a, pci_remove-left_over mode a)

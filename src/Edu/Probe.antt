-- ===== src/Edu/Probe.antt =====
-- The load and unload of edu_driver.c: pci_probe, pci_remove, myinit and myexit.
pub mod Laws
use uio_linux_sample.Prelude.{ℕ, ◌≡◌, refl, arith, Bool, true, false, not, ◌&&◌, if◌then◌else◌}
use uio_linux_sample.Prelude.Words.{ℤ, pos, negsuc, eqb_ℤ}

-- What the kernel answers, a negative number for an error; `is_mem` is whether the region is one
-- of memory.
pub record Answers : Type 0 where
  pub register_chrdev : ℤ
  pub pci_enable_device : ℤ
  pub pci_request_region : ℤ
  pub pci_alloc_irq_vectors : ℤ
  pub request_irq : ℤ
  pub is_mem : Bool

-- What the driver holds of the device and of the kernel. The answer of pci_iomap is not looked at,
-- so that the mapping may be of nothing.
pub record Held : Type 0 where
  pub major : ℤ
  pub chrdev : Bool
  pub enabled : Bool
  pub region : Bool
  pub mapping : Bool
  pub vectors : Bool
  pub irq : Bool

abbrev pub is_error : ℤ → Bool
is_error (pos n) = false
is_error (negsuc n) = true

abbrev pub mode0 : ℤ
mode0 = pos 0

abbrev pub mode1 : ℤ
mode1 = pos 1

-- The sanity checks.
abbrev pub checked : Answers → Held → ℤ × Held
checked a r = if a.is_mem then (pos 0, r) else (pos 1, r)

abbrev pub set_up_irq : ℤ → Answers → Held → ℤ × Held
set_up_irq mode a r =
    let with_vectors = record r { vectors = true } in
    if eqb_ℤ mode mode0
    then if is_error a.request_irq then (pos 1, r) else checked a (record r { irq = true })
    else if eqb_ℤ mode mode1
    then if is_error a.pci_alloc_irq_vectors
      then (pos 1, r)
      else if is_error a.request_irq
      then (pos 1, with_vectors)
      else checked a (record with_vectors { irq = true })
    else checked a r

abbrev pub at_start : ℤ → Held
at_start major = record {
  major = major;
  chrdev = not (is_error major);
  enabled = false;
  region = false;
  mapping = false;
  vectors = false;
  irq = false;
}

unfoldable pub pci_probe : ℤ → Answers → ℤ × Held
pci_probe mode a =
    let start = at_start a.register_chrdev in
    if is_error a.pci_enable_device
    then (pos 1, start)
    else if not (eqb_ℤ a.pci_request_region (pos 0))
    then (pos 1, record start { enabled = true })
    else set_up_irq mode a (record start { enabled = true; region = true; mapping = true })

unfoldable pub pci_remove : ℤ → Held → Held
pci_remove mode r = record r {
  vectors = if eqb_ℤ mode mode1 then false else r.vectors;
  region = false;
  chrdev = false;
}

-- `registered` is the answer of pci_register_driver; the second component is whether the driver is
-- registered.
abbrev pub myinit : ℤ → ℤ × Bool
myinit registered = if is_error registered then (pos 1, false) else (pos 0, true)

abbrev pub myexit : Bool → Bool
myexit registered = false

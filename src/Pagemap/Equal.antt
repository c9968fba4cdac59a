-- ===== src/Pagemap/Equal.antt =====
-- The two ways to find a physical address.
use uio_linux_sample.Prelude.{
  ℕ, ◌*◌, ◌/◌, ◌^◌, ◌<◌, ◌≡◌, refl, ap, Option, none, some, arith, ◌==◌, Bool-cases, inl, inr,
}
use uio_linux_sample.Prelude.Words.{u64}
use uio_linux_sample.Pagemap.Read.{
  get_bit, file_offset, report, page_offset, gva_to_gfn, gva_to_gpa,
}

abbrev pub address_of : Option (ℕ × ℕ) → Option ℕ
address_of none = none
address_of (some (pfn, address)) = some address

-- With pages of 4096 bytes and an address of 64 bits, gva_to_gpa gives the physical address that
-- read_pagemap prints for the entry at the offset it computes, and fails its assertion exactly if
-- read_pagemap finds the page not present.
pub gva_to_gpa-report :
    (word_at : ℕ → ℕ) (addr : ℕ)
    → addr < 2 ^ 64
    → gva_to_gpa word_at addr ≡ address_of (report 4096 addr (word_at (file_offset addr 4096))).page
unfolding gva_to_gpa gva_to_gfn page_offset report file_offset
gva_to_gpa-report word_at addr h =
    let offset : addr / 2 ^ 9 / 8 * 8 ≡ u64 (addr / 4096 * 8) = omega arith in
    rw offset (elim (Bool-cases (get_bit (word_at (u64 (addr / 4096 * 8))) 63 == 1)) [
      | inl e ↦ rw e (ap some (omega arith))
      | inr e ↦ rw e refl
    ])

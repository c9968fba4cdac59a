-- ===== src/Pagemap/Tests.antt =====
-- An entry that is read.
use uio_linux_sample.Prelude.{ℕ, ◌+◌, ◌<◌, ◌≡◌, ap, false, Option, some, arith, get_elem?}
use uio_linux_sample.Pagemap.Read.{pagemap_entry, read_entry, report, file_offset, gva_to_gpa}
use uio_linux_sample.Pagemap.Entry.{memory_of, read_entry_roundtrip}
use uio_linux_sample.Pagemap.Equal.{address_of, gva_to_gpa-report}

abbrev file : ℕ → Option ℕ
file n = get_elem? (memory_of false 258) n

file-at : (i : ℕ) → i < pagemap_entry → file (0 + i) ≡ get_elem? (memory_of false 258) i
file-at i h = let e : 0 + i ≡ i = omega arith in ap file e

entry_example : read_entry false file 0 ≡ some 258
entry_example = read_entry_roundtrip false file 0 258 (omega arith) file-at

-- Every page is present, in frame 5.
abbrev word_at : ℕ → ℕ
word_at n = 9223372036854775813

gva_example :
    gva_to_gpa word_at 4099 ≡ address_of (report 4096 4099 (word_at (file_offset 4099 4096))).page
gva_example = gva_to_gpa-report word_at 4099 (omega arith)

-- ===== src/Pagemap/Entry.antt =====
-- Reading back an entry that the kernel has written.
use uio_linux_sample.Prelude.{
  ℕ, zero, suc, ◌+◌, ◌/◌, ◌%◌, ◌^◌, ◌<◌, ◌≡◌, ap, Bool, true, false, Option, some, List, [], ◌∷◌,
  arith, get_elem?,
}
use uio_linux_sample.Pagemap.Read.{pagemap_entry, read_bytes, join_bytes, read_entry}

-- The lowest `n` bytes of a word, the lowest first.
abbrev pub bytes_of : ℕ → ℕ → List ℕ
bytes_of zero v = []
bytes_of (suc n) v = v % 256 ∷ bytes_of n (v / 256)

abbrev reversed : List ℕ → List ℕ → List ℕ
reversed acc [] = acc
reversed acc (b ∷ bs) = reversed (b ∷ acc) bs

-- The memory of a word of 64 bits on a machine of the given byte order.
abbrev pub memory_of : Bool → ℕ → List ℕ
memory_of true v = reversed [] (bytes_of pagemap_entry v)
memory_of false v = bytes_of pagemap_entry v

join_bytes_of : (v : ℕ) → v < 2 ^ 64 → join_bytes 0 (reversed [] (bytes_of pagemap_entry v)) ≡ v
unfolding join_bytes
join_bytes_of v h = omega arith

-- On a machine of either byte order, an entry that stands in the file at the offset, in the memory
-- order of the machine, is read as the word that it is.
pub read_entry_roundtrip :
    (is_bigendian : Bool) (file : ℕ → Option ℕ) (offset v : ℕ)
    → v < 2 ^ 64
    → ((i : ℕ) → i < pagemap_entry → file (offset + i) ≡ get_elem? (memory_of is_bigendian v) i)
    → read_entry is_bigendian file offset ≡ some v
unfolding read_entry read_bytes
read_entry_roundtrip true file offset v h at =
    rw
      (
        at 0 (omega arith),
        at 1 (omega arith),
        at 2 (omega arith),
        at 3 (omega arith),
        at 4 (omega arith),
        at 5 (omega arith),
        at 6 (omega arith),
        at 7 (omega arith),
      )
      (ap some (join_bytes_of v h))
read_entry_roundtrip false file offset v h at =
    rw
      (
        at 0 (omega arith),
        at 1 (omega arith),
        at 2 (omega arith),
        at 3 (omega arith),
        at 4 (omega arith),
        at 5 (omega arith),
        at 6 (omega arith),
        at 7 (omega arith),
      )
      (ap some (join_bytes_of v h))

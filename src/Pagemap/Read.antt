-- ===== src/Pagemap/Read.antt =====
-- read_pagemap of v2p.c and read_pagemap.c, and gva_to_gpa of vtop.c. A mask of the lowest k bits
-- is the remainder by 2^k, and a shift to the right by k bits the quotient.
use uio_linux_sample.Prelude.{
  ℕ, zero, suc, ◌+◌, ◌-◌, ◌*◌, ◌/◌, ◌%◌, ◌^◌, Bool, Option, none, some, List, [], ◌∷◌, ◌==◌,
  if◌then◌else◌, replicate, set, and_then,
}
use uio_linux_sample.Prelude.Words.{u64, u32}

-- PAGEMAP_ENTRY
abbrev pub pagemap_entry : ℕ
pagemap_entry = 8

-- GET_BIT
abbrev pub get_bit : ℕ → ℕ → ℕ
get_bit x y = x / 2 ^ y % 2

-- GET_PFN; the mask 0x7FFFFFFFFFFFFF has 55 bits.
abbrev pub get_pfn : ℕ → ℕ
get_pfn x = x % 2 ^ 55

unfoldable pub file_offset : ℕ → ℕ → ℕ
file_offset virt_addr page_size = u64 (virt_addr / page_size * pagemap_entry)

-- The loop over getc from byte `i` on, with `left` bytes to read. The file gives the byte at each
-- offset, `none` behind its end.
unfoldable pub read_bytes : Bool → (ℕ → Option ℕ) → ℕ → ℕ → ℕ → List ℕ → Option (List ℕ)
read_bytes is_bigendian file offset zero i c_buf = some c_buf
read_bytes is_bigendian file offset (suc left) i c_buf = and_then (file (offset + i)) (λ c.
    read_bytes is_bigendian file offset left (i + 1)
      (set c_buf (if is_bigendian then i else pagemap_entry - i - 1) c))

-- The loop that puts the bytes together.
unfoldable pub join_bytes : ℕ → List ℕ → ℕ
join_bytes read_val [] = read_val
join_bytes read_val (c ∷ cs) = join_bytes (u64 (u64 (read_val * 256) + c)) cs

unfoldable pub read_entry : Bool → (ℕ → Option ℕ) → ℕ → Option ℕ
read_entry is_bigendian file offset =
    and_then (read_bytes is_bigendian file offset pagemap_entry 0 (replicate pagemap_entry 0))
      (λ c_buf. some (join_bytes 0 c_buf))

-- What is printed of an entry: the page's number and the physical address, if it is present.
pub record Report : Type 0 where
  pub page : Option (ℕ × ℕ)
  pub swapped : Bool

unfoldable pub report : ℕ → ℕ → ℕ → Report
report page_size virt_addr read_val =
    let pfn = get_pfn read_val in
    record {
      page =
          if get_bit read_val 63 == 1
          then some (pfn, u64 (u64 (pfn * page_size) + virt_addr % page_size))
          else none;
      swapped = get_bit read_val 62 == 1;
    }

pub data Outcome : Type 0 where
  cannot_open seek_failed end_of_file : Outcome
  printed : Report → Outcome

abbrev pub printed_of : ℕ → ℕ → Option ℕ → Outcome
printed_of page_size virt_addr none = end_of_file
printed_of page_size virt_addr (some read_val) = printed (report page_size virt_addr read_val)

-- `fopen` and `fseek` say whether the calls succeed.
unfoldable pub read_pagemap : Bool → Bool → Bool → (ℕ → Option ℕ) → ℕ → ℕ → Outcome
read_pagemap fopen fseek is_bigendian file page_size virt_addr =
    if fopen
    then if fseek
      then printed_of page_size virt_addr
          (read_entry is_bigendian file (file_offset virt_addr page_size))
      else seek_failed
    else cannot_open

unfoldable pub page_offset : ℕ → ℕ
page_offset addr = u32 addr % 2 ^ 12

-- `none` is the result -1. `word_at` is the word that `read` stores for the 8 bytes at an offset.
unfoldable pub gva_to_gfn : (ℕ → ℕ) → ℕ → Option ℕ
gva_to_gfn word_at addr =
    let pme = word_at (addr / 2 ^ 9 / 8 * 8) in
    if get_bit pme 63 == 1 then some (get_pfn pme) else none

-- `none` is the failed assertion. The two operands of `|` have no bit in common.
unfoldable pub gva_to_gpa : (ℕ → ℕ) → ℕ → Option ℕ
gva_to_gpa word_at addr =
    and_then (gva_to_gfn word_at addr) (λ gfn. some (u64 (gfn * 2 ^ 12) + page_offset addr))

-- ===== src/Pci/Scan.antt =====
-- main of show_pci.c. A mapping of a function's configuration space gives the word of 32 bits at an
-- index; mmap is a parameter and gives `none` when it fails.
use Prim.Native.Nat.{bit_or}
use uio_linux_sample.Prelude.{
  ℕ, zero, suc, ◌+◌, ◌*◌, ◌/◌, ◌%◌, ◌^◌, ◌==◌, if◌then◌else◌, Option, none, some, List, [], ◌∷◌,
  ◌++◌, and_then,
}
use uio_linux_sample.Prelude.Words.{u32}
use uio_linux_sample.Pci.Show.{PortType, typeshow, speedshow, linkspeedshow, linkwidthshow}

-- MAX_BUS, MAX_DEV, MAX_FUN, BASE_ADDR
abbrev pub max_bus : ℕ
max_bus = 5

abbrev pub max_dev : ℕ
max_dev = 32

abbrev pub max_fun : ℕ
max_fun = 8

abbrev pub base_addr : ℕ
base_addr = 4160749568

abbrev pub byte : ℕ → ℕ
byte x = x % 256

-- The end of the search: at a word, at the end of the list, or not within the given rounds.
pub data Found : Type 0 where
  found : ℕ → Found
  absent runs_on : Found

-- The loop over the capabilities, at the word `p`.
unfoldable pub search : ℕ → (ℕ → ℕ) → ℕ → Found
search zero config p = runs_on
search (suc fuel) config p =
    let rest = search fuel config (byte (config p / 2 ^ 8) / 4) in
    if byte (config p) == 16 then found p else if byte (config p / 2 ^ 8) == 0 then absent else rest

-- The capability pointer, as the index of a word.
abbrev pub nextpoint : (ℕ → ℕ) → ℕ
nextpoint config = byte (config 13) / 4

pub record Line : Type 0 where
  pub bus : ℕ
  pub dev : ℕ
  pub fun : ℕ
  pub vender_id : ℕ
  pub device_id : ℕ
  pub type : PortType
  pub speed : Option ℕ
  pub linkspeed : Option ℕ
  pub linkwidth : Option ℕ

abbrev pub line_of : ℕ → ℕ → ℕ → (ℕ → ℕ) → ℕ → Line
line_of bus dev fun config p = record {
  bus = bus;
  dev = dev;
  fun = fun;
  vender_id = config 0 % 2 ^ 16;
  device_id = config 0 / 2 ^ 8 % 2 ^ 16;
  type = typeshow (config p / 2 ^ 20 % 2 ^ 4);
  speed = speedshow (config (p + 11) / 2 % 2 ^ 7);
  linkspeed = linkspeedshow (config (p + 3) % 2 ^ 4);
  linkwidth = linkwidthshow (config (p + 3) / 2 ^ 4 % 2 ^ 6);
}

-- A search that runs on keeps the program from going on.
abbrev pub with_found : ℕ → ℕ → ℕ → (ℕ → ℕ) → Found → Option (List Line) → Option (List Line)
with_found bus dev fun config (found p) rest =
    and_then rest (λ l. some (line_of bus dev fun config p ∷ l))
with_found bus dev fun config absent rest = rest
with_found bus dev fun config runs_on rest = none

abbrev pub address : ℕ → ℕ → ℕ → ℕ
address bus dev fun =
    bit_or (bit_or (bit_or base_addr (u32 (bus * 2 ^ 20))) (u32 (dev * 2 ^ 15)))
      (u32 (fun * 2 ^ 12))

-- A function without a device reads as ones; where mmap fails the loop over the functions ends.
abbrev pub show_function : ℕ → ℕ → ℕ → ℕ → Option (ℕ → ℕ) → Option (List Line) → Option (List Line)
show_function fuel bus dev fun none rest = some []
show_function fuel bus dev fun (some config) rest =
    if config 0 == 4294967295
    then rest
    else with_found bus dev fun config (search fuel config (nextpoint config)) rest

-- The three loops, each with the rounds left.
unfoldable pub scan_functions : ℕ → (ℕ → Option (ℕ → ℕ)) → ℕ → ℕ → ℕ → ℕ → Option (List Line)
scan_functions fuel mmap bus dev fun zero = some []
scan_functions fuel mmap bus dev fun (suc left) =
    show_function fuel bus dev fun (mmap (address bus dev fun))
      (scan_functions fuel mmap bus dev (fun + 1) left)

abbrev pub joined : Option (List Line) → Option (List Line) → Option (List Line)
joined a b = and_then a (λ l. and_then b (λ r. some (l ++ r)))

unfoldable pub scan_devices : ℕ → (ℕ → Option (ℕ → ℕ)) → ℕ → ℕ → ℕ → Option (List Line)
scan_devices fuel mmap bus dev zero = some []
scan_devices fuel mmap bus dev (suc left) =
    joined (scan_functions fuel mmap bus dev 0 max_fun) (scan_devices fuel mmap bus (dev + 1) left)

unfoldable pub scan_buses : ℕ → (ℕ → Option (ℕ → ℕ)) → ℕ → ℕ → Option (List Line)
scan_buses fuel mmap bus zero = some []
scan_buses fuel mmap bus (suc left) =
    joined (scan_devices fuel mmap bus 0 max_dev) (scan_buses fuel mmap (bus + 1) left)

-- The lines of main; `fuel` bounds the rounds of each search.
abbrev pub main : ℕ → (ℕ → Option (ℕ → ℕ)) → Option (List Line)
main fuel mmap = scan_buses fuel mmap 0 max_bus

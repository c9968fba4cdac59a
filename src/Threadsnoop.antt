-- ===== src/Threadsnoop.antt =====
-- bpf/threadsnoop.c: prints a line for each thread that a process creates. The answers of libbpf and
-- of its helpers, and the events, come as data.
mod Laws
mod Maps
mod Tests
use uio_linux_sample.Prelude.{
  ℕ, ◌-◌, ◌/◌, Bool, true, false, not, Option, none, some, List, [], ◌∷◌, ◌==◌, if◌then◌else◌,
}
use uio_linux_sample.Prelude.Words.{u32, sub64, ℤ, pos, negsuc, eqb_ℤ, ltb_ℤ}

-- What main holds: the BPF object, the cache of symbols and the perf buffer.
pub record Held : Type 0 where
  pub obj : Bool
  pub syms_cache : Bool
  pub pb : Bool

abbrev pub nothing : Held
nothing = record { obj = false; syms_cache = false; pb = false }

pub record Exit : Type 0 where
  pub status : ℤ
  pub held : Held

-- One call of perf_buffer__poll, and whether the handler of SIGINT has run by the test behind it.
pub record Poll : Type 0 where
  pub result : ℤ
  pub exiting : Bool

-- Errors are the numbers that the calls return, 0 for none.
pub record Answers : Type 0 where
  pub argp_parse : ℤ
  pub bump_memlock_rlimit : ℤ
  pub open_object : Bool
  pub load : ℤ
  pub syms_cache_new : Bool
  pub get_elf_func_offset : ℤ
  pub attach_uprobe : ℤ
  pub perf_buffer_new : ℤ
  pub signal : Bool
  pub polls : List Poll

abbrev pub is_zero : ℤ → Bool
is_zero err = eqb_ℤ err (pos 0)

abbrev pub is_negative : ℤ → Bool
is_negative err = ltb_ℤ err (pos 0)

unfoldable pub attach_uprobes : Answers → ℤ
attach_uprobes a =
    if is_negative a.get_elf_func_offset
    then negsuc 0
    else if not (is_zero a.attach_uprobe)
    then negsuc 0
    else pos 0

-- The loop; the value of err at its end, or `none` while it goes on.
unfoldable pub poll_loop : List Poll → Option ℤ
poll_loop [] = none
poll_loop (p ∷ ps) =
    let rest = poll_loop ps in
    if is_negative p.result then some p.result else if p.exiting then some p.result else rest

-- The label `cleanup`. Each of the three calls accepts what was never made.
unfoldable pub cleanup : ℤ → Held → Exit
cleanup err h = record {
  status = if is_zero err then pos 0 else pos 1;
  held = record h { obj = false; syms_cache = false; pb = false };
}

abbrev pub poll : List Poll → Held → Option Exit
poll ps h = elim (poll_loop ps) [ none ↦ none | some err ↦ some (cleanup err h) ]

-- main, from the perf buffer on.
unfoldable pub trace : Answers → Held → Option Exit
trace a h =
    if not (is_zero a.perf_buffer_new)
    then some (cleanup a.perf_buffer_new h)
    else let h' = record h { pb = true } in
      if not a.signal then some (cleanup a.perf_buffer_new h') else poll a.polls h'

-- main, from the load of the BPF object on.
unfoldable pub load_and_trace : Answers → Held → Option Exit
load_and_trace a h =
    if not (is_zero a.load)
    then some (cleanup a.load h)
    else if not a.syms_cache_new
    then some (cleanup a.load h)
    else let h' = record h { syms_cache = true } in
      if not (is_zero (attach_uprobes a)) then some (cleanup (attach_uprobes a) h') else trace a h'

unfoldable pub main : Answers → Option Exit
main a =
    if not (is_zero a.argp_parse)
    then some (record { status = a.argp_parse; held = nothing })
    else if not (is_zero a.bump_memlock_rlimit)
    then some (record { status = pos 1; held = nothing })
    else if not a.open_object
    then some (record { status = pos 1; held = nothing })
    else load_and_trace a (record nothing { obj = true })

-- The printed time: start_ts is a local u32 that is 0 at each call.
unfoldable pub event_ms : ℕ → ℕ
event_ms ts = let start_ts = u32 ts in sub64 ts start_ts / 1000000

abbrev pub slash : ℕ
slash = 47

abbrev pub is_absolute : List ℕ → Bool
is_absolute [] = false
is_absolute (c ∷ cs) = c == slash

-- strrchr(buf, '/') + 1, with `name` for what stands behind the last slash so far
unfoldable pub file_name : List ℕ → List ℕ → List ℕ
file_name name [] = name
file_name name (c ∷ cs) = if c == slash then file_name cs cs else file_name name cs

-- fscanf stores a string into `buf`, or leaves it.
abbrev pub stored : Option (List ℕ) → List ℕ → List ℕ
stored none buf = buf
stored (some path) buf = path

-- The loop over /proc/self/maps: `is_libc` is the test of the file name by sscanf.
unfoldable pub scan_maps : (List ℕ → Bool) → List (Option (List ℕ)) → List ℕ → Option (List ℕ)
scan_maps is_libc [] buf = none
scan_maps is_libc (line ∷ lines) buf =
    let path = stored line buf in
    let rest = scan_maps is_libc lines path in
    if not (is_absolute path) then rest else if is_libc (file_name [] path) then some path else rest

pub data Found : Type 0 where
  path_is : List ℕ → Found
  no_maps not_found : Found

abbrev pub outcome : Option (List ℕ) → Found
outcome none = not_found
outcome (some path) = path_is path

-- `libc_path` is the static variable, and `maps` is `none` if the file cannot be opened.
unfoldable pub get_libc_path :
    (List ℕ → Bool) → Option (List ℕ) → Option (List (Option (List ℕ))) → Found
get_libc_path is_libc (some libc_path) maps = path_is libc_path
get_libc_path is_libc none none = no_maps
get_libc_path is_libc none (some lines) = outcome (scan_maps is_libc lines [])

-- ===== src/Threadsnoop/Tests.antt =====
-- A run of the program that is interrupted, and one that finds no symbols.
use uio_linux_sample.Prelude.{◌≡◌, refl, ◌↔◌, inl, inr, true, false, none, some, [], ◌∷◌}
use uio_linux_sample.Prelude.Words.{pos}
use uio_linux_sample.Threadsnoop.{
  nothing, Exit, Answers, main, load_and_trace, cleanup, event_ms, get_libc_path, scan_maps,
  path_is,
}
use uio_linux_sample.Threadsnoop.Laws.{Started, Unnoticed, main-status}

-- The fourth poll has three events, and SIGINT arrives behind it.
abbrev answers : Answers
answers = record {
  argp_parse = pos 0;
  bump_memlock_rlimit = pos 0;
  open_object = true;
  load = pos 0;
  syms_cache_new = true;
  get_elf_func_offset = pos 4096;
  attach_uprobe = pos 0;
  perf_buffer_new = pos 0;
  signal = true;
  polls =
      record { result = pos 0; exiting = false } ∷ record { result = pos 3; exiting = true } ∷ [];
}

status_example :
    (e : Exit) × (main answers ≡ some e)
    × (e.held ≡ nothing)
    × ((e.status ≡ pos 0) ↔ (Started answers × Unnoticed answers))
status_example = main-status answers (inr (inl (inr refl)))

-- Without a cache of symbols it returns 0.
no_symbols :
    main (record answers { syms_cache_new = false })
    ≡ some (record { status = pos 0; held = nothing })
unfolding main load_and_trace cleanup
no_symbols = refl

-- Two events that are four seconds apart.
event_times : (event_ms 10000000000 ≡ 8589) × (event_ms 6000000000 ≡ 4294)
unfolding event_ms
event_times = (refl, refl)

libc_run :
    get_libc_path
      (λ name. true)
      none
      (some (none ∷ some (b'[' ∷ b's' ∷ []) ∷ some (b'/' ∷ b'l' ∷ []) ∷ []))
    ≡ path_is (b'/' ∷ b'l' ∷ [])
unfolding get_libc_path scan_maps
libc_run = refl

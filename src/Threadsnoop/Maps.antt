-- ===== src/Threadsnoop/Maps.antt =====
-- The search for the C library in the file maps.
use uio_linux_sample.Prelude.{
  ℕ, ◌≡◌, refl, ap, ◌∙◌, inl, inr, Bool, false, not, ◌&&◌, Option, none, some, List, [], ◌∷◌, ◌++◌,
  All, ◌==◌, Bool-cases, if◌then◌else◌,
}
use uio_linux_sample.Threadsnoop.{slash, is_absolute, file_name, scan_maps, outcome, get_libc_path}

-- The C library: an absolute path with such a file name.
abbrev pub is_library : (List ℕ → Bool) → List ℕ → Bool
is_library is_libc path = is_absolute path && is_libc (file_name [] path)

-- The first of the paths that passes a test.
abbrev pub first_path : (List ℕ → Bool) → List (Option (List ℕ)) → Option (List ℕ)
first_path test [] = none
first_path test (none ∷ lines) = first_path test lines
first_path test (some path ∷ lines) =
    let rest = first_path test lines in if test path then some path else rest

scan_maps-step :
    (is_libc : List ℕ → Bool) (path : List ℕ) (rest : Option (List ℕ))
    → (if not (is_absolute path)
        then rest
        else if is_libc (file_name [] path)
        then some path
        else rest)
      ≡ (if is_library is_libc path then some path else rest)
scan_maps-step is_libc path rest = elim (Bool-cases (is_absolute path)) [
  | inl e ↦ rw e
  | inr e ↦ rw e
]

-- What is left in the buffer never passes the test.
scan_maps-first :
    (is_libc : List ℕ → Bool) (lines : List (Option (List ℕ))) (buf : List ℕ)
    → is_library is_libc buf ≡ false
    → scan_maps is_libc lines buf ≡ first_path (is_library is_libc) lines
unfolding scan_maps
scan_maps-first is_libc [] buf h = refl
scan_maps-first is_libc (none ∷ lines) buf h =
    scan_maps-step is_libc buf (scan_maps is_libc lines buf)
    ∙ rw h (scan_maps-first is_libc lines buf h)
scan_maps-first is_libc (some path ∷ lines) buf h =
    scan_maps-step is_libc path (scan_maps is_libc lines path)
    ∙ (elim (Bool-cases (is_library is_libc path)) [
      | inl e ↦ rw e
      | inr e ↦ rw e (scan_maps-first is_libc lines path e)
    ])

file_name-same :
    (name file : List ℕ) → All (λ c. (c == slash) ≡ false) file → file_name name file ≡ name
unfolding file_name
file_name-same name [] h = refl
file_name-same name (c ∷ cs) h = rw (h.0) (file_name-same name cs h.1)

-- Behind the last slash stands the file name.
file_name-append :
    (name dir file : List ℕ)
    → All (λ c. (c == slash) ≡ false) file
    → file_name name (dir ++ slash ∷ file) ≡ file
unfolding file_name
file_name-append name [] file h = file_name-same file file h
file_name-append name (c ∷ dir) file h = elim (Bool-cases (c == slash)) [
  | inl e ↦ rw e (file_name-append (dir ++ slash ∷ file) dir file h)
  | inr e ↦ rw e (file_name-append name dir file h)
]

-- If no path was found before, the search gives the first of the paths of the file maps that starts with
-- a slash and has the file name of the C library, which is what stands behind its last slash; and
-- an error exactly if there is none.
pub get_libc_path-first :
    (is_libc : List ℕ → Bool) (lines : List (Option (List ℕ)))
    → (get_libc_path is_libc none (some lines) ≡ outcome (first_path (is_library is_libc) lines))
      × ((name dir file : List ℕ)
          → All (λ c. (c == slash) ≡ false) file
          → file_name name (dir ++ slash ∷ file) ≡ file)
unfolding get_libc_path
get_libc_path-first is_libc lines =
    (ap outcome (scan_maps-first is_libc lines [] refl), file_name-append)

-- ===== src/Trace/Lookup.antt =====
-- The search for the kernel's tracepoints: `tracepoint_lookup`, called for each of them by
-- for_each_kernel_tracepoint, in trace_noschedule.c and trace_runqlat.c. A name is its bytes, and
-- a tracepoint of the kernel a name with an address.
pub mod Laws
use uio_linux_sample.Prelude.{
  ℕ, ◌+◌, Bool, true, false, ◌&&◌, ◌||◌, not, Option, none, some, List, [], ◌∷◌, ◌==◌,
  if◌then◌else◌, length,
}

-- `name` is `none` for a null pointer.
pub record TracepointEntry : Type 0 where
  pub name : Option (List ℕ)
  pub tp : Option ℕ

pub record Table : Type 0 where
  pub tp_entries : List TracepointEntry
  pub tp_initalized : ℕ

-- strcmp(a, b) == 0
abbrev pub same_name : List ℕ → List ℕ → Bool
same_name [] [] = true
same_name [] (y ∷ ys) = false
same_name (x ∷ xs) [] = false
same_name (x ∷ xs) (y ∷ ys) = x == y && same_name xs ys

abbrev pub is_set {ℓ} : {A : Type ℓ} → Option A → Bool
is_set none = false
is_set (some a) = true

unfoldable pub is_tracepoint_lookup_success : Table → Bool
is_tracepoint_lookup_success t = t.tp_initalized == length t.tp_entries

-- !name || strcmp(tp->name, name)
abbrev pub differs : List ℕ → Option (List ℕ) → Bool
differs tp none = true
differs tp (some name) = not (same_name tp name)

-- Whether the loop's body fills the entry.
abbrev pub takes : List ℕ → TracepointEntry → Bool
takes name e = not (is_set e.tp || differs name e.name)

-- The loop over the entries, with the count so far.
unfoldable pub fill : List ℕ × ℕ → List TracepointEntry → ℕ → List TracepointEntry × ℕ
fill (name, tp) [] n = ([], n)
fill (name, tp) (e ∷ es) n =
    let (es', n') = fill (name, tp) es (if takes name e then n + 1 else n) in
    ((if takes name e then record e { tp = some tp } else e) ∷ es', n')

unfoldable pub tracepoint_lookup : List ℕ × ℕ → Table → Table
tracepoint_lookup tp t =
    if is_tracepoint_lookup_success t
    then t
    else let (es, n) = fill tp t.tp_entries t.tp_initalized in
      record { tp_entries = es; tp_initalized = n }

unfoldable pub for_each_kernel_tracepoint : List (List ℕ × ℕ) → Table → Table
for_each_kernel_tracepoint [] t = t
for_each_kernel_tracepoint (tp ∷ tps) t = for_each_kernel_tracepoint tps (tracepoint_lookup tp t)

-- ===== src/Trace/Lookup/Laws.antt =====
-- What the search finds.
use uio_linux_sample.Prelude.{
  ℕ, suc, ◌+◌, ◌≤◌, ◌≡◌, refl, sym, ap, ap₂, ◌∙◌, Bool, true, false, Option, none, some, List, [],
  ◌∷◌, map, ◌==◌, arith, if◌then◌else◌, length, Bool-cases, inl, inr,
}
use uio_linux_sample.Trace.Lookup.{
  TracepointEntry, Table, same_name, is_set, takes, is_tracepoint_lookup_success, fill,
  tracepoint_lookup, for_each_kernel_tracepoint,
}

-- The first of the kernel's tracepoints with the name.
abbrev pub first_of : List (List ℕ × ℕ) → List ℕ → Option ℕ
first_of [] name = none
first_of ((n, a) ∷ tps) name = if same_name n name then some a else first_of tps name

-- No tracepoint is meant by a null pointer.
abbrev pub first_named : List (List ℕ × ℕ) → Option (List ℕ) → Option ℕ
first_named tps none = none
first_named tps (some name) = first_of tps name

abbrev pub or_else : Option ℕ → Option ℕ → Option ℕ
or_else none o = o
or_else (some a) o = some a

abbrev pub resolved : List (List ℕ × ℕ) → TracepointEntry → TracepointEntry
resolved tps e = record e { tp = or_else e.tp (first_named tps e.name) }

-- The entries that are filled.
abbrev pub filled : List TracepointEntry → ℕ
filled [] = 0
filled (e ∷ es) = if is_set e.tp then suc (filled es) else filled es

filled-le : (es : List TracepointEntry) → filled es ≤ length es
filled-le [] = omega arith
filled-le (e ∷ es) = ground (arith, filled-le es)

counted-cons :
    (m n f g : ℕ) (b : Bool)
    → m + f ≡ n + g
    → m + (if b then suc f else f) ≡ n + (if b then suc g else g)
counted-cons m n f g true h = omega arith
counted-cons m n f g false h = h

taken-resolved :
    (name : List ℕ) (a : ℕ) (e : TracepointEntry)
    → takes name e ≡ true
    → (resolved ((name, a) ∷ []) e ≡ record e { tp = some a }) × (is_set e.tp ≡ false)
taken-resolved name a e h = ground arith

passed-resolved :
    (name : List ℕ) (a : ℕ) (e : TracepointEntry)
    → takes name e ≡ false
    → resolved ((name, a) ∷ []) e ≡ e
passed-resolved name a e h = ground arith

fill-resolved :
    (tp : List ℕ × ℕ) (es : List TracepointEntry) (n : ℕ)
    → ((fill tp es n).0 ≡ map (resolved (tp ∷ [])) es)
      × ((fill tp es n).1 + filled es ≡ n + filled (fill tp es n).0)
unfolding fill
fill-resolved (name, a) [] n = (refl, refl)
fill-resolved (name, a) (e ∷ es) n = elim (Bool-cases (takes name e)) [
  | inl h ↦
      let r = fill-resolved (name, a) es (n + 1) in
      let t = taken-resolved name a e h in
      simp h (ap₂ ◌∷◌ (sym t.0) r.0, rw t.1 (omega (arith, r.1)))
  | inr h ↦
      let r = fill-resolved (name, a) es n in
      simp h (
        ap₂ ◌∷◌ (sym (passed-resolved name a e h)) r.0,
        counted-cons (fill (name, a) es n).1 n (filled es) (filled (fill (name, a) es n).0)
            (is_set e.tp) r.1,
      )
]

resolved-full :
    (tps : List (List ℕ × ℕ)) (es : List TracepointEntry)
    → filled es ≡ length es
    → map (resolved tps) es ≡ es
resolved-full tps [] h = refl
resolved-full tps (e ∷ es) h = ground (arith, resolved-full tps es, filled-le es)

resolved-resolved :
    (tp : List ℕ × ℕ) (tps : List (List ℕ × ℕ)) (es : List TracepointEntry)
    → map (resolved tps) (map (resolved (tp ∷ [])) es) ≡ map (resolved (tp ∷ tps)) es
resolved-resolved tp tps [] = refl
resolved-resolved (n, a) tps (e ∷ es) = ground (arith, resolved-resolved (n, a) tps es)

-- The count is that of the filled entries.
pub record IsCounted (t : Table) : Type 0 where
  pub count : t.tp_initalized ≡ filled t.tp_entries

lookup-resolved :
    (tp : List ℕ × ℕ) (t : Table)
    → IsCounted t
    → ((tracepoint_lookup tp t).tp_entries ≡ map (resolved (tp ∷ [])) t.tp_entries)
      × IsCounted (tracepoint_lookup tp t)
unfolding tracepoint_lookup is_tracepoint_lookup_success
lookup-resolved tp t c = elim (Bool-cases (t.tp_initalized == length t.tp_entries)) [
  | inl e ↦ rw e (sym (resolved-full (tp ∷ []) t.tp_entries (ground (arith, c.count))), c)
  | inr e ↦
      let r = fill-resolved tp t.tp_entries t.tp_initalized in
      rw e (r.0, record { count = omega (arith, r.1, c.count) })
]

resolved-none : (es : List TracepointEntry) → map (resolved []) es ≡ es
resolved-none [] = refl
resolved-none (e ∷ es) = ground (arith, resolved-none es)

-- If the count of a table is that of its filled entries, calling tracepoint_lookup for every
-- tracepoint of the kernel leaves the entries that were filled and fills each other one with the
-- first tracepoint of its name, if there is one; the count stays that of the filled entries.
pub for_each_kernel_tracepoint-resolved :
    (tps : List (List ℕ × ℕ)) (t : Table)
    → IsCounted t
    → ((for_each_kernel_tracepoint tps t).tp_entries ≡ map (resolved tps) t.tp_entries)
      × IsCounted (for_each_kernel_tracepoint tps t)
unfolding for_each_kernel_tracepoint
for_each_kernel_tracepoint-resolved [] t c = (sym (resolved-none t.tp_entries), c)
for_each_kernel_tracepoint-resolved (tp ∷ tps) t c =
    let one = lookup-resolved tp t c in
    let rest = for_each_kernel_tracepoint-resolved tps (tracepoint_lookup tp t) one.1 in
    (rest.0 ∙ ap (map (resolved tps)) one.0 ∙ resolved-resolved tp tps t.tp_entries, rest.1)

-- ===== src/Pci/Walk.antt =====
-- The list of capabilities as a path, and the search along it.
use uio_linux_sample.Prelude.{
  ℕ, zero, suc, ◌+◌, ◌/◌, ◌^◌, ◌≤◌, ◌<◌, ◌≡◌, ◌≢◌, refl, ap, sym, ◌∙◌, arith, ◌==◌, false, ltb,
  ltb→lt, subst, ◌⊎◌, ◌↔◌, ◌-◌, Bool-cases, inl, inr,
}
use uio_linux_sample.Pci.Scan.{byte, found, absent, runs_on, search}

abbrev pub id : (ℕ → ℕ) → ℕ → ℕ
id config p = byte (config p)

abbrev pub pointer : (ℕ → ℕ) → ℕ → ℕ
pointer config p = byte (config p / 2 ^ 8)

-- n steps along the list, from a word to another, none of them from a PCI Express capability or
-- over a pointer of 0.
pub data Walk (config : ℕ → ℕ) : ℕ → ℕ → ℕ → Type 0 where
  stays : {p : ℕ} → Walk config 0 p p
  follows :
      {n p q : ℕ}
      → id config p ≢ 16
      → pointer config p ≢ 0
      → Walk config n (pointer config p / 4) q
      → Walk config (suc n) p q

found-injective : (p q : ℕ) → found p ≡ found q → p ≡ q
found-injective p q e = cc

runs_on-found : (q : ℕ) → runs_on ≢ found q
runs_on-found q e = cc

absent-found : (q : ℕ) → absent ≢ found q
absent-found q e = cc

pub ℕ-cases : (a b : ℕ) → (a ≡ b) ⊎ (a ≢ b)
ℕ-cases a b = elim (Bool-cases (a == b)) [ inl e ↦ inl (ground arith) | inr e ↦ inr (ground arith) ]

not-ltb→le : (a b : ℕ) → ltb a b ≡ false → b ≤ a
not-ltb→le a b h = ground arith

module _ (config : ℕ → ℕ) where
  search-step :
      (fuel p : ℕ)
      → id config p ≢ 16
      → pointer config p ≢ 0
      → search (suc fuel) config p ≡ search fuel config (pointer config p / 4)
  unfolding search
  search-step fuel p h k = ground arith

  search-here : (fuel p : ℕ) → id config p ≡ 16 → search (suc fuel) config p ≡ found p
  unfolding search
  search-here fuel p h = ground arith

  search-Walk :
      (fuel : ℕ) {n p q : ℕ} → Walk config n p q → search (n + fuel) config p ≡ search fuel config q
  search-Walk fuel {q = q} stays =
      let e : 0 + fuel ≡ fuel = omega arith in ap (λ k. search k config q) e
  search-Walk fuel {p = p} (follows {n} h k a) =
      let e : suc n + fuel ≡ suc (n + fuel) = omega arith in
      ap (λ k. search k config p) e ∙ (search-step (n + fuel) p h k ∙ search-Walk fuel a)

  short-Walk :
      (fuel : ℕ) {n p q : ℕ} → Walk config n p q → fuel ≤ n → search fuel config p ≡ runs_on
  unfolding search
  short-Walk zero a h = refl
  short-Walk (suc fuel) stays h = absurd (omega arith)
  short-Walk (suc fuel) {p = p} (follows h k a) l =
      search-step fuel p h k ∙ short-Walk fuel a (omega arith)

  search-absent :
      (fuel p : ℕ) → id config p ≢ 16 → pointer config p ≡ 0 → search (suc fuel) config p ≡ absent
  unfolding search
  search-absent fuel p h k = ground arith

  -- What the rounds of a search that ends have gone through.
  found-Walk :
      (fuel p q : ℕ)
      → search fuel config p ≡ found q
      → (n : ℕ) × Walk config n p q × (n < fuel) × (id config q ≡ 16)
  unfolding search
  found-Walk zero p q e = absurd (runs_on-found q e)
  found-Walk (suc fuel) p q e = elim (ℕ-cases (id config p) 16) [
    | inl a ↦
        let same = found-injective p q (sym (search-here fuel p a) ∙ e) in
        subst (λ x. (n : ℕ) × Walk config n p x × (n < suc fuel) × (id config x ≡ 16)) same
          (0, stays, omega arith, a)
    | inr a ↦ elim (ℕ-cases (pointer config p) 0) [
      | inl b ↦ absurd (absent-found q (sym (search-absent fuel p a b) ∙ e))
      | inr b ↦
          let (n, w, l, h) =
            found-Walk fuel (pointer config p / 4) q (sym (search-step fuel p a b) ∙ e) in
          (suc n, follows a b w, omega (arith, l), h)
    ]
  ]

  endless : (m fuel n p : ℕ) → Walk config (suc n) p p → fuel < m → search fuel config p ≡ runs_on
  endless zero fuel n p a l = absurd (omega arith)
  endless (suc m) fuel n p a l = elim (Bool-cases (ltb (suc n) fuel)) [
    | inl h ↦
        let e : fuel ≡ suc n + (fuel - suc n) = omega (arith, ltb→lt (suc n) fuel h) in
        ap (λ k. search k config p) e
        ∙ (search-Walk (fuel - suc n) a
            ∙ endless m (fuel - suc n) n p a (omega (arith, ltb→lt (suc n) fuel h, l)))
    | inr h ↦ short-Walk fuel a (not-ltb→le (suc n) fuel h)
  ]

-- A search finds a capability at a word exactly if the list leads to the word, and the word is the
-- first on the way that is a PCI Express capability; it needs one round more than there are steps.
pub search-found :
    (config : ℕ → ℕ) (fuel p q : ℕ)
    → (search fuel config p ≡ found q)
      ↔ ((n : ℕ) × Walk config n p q × (n < fuel) × (id config q ≡ 16))
search-found config fuel p q = (
  found-Walk config fuel p q,
  λ r.
      let (n, w, l, h) = r in
      let e : fuel ≡ n + suc (fuel - suc n) = omega (arith, l) in
      ap (λ k. search k config p) e
      ∙ (search-Walk config (suc (fuel - suc n)) w ∙ search-here config (fuel - suc n) q h),
)

-- If the list leads from a word back to the word, the search from any word that leads there never
-- ends: the loop has no bound of its own.
pub search-endless :
    (config : ℕ → ℕ) (fuel k n p q : ℕ)
    → Walk config k p q
    → Walk config (suc n) q q
    → search fuel config p ≡ runs_on
search-endless config fuel k n p q a b = elim (Bool-cases (ltb k fuel)) [
  | inl h ↦
      let e : fuel ≡ k + (fuel - k) = omega (arith, ltb→lt k fuel h) in
      ap (λ x. search x config p) e
      ∙ (search-Walk config (fuel - k) a ∙ endless config (suc fuel) (fuel - k) n q b (omega arith))
  | inr h ↦ short-Walk config fuel a (not-ltb→le k fuel h)
]

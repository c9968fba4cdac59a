-- ===== src/Dirty/Laws.antt =====
-- What a pass over the buffer stores.
use uio_linux_sample.Prelude.{
  ℕ, zero, suc, ◌+◌, ◌*◌, ◌/◌, ◌%◌, ◌^◌, ◌≤◌, ◌<◌, ◌≡◌, ◌≢◌, refl, ap, sym, subst, ◌∙◌, inl, inr,
  Bool, true, false, ◌&&◌, ltb, leb, ◌==◌, Bool-cases, Option, none, some, List, [], ◌∷◌, arith,
  length, get_or, set, replicate, length-set, length-replicate, get_or-set_self, get_or-set_ne,
}
use uio_linux_sample.Dirty.{
  buf_length, increment, dirty_from, dirty, start, buf_num, compare_result,
}

increment-some :
    (xs : List ℕ) (j : ℕ)
    → j < length xs
    → increment xs j ≡ some (set xs j ((get_or xs j 0 + 1) % 2 ^ 8))
unfolding increment
increment-some [] j h = absurd (omega arith)
increment-some (x ∷ xs) zero h = refl
increment-some (x ∷ xs) (suc j) h = rw (increment-some xs j (omega arith))

-- The first byte of one of the `n` kilobytes from kilobyte `i` on.
abbrev pub is_first : ℕ → ℕ → ℕ → Bool
is_first n i k = k % 1024 == 0 && (leb i (k / 1024) && ltb (k / 1024) (i + n))

abbrev pub bumped : Bool → ℕ → ℕ
bumped true x = (x + 1) % 2 ^ 8
bumped false x = x

-- The rounds from round `i` on: each increments the first byte of its kilobyte and no other.
pub record Dirtied (n i : ℕ) (xs : List ℕ) (r : Option (List ℕ)) : Type 0 where
  pub after : List ℕ
  pub returns : r ≡ some after
  pub size : length after ≡ length xs
  pub bytes : (k : ℕ) → get_or after k 0 ≡ bumped (is_first n i k) (get_or xs k 0)

is_first-none : (i k : ℕ) → is_first 0 i k ≡ false
is_first-none i k = ground arith

is_first-here : (n i : ℕ) → is_first (suc n) i (i * 1024) ≡ true
is_first-here n i = ground arith

is_first-past : (n i : ℕ) → is_first n (i + 1) (i * 1024) ≡ false
is_first-past n i = ground arith

is_first-other : (n i k : ℕ) → k ≢ i * 1024 → is_first (suc n) i k ≡ is_first n (i + 1) k
is_first-other n i k h = ground arith

module _ (i : ℕ) (xs : List ℕ) where
  once : List ℕ
  once = set xs (i * 1024) ((get_or xs (i * 1024) 0 + 1) % 2 ^ 8)

  round : (n : ℕ) → i * 1024 < length xs → dirty_from (suc n) i xs ≡ dirty_from n (i + 1) once
  unfolding once dirty_from
  round n h =
      let j : i * buf_length / 4 ≡ i * 1024 = omega arith in
      let e : increment xs (i * buf_length / 4) ≡ some once =
        ap (increment xs) j ∙ increment-some xs (i * 1024) h in
      rw (e, dirty_from) refl

  once-other : (k : ℕ) → k ≢ i * 1024 → get_or once k 0 ≡ get_or xs k 0
  unfolding once
  once-other k h =
      get_or-set_ne xs (i * 1024) k ((get_or xs (i * 1024) 0 + 1) % 2 ^ 8) 0 (λ e. h (sym e))

  once-here : i * 1024 < length xs → get_or once (i * 1024) 0 ≡ (get_or xs (i * 1024) 0 + 1) % 2 ^ 8
  unfolding once
  once-here h = get_or-set_self xs (i * 1024) ((get_or xs (i * 1024) 0 + 1) % 2 ^ 8) 0 h

  length-once : length once ≡ length xs
  unfolding once
  length-once = length-set xs (i * 1024) ((get_or xs (i * 1024) 0 + 1) % 2 ^ 8)

  after_here :
      (n : ℕ) (after : List ℕ)
      → i * 1024 < length xs
      → get_or after (i * 1024) 0
        ≡ bumped (is_first n (i + 1) (i * 1024)) (get_or once (i * 1024) 0)
      → get_or after (i * 1024) 0 ≡ bumped (is_first (suc n) i (i * 1024)) (get_or xs (i * 1024) 0)
  after_here n after h e =
      e
      ∙ ap (λ b. bumped b (get_or once (i * 1024) 0)) (is_first-past n i)
      ∙ once-here h
      ∙ ap (λ b. bumped b (get_or xs (i * 1024) 0)) (sym (is_first-here n i))

  after_round :
      (n k : ℕ) (after : List ℕ)
      → i * 1024 < length xs
      → get_or after k 0 ≡ bumped (is_first n (i + 1) k) (get_or once k 0)
      → get_or after k 0 ≡ bumped (is_first (suc n) i k) (get_or xs k 0)
  after_round n k after h e = elim (Bool-cases (k == i * 1024)) [
    | inl same ↦
        let eq : k ≡ i * 1024 = ground (arith, same) in
        subst
          (λ j.
            get_or after j 0 ≡ bumped (is_first n (i + 1) j) (get_or once j 0)
            → get_or after j 0 ≡ bumped (is_first (suc n) i j) (get_or xs j 0))
          (sym eq) (after_here n after h) e
    | inr other ↦
        let ne : k ≢ i * 1024 = ground (arith, other) in
        e
        ∙ ap (λ x. bumped (is_first n (i + 1) k) x) (once-other k ne)
        ∙ ap (λ b. bumped b (get_or xs k 0)) (sym (is_first-other n i k ne))
  ]

dirty_from-Dirtied :
    (n i : ℕ) (xs : List ℕ) → (i + n) * 1024 ≤ length xs → Dirtied n i xs (dirty_from n i xs)
unfolding dirty_from
dirty_from-Dirtied zero i xs h = record {
  after = xs;
  returns = refl;
  size = refl;
  bytes = λ k. ap (λ b. bumped b (get_or xs k 0)) (sym (is_first-none i k));
}
dirty_from-Dirtied (suc n) i xs h =
    let room : i * 1024 < length xs = omega arith in
    let r = dirty_from-Dirtied n (i + 1) (once i xs) (omega (arith, length-once i xs)) in
    record {
      after = r.after;
      returns = round i xs n room ∙ r.returns;
      size = r.size ∙ length-once i xs;
      bytes = λ k. after_round i xs n k r.after room (r.bytes k);
    }

-- The loop without an end, for `m` passes.
abbrev pub passes : ℕ → ℕ → List ℕ → Option (List ℕ)
passes zero num buf = some buf
passes (suc m) num buf = elim (passes m num buf) [ none ↦ none | some next ↦ dirty num next ]

-- The count of passes in the first byte of each kilobyte, and 0 in all others.
abbrev pub byte_after : ℕ → Bool → ℕ
byte_after m true = m % 2 ^ 8
byte_after m false = 0

bump_byte : (m : ℕ) (b : Bool) → bumped b (byte_after m b) ≡ byte_after (suc m) b
bump_byte m true = omega arith
bump_byte m false = refl

get_or-replicate : (n k : ℕ) → get_or {A = ℕ} (replicate n 0) k 0 ≡ 0
get_or-replicate zero k = refl
get_or-replicate (suc n) zero = refl
get_or-replicate (suc n) (suc k) = get_or-replicate n k

byte_zero : (b : Bool) → byte_after 0 b ≡ 0
byte_zero true = refl
byte_zero false = refl

record Passed (m num : ℕ) (r : Option (List ℕ)) : Type 0 where
  after : List ℕ
  returns : r ≡ some after
  size : length after ≡ num * buf_length
  bytes : (k : ℕ) → get_or after k 0 ≡ byte_after m (is_first (num * 4) 0 k)

passes-Passed : (m num : ℕ) → Passed m num (passes m num (replicate (num * buf_length) 0))
unfolding dirty
passes-Passed zero num = record {
  after = replicate (num * buf_length) 0;
  returns = refl;
  size = length-replicate (num * buf_length) 0;
  bytes = λ k. get_or-replicate (num * buf_length) k ∙ sym (byte_zero (is_first (num * 4) 0 k));
}
passes-Passed (suc m) num =
    let p = passes-Passed m num in
    let r = dirty_from-Dirtied (num * 4) 0 p.after (omega (arith, p.size)) in
    record {
      after = r.after;
      returns = rw p.returns r.returns;
      size = r.size ∙ p.size;
      bytes = λ k.
          r.bytes k
          ∙ ap (bumped (is_first (num * 4) 0 k)) (p.bytes k)
          ∙ bump_byte m (is_first (num * 4) 0 k);
    }

started :
    (c : List ℕ) (num : ℕ) (buf : List ℕ)
    → start c ≡ some (num, buf)
    → buf ≡ replicate (num * buf_length) 0
unfolding start
started c num buf e = elim (Bool-cases (buf_num (compare_result c) == 0)) [
  | inl z ↦ cc (rw z at e)
  | inr n ↦ cc (rw n at e)
]

-- For every text that names a size, any number of passes store within the buffer that was allocated,
-- which has the 4096 bytes of each of its pages, and leave their number (modulo 2^8) in the first
-- byte of each kilobyte and 0 in all other bytes.
pub passes-bytes :
    (c : List ℕ) (num m : ℕ) (buf : List ℕ)
    → start c ≡ some (num, buf)
    → (after : List ℕ) × (passes m num buf ≡ some after)
      × (length after ≡ num * buf_length)
      × ((k : ℕ) → get_or after k 0 ≡ byte_after m (is_first (num * 4) 0 k))
passes-bytes c num m buf e =
    let p = passes-Passed m num in
    (p.after, ap (passes m num) (started c num buf e) ∙ p.returns, p.size, p.bytes)

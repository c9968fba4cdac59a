-- ===== src/Trace/Counters.antt =====
-- The counters of a histogram.
use uio_linux_sample.Prelude.{
  ℕ, zero, suc, ◌+◌, ◌≤◌, ◌<◌, ◌≡◌, refl, ap, Bool, true, false, List, [], ◌∷◌, ◌++◌, map, arith,
  length, set, get_or, All,
}
use uio_linux_sample.Prelude.Words.{u64}

-- The number of delays that a histogram counts.
abbrev pub total : List ℕ → ℕ
total [] = 0
total (c ∷ cs) = c + total cs

pub total-set :
    (cs : List ℕ) (i : ℕ)
    → i < length cs
    → u64 (total (set cs i (u64 (get_or cs i 0 + 1)))) ≡ u64 (suc (total cs))
total-set [] i h = absurd (omega arith)
total-set (c ∷ cs) zero h = omega arith
total-set (c ∷ cs) (suc i) h = omega (arith, total-set cs i (omega arith))

-- for (i = 0; i < n; i++) xs[i] = 0
unfoldable pub zero_counts : ℕ → List ℕ → List ℕ
zero_counts zero xs = xs
zero_counts (suc n) [] = []
zero_counts (suc n) (x ∷ xs) = 0 ∷ zero_counts n xs

pub length-zero_counts : (n : ℕ) (xs : List ℕ) → length (zero_counts n xs) ≡ length xs
unfolding zero_counts
length-zero_counts zero xs = refl
length-zero_counts (suc n) [] = refl
length-zero_counts (suc n) (x ∷ xs) = ap suc (length-zero_counts n xs)

pub total-zero_counts : (n : ℕ) (xs : List ℕ) → length xs ≤ n → total (zero_counts n xs) ≡ 0
unfolding zero_counts
total-zero_counts zero [] h = refl
total-zero_counts zero (x ∷ xs) h = absurd (omega arith)
total-zero_counts (suc n) [] h = refl
total-zero_counts (suc n) (x ∷ xs) h = omega (arith, total-zero_counts n xs (omega arith))

-- sums[i] += count[i], on u64
unfoldable pub add_counts : List ℕ → List ℕ → List ℕ
add_counts [] count = []
add_counts (a ∷ as') [] = a ∷ as'
add_counts (a ∷ as') (b ∷ bs) = u64 (a + b) ∷ add_counts as' bs

pub length-add_counts : (xs ys : List ℕ) → length (add_counts xs ys) ≡ length xs
unfolding add_counts
length-add_counts [] ys = refl
length-add_counts (x ∷ xs) [] = refl
length-add_counts (x ∷ xs) (y ∷ ys) = ap suc (length-add_counts xs ys)

pub total-add_counts :
    (xs ys : List ℕ)
    → length ys ≤ length xs
    → u64 (total (add_counts xs ys)) ≡ u64 (total xs + total ys)
unfolding add_counts
total-add_counts [] [] h = refl
total-add_counts [] (y ∷ ys) h = absurd (omega arith)
total-add_counts (x ∷ xs) [] h = omega arith
total-add_counts (x ∷ xs) (y ∷ ys) h = omega (arith, total-add_counts xs ys (omega arith))

-- A number of each CPU, summed up.
abbrev pub sum_over {ℓ} : {A : Type ℓ} → (A → ℕ) → List A → ℕ
sum_over f [] = 0
sum_over f (x ∷ xs) = f x + sum_over f xs

abbrev pub suc_if : Bool → ℕ → ℕ
suc_if true n = suc n
suc_if false n = n

pub suc_if_cong : (b : Bool) (m n : ℕ) → u64 m ≡ u64 n → u64 (suc_if b m) ≡ u64 (suc_if b n)
suc_if_cong true m n h = omega (arith, h)
suc_if_cong false m n h = h

-- One CPU's number grows by one, or stays.
pub sum_over-replace {ℓ} :
    {A : Type ℓ} (f : A → ℕ) (b : Bool) (before after : List A) (p q : A)
    → u64 (f q) ≡ u64 (suc_if b (f p))
    → u64 (sum_over f (before ++ q ∷ after)) ≡ u64 (suc_if b (sum_over f (before ++ p ∷ after)))
sum_over-replace f true [] after p q h = omega (arith, h)
sum_over-replace f false [] after p q h = omega (arith, h)
sum_over-replace f true (x ∷ before) after p q h =
    omega (arith, sum_over-replace f true before after p q h)
sum_over-replace f false (x ∷ before) after p q h =
    omega (arith, sum_over-replace f false before after p q h)

pub sum_over-map {ℓ} :
    {A : Type ℓ} (f : A → ℕ) (g : A → A)
    → ((x : A) → f (g x) ≡ f x)
    → (xs : List A) → sum_over f (map g xs) ≡ sum_over f xs
sum_over-map f g h [] = refl
sum_over-map f g h (x ∷ xs) = omega (arith, h x, sum_over-map f g h xs)

pub sum_over-zero {ℓ κ} :
    {A : Type ℓ} (P : A → Type κ) (f : A → ℕ) (g : A → A)
    → ((x : A) → P x → f (g x) ≡ 0)
    → (xs : List A) → All P xs
    → sum_over f (map g xs) ≡ 0
sum_over-zero P f g h [] a = refl
sum_over-zero P f g h (x ∷ xs) a = omega (arith, h x a.0, sum_over-zero P f g h xs a.1)

pub sum_over-swap {ℓ} :
    {A : Type ℓ} (f : A → ℕ) (before after : List A) (p q : A)
    → sum_over f (before ++ q ∷ after) + f p ≡ sum_over f (before ++ p ∷ after) + f q
sum_over-swap f [] after p q = omega arith
sum_over-swap f (x ∷ before) after p q = omega (arith, sum_over-swap f before after p q)

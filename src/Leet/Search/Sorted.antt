-- ===== src/Leet/Search/Sorted.antt =====
-- Lists of integers in order, and the index at which one may be inserted.
use uio_linux_sample.Prelude.{
  ℕ, zero, suc, ◌≤◌, ◌<◌, ◌≡◌, refl, sym, true, false, some, List, [], ◌∷◌, arith, get_elem?,
  length, take, drop, subst, ◌⊎◌, All,
}
use uio_linux_sample.Prelude.Words.{ℤ, ltb_ℤ}

-- Orders with the target on the left: v ≤ t, t ≤ v, v < t, t < v and v ≠ t.
abbrev pub AtMost : ℤ → ℤ → Type 0
AtMost t v = ltb_ℤ t v ≡ false

abbrev pub AtLeast : ℤ → ℤ → Type 0
AtLeast t v = ltb_ℤ v t ≡ false

abbrev pub Less : ℤ → ℤ → Type 0
Less t v = ltb_ℤ v t ≡ true

abbrev pub Greater : ℤ → ℤ → Type 0
Greater t v = ltb_ℤ t v ≡ true

abbrev pub Differs : ℤ → ℤ → Type 0
Differs t v = Less t v ⊎ Greater t v

abbrev pub IsSorted : List ℤ → Type 0
IsSorted [] = Unit
IsSorted (x ∷ xs) = All (AtLeast x) xs × IsSorted xs

-- The target may be inserted at `r`, and stands there if it is in the array.
pub record Fits (nums : List ℤ) (target : ℤ) (r : ℕ) : Type 0 where
  pub inside : r ≤ length nums
  pub before : All (AtMost target) (take r nums)
  pub from : All (AtLeast target) (drop r nums)
  pub found : (get_elem? nums r ≡ some target) ⊎ All (Differs target) nums

pub some-injective : (x v : ℤ) → some x ≡ some v → x ≡ v
some-injective x v e = cc

pub get-lt : (xs : List ℤ) (i : ℕ) → i < length xs → (v : ℤ) × (get_elem? xs i ≡ some v)
get-lt [] i h = absurd (omega arith)
get-lt (x ∷ xs) zero h = (x, refl)
get-lt (x ∷ xs) (suc i) h = get-lt xs i (omega arith)

module _ (P : ℤ → Type 0) where
  pub All-get : (xs : List ℤ) (i : ℕ) (v : ℤ) → All P xs → get_elem? xs i ≡ some v → P v
  All-get [] i v h e = cc
  All-get (x ∷ xs) zero v h e = subst P (some-injective x v e) h.0
  All-get (x ∷ xs) (suc i) v h e = All-get xs i v h.1 e

  pub All-take-suc :
      (xs : List ℤ) (i : ℕ) (v : ℤ)
      → All P (take i xs)
      → get_elem? xs i ≡ some v
      → P v
      → All P (take (suc i) xs)
  All-take-suc [] i v h e p = tt
  All-take-suc (x ∷ xs) zero v h e p = (subst P (sym (some-injective x v e)) p, tt)
  All-take-suc (x ∷ xs) (suc i) v h e p = (h.0, All-take-suc xs i v h.1 e p)

  pub All-drop :
      (xs : List ℤ) (i : ℕ) (v : ℤ)
      → get_elem? xs i ≡ some v
      → P v
      → All P (drop (suc i) xs)
      → All P (drop i xs)
  All-drop [] i v e p h = cc
  All-drop (x ∷ xs) zero v e p h = (subst P (sym (some-injective x v e)) p, h)
  All-drop (x ∷ xs) (suc i) v e p h = All-drop xs i v e p h

  pub All-split : (xs : List ℤ) (i : ℕ) → All P (take i xs) → All P (drop i xs) → All P xs
  All-split xs zero h k = k
  All-split [] (suc i) h k = tt
  All-split (x ∷ xs) (suc i) h k = (h.0, All-split xs i h.1 k)

pub sorted-drop :
    (xs : List ℤ) (i : ℕ) (v : ℤ)
    → IsSorted xs
    → get_elem? xs i ≡ some v
    → All (AtLeast v) (drop (suc i) xs)
sorted-drop [] i v s e = cc
sorted-drop (x ∷ xs) zero v s e = subst (λ y. All (AtLeast y) xs) (some-injective x v e) s.0
sorted-drop (x ∷ xs) (suc i) v s e = sorted-drop xs i v s.1 e

pub sorted-take :
    (xs : List ℤ) (i : ℕ) (v : ℤ)
    → IsSorted xs
    → get_elem? xs i ≡ some v
    → All (AtMost v) (take i xs)
sorted-take xs zero v s e = tt
sorted-take [] (suc i) v s e = tt
sorted-take (x ∷ xs) (suc i) v s e = (All-get (AtLeast x) xs i v s.0 e, sorted-take xs i v s.1 e)

pub elim-nil : (P : ℤ → Type 0) (nums : List ℤ) → length nums ≤ 0 → All P nums
elim-nil P [] h = tt
elim-nil P (x ∷ xs) h = absurd (omega arith)

pub drop-all : (P : ℤ → Type 0) (nums : List ℤ) (n : ℕ) → length nums ≤ n → All P (drop n nums)
drop-all P nums zero h = elim-nil P nums h
drop-all P [] (suc n) h = tt
drop-all P (x ∷ xs) (suc n) h = drop-all P xs n (omega arith)

-- ===== src/Prelude/Words.antt =====
-- Machine words as native numbers: a `u64` and an `unsigned long` wrap at 2 ^ 64, an
-- `unsigned int` at 2 ^ 32, and a negative `int` is an error code or an invalid number.
use Prim.Native.Nat.{ℕ, ◌+◌, ◌-◌, ◌%◌, ◌^◌}
use mathlib.Core.Path.{◌≡◌, refl, ap}
use mathlib.Core.Logic.{◌↔◌}
use mathlib.Core.Bool.{Bool, true, false}
use native.Mathlib.Omega.{arith}
use uio_linux_sample.Prelude.Tests.{ltb, ◌==◌}

abbrev pub u64 : ℕ → ℕ
u64 x = x % 2 ^ 64

abbrev pub u32 : ℕ → ℕ
u32 x = x % 2 ^ 32

-- `a - b` on `u64`; `-` on ℕ stops at 0, so the modulus is added first.
abbrev pub sub64 : ℕ → ℕ → ℕ
sub64 a b = (a + 2 ^ 64 - b) % 2 ^ 64

abbrev pub sub32 : ℕ → ℕ → ℕ
sub32 a b = (a + 2 ^ 32 - b) % 2 ^ 32

-- `negsuc n` is -(n + 1).
pub data ℤ : Type 0 where
  pos : ℕ → ℤ
  negsuc : ℕ → ℤ

abbrev pub eqb_ℤ : ℤ → ℤ → Bool
eqb_ℤ (pos a) (pos b) = a == b
eqb_ℤ (pos a) (negsuc b) = false
eqb_ℤ (negsuc a) (pos b) = false
eqb_ℤ (negsuc a) (negsuc b) = a == b

pub eqb_ℤ_iff : (a b : ℤ) → (eqb_ℤ a b ≡ true) ↔ (a ≡ b)
eqb_ℤ_iff a b = ground arith

abbrev pub ltb_ℤ : ℤ → ℤ → Bool
ltb_ℤ (pos a) (pos b) = ltb a b
ltb_ℤ (pos a) (negsuc b) = false
ltb_ℤ (negsuc a) (pos b) = true
ltb_ℤ (negsuc a) (negsuc b) = ltb b a

-- a ≤ b < c
pub ltb_ℤ_le_lt : (a b c : ℤ) → ltb_ℤ b a ≡ false → ltb_ℤ b c ≡ true → ltb_ℤ a c ≡ true
ltb_ℤ_le_lt (pos a) (pos b) (pos c) h k = ground arith
ltb_ℤ_le_lt (pos a) (pos b) (negsuc c) h k = cc
ltb_ℤ_le_lt (pos a) (negsuc b) c h k = cc
ltb_ℤ_le_lt (negsuc a) (pos b) (pos c) h k = refl
ltb_ℤ_le_lt (negsuc a) (pos b) (negsuc c) h k = cc
ltb_ℤ_le_lt (negsuc a) (negsuc b) (pos c) h k = refl
ltb_ℤ_le_lt (negsuc a) (negsuc b) (negsuc c) h k = ground arith

-- a < b ≤ c
pub ltb_ℤ_lt_le : (a b c : ℤ) → ltb_ℤ a b ≡ true → ltb_ℤ c b ≡ false → ltb_ℤ a c ≡ true
ltb_ℤ_lt_le (pos a) (pos b) (pos c) h k = ground arith
ltb_ℤ_lt_le (pos a) (pos b) (negsuc c) h k = cc
ltb_ℤ_lt_le (pos a) (negsuc b) c h k = cc
ltb_ℤ_lt_le (negsuc a) (pos b) (pos c) h k = refl
ltb_ℤ_lt_le (negsuc a) (pos b) (negsuc c) h k = cc
ltb_ℤ_lt_le (negsuc a) (negsuc b) (pos c) h k = refl
ltb_ℤ_lt_le (negsuc a) (negsuc b) (negsuc c) h k = ground arith

pub ltb_ℤ_asym : (a b : ℤ) → ltb_ℤ a b ≡ true → ltb_ℤ b a ≡ false
ltb_ℤ_asym (pos a) (pos b) h = ground arith
ltb_ℤ_asym (pos a) (negsuc b) h = cc
ltb_ℤ_asym (negsuc a) (pos b) h = refl
ltb_ℤ_asym (negsuc a) (negsuc b) h = ground arith

pub ltb_ℤ_antisym : (a b : ℤ) → ltb_ℤ a b ≡ false → ltb_ℤ b a ≡ false → a ≡ b
ltb_ℤ_antisym (pos a) (pos b) h k = ap pos (ground arith)
ltb_ℤ_antisym (pos a) (negsuc b) h k = cc
ltb_ℤ_antisym (negsuc a) (pos b) h k = cc
ltb_ℤ_antisym (negsuc a) (negsuc b) h k = ap negsuc (ground arith)

pub ltb_ℤ_irrefl : (a : ℤ) → ltb_ℤ a a ≡ false
ltb_ℤ_irrefl (pos a) = ground arith
ltb_ℤ_irrefl (negsuc a) = ground arith

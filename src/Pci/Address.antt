-- ===== src/Pci/Address.antt =====
-- The addresses that show_pci.c maps.
use uio_linux_sample.Prelude.{
  ℕ, zero, suc, ◌/◌, ◌%◌, ◌^◌, ◌<◌, ◌≡◌, refl, ap, arith, ◌==◌, ◌&&◌, Bool, true, inl, inr, ◌∙◌,
}
use uio_linux_sample.Pci.Walk.{ℕ-cases}
use uio_linux_sample.Pci.Scan.{max_bus, max_dev, max_fun, address}

-- A test of all numbers below n.
abbrev all_below : ℕ → (ℕ → Bool) → Bool
all_below zero f = true
all_below (suc n) f = f n && all_below n f

&&-left : (a b : Bool) → (a && b) ≡ true → a ≡ true
&&-left a b h = ground arith

&&-right : (a b : Bool) → (a && b) ≡ true → b ≡ true
&&-right a b h = ground arith

all_below_lem : (n : ℕ) (f : ℕ → Bool) → all_below n f ≡ true → (i : ℕ) → i < n → f i ≡ true
all_below_lem zero f h i l = absurd (omega arith)
all_below_lem (suc n) f h i l = elim (ℕ-cases i n) [
  | inl e ↦ ap f e ∙ &&-left (f n) (all_below n f) h
  | inr ne ↦ all_below_lem n f (&&-right (f n) (all_below n f) h) i (omega (arith, l, ne))
]

abbrev decodes : ℕ → ℕ → ℕ → Bool
decodes bus dev fun =
    address bus dev fun / 2 ^ 20 % 2 ^ 7 == bus
    && (address bus dev fun / 2 ^ 15 % 2 ^ 5 == dev && address bus dev fun / 2 ^ 12 % 2 ^ 3 == fun)

abbrev decodes_all : Bool
decodes_all =
    all_below max_bus
      (λ bus. all_below max_dev (λ dev. all_below max_fun (λ fun. decodes bus dev fun)))

decodes_all_lem : decodes_all ≡ true
decodes_all_lem = refl

==-eq : (a b : ℕ) → (a == b) ≡ true → a ≡ b
==-eq a b h = ground arith

-- The bus, the device and the function are read off the address that is mapped for them, so that
-- different functions have different addresses.
pub address-decoded :
    (bus dev fun : ℕ)
    → bus < max_bus
    → dev < max_dev
    → fun < max_fun
    → (address bus dev fun / 2 ^ 20 % 2 ^ 7 ≡ bus)
      × (address bus dev fun / 2 ^ 15 % 2 ^ 5 ≡ dev)
      × (address bus dev fun / 2 ^ 12 % 2 ^ 3 ≡ fun)
address-decoded bus dev fun h k l =
    let buses =
      all_below_lem max_bus (λ b. all_below max_dev (λ d. all_below max_fun (decodes b d)))
        decodes_all_lem bus h in
    let devs = all_below_lem max_dev (λ d. all_below max_fun (decodes bus d)) buses dev k in
    let all = all_below_lem max_fun (decodes bus dev) devs fun l in
    let b = address bus dev fun / 2 ^ 20 % 2 ^ 7 == bus in
    let d = address bus dev fun / 2 ^ 15 % 2 ^ 5 == dev in
    let f = address bus dev fun / 2 ^ 12 % 2 ^ 3 == fun in
    let two = &&-right b (d && f) all in
    (
      ==-eq _ bus (&&-left b (d && f) all),
      ==-eq _ dev (&&-left d f two),
      ==-eq _ fun (&&-right d f two),
    )

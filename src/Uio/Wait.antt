-- ===== src/Uio/Wait.antt =====
-- The loop of uio/uiopci.c that waits for interrupts, which qemu_pci/tedu.c repeats five times.
use uio_linux_sample.Prelude.{
  ℕ, ◌-◌, ◌/◌, ◌%◌, ◌≡◌, refl, ap, inl, inr, Bool, true, false, not, Option, none, some, List, [],
  ◌∷◌, arith, take, ◌==◌, Bool-cases, if◌then◌else◌, All,
}
use uio_linux_sample.Prelude.Words.{ℤ, pos, eqb_ℤ}

-- command_high &= ~0x4, on an unsigned char
unfoldable pub enable_intx : ℕ → ℕ
enable_intx command_high = if (command_high / 4) % 2 == 1 then command_high - 4 else command_high

-- What a round of the loop does, in order: a message, a byte that is written to the configuration
-- space, and a read of the number of interrupts, which waits for the next one.
pub data Event : Type 0 where
  started : Event
  interrupts : ℕ → Event
  writes_command : ℕ → Event
  waits : Event

-- The answers of pwrite and read in a round, and what the read stores.
pub record Round : Type 0 where
  pub pwrite : ℤ
  pub read : ℤ
  pub icount : ℕ

abbrev pub is : ℤ → ℕ → Bool
is err n = eqb_ℤ err (pos n)

abbrev pub message : Bool → ℕ → Event
message true icount = started
message false icount = interrupts icount

-- The rounds from one on: whether it is the first, and the number that was read last. The loop also
-- ends with the list of rounds.
unfoldable pub wait_from : ℕ → Bool → ℕ → List Round → List Event
wait_from command_high first icount [] = []
wait_from command_high first icount (r ∷ rs) =
    let rest = wait_from command_high false r.icount rs in
    message first icount
    ∷ writes_command command_high
    ∷ (if not (is r.pwrite 1) then [] else if not (is r.read 4) then waits ∷ [] else waits ∷ rest)

-- main of uiopci.c from the read of the command register on; `command` is the byte, or `none` if the
-- read fails. icount is not set before the first read.
unfoldable pub wait : Option ℕ → ℕ → List Round → List Event
wait none icount rounds = []
wait (some command_high) icount rounds = wait_from (enable_intx command_high) true icount rounds

-- The loop of tedu.c.
unfoldable pub wait_five : Option ℕ → ℕ → List Round → List Event
wait_five command icount rounds = wait command icount (take 5 rounds)

-- Bit 2 is cleared and no other.
enable_intx-bits :
    (c : ℕ)
    → ((enable_intx c / 4) % 2 ≡ 0) × (enable_intx c % 4 ≡ c % 4) × (enable_intx c / 8 ≡ c / 8)
unfolding enable_intx
enable_intx-bits c = elim (Bool-cases ((c / 4) % 2 == 1)) [
  | inl e ↦
      let set : (c / 4) % 2 ≡ 1 = ground (arith, e) in rw e (omega arith, omega arith, omega arith)
  | inr e ↦
      let clear : (c / 4) % 2 ≡ 0 = ground (arith, e) in
      rw e (omega arith, omega arith, omega arith)
]

abbrev pub Succeeds : Round → Type 0
Succeeds r = (is r.pwrite 1 ≡ true) × (is r.read 4 ≡ true)

-- Each wait stands behind a write of the command register, and the message before it shows what the
-- wait before gave.
abbrev pub expected : ℕ → Event → List Round → List Event
expected command_high first [] = []
expected command_high first (r ∷ rs) =
    first ∷ writes_command command_high ∷ waits ∷ expected command_high (interrupts r.icount) rs

wait_from-expected :
    (command_high : ℕ) (first : Bool) (icount : ℕ) (rs : List Round)
    → All Succeeds rs
    → wait_from command_high first icount rs ≡ expected command_high (message first icount) rs
unfolding wait_from
wait_from-expected c first icount [] h = refl
wait_from-expected c first icount (r ∷ rs) h =
    rw (h.0.0, h.0.1)
      (ap (λ es. message first icount ∷ writes_command c ∷ waits ∷ es)
        (wait_from-expected c false r.icount rs h.1))

-- While all writes and reads succeed, each wait follows a write of the command register with its
-- bit 2 cleared and all others kept, and each message but the first shows the number that the wait
-- before it gave.
pub wait-expected :
    (command icount : ℕ) (rs : List Round)
    → All Succeeds rs
    → (c : ℕ) × (wait (some command) icount rs ≡ expected c started rs)
      × ((c / 4) % 2 ≡ 0)
      × (c % 4 ≡ command % 4)
      × (c / 8 ≡ command / 8)
unfolding wait
wait-expected command icount rs h =
    let (a, b, d) = enable_intx-bits command in
    (enable_intx command, wait_from-expected (enable_intx command) true icount rs h, a, b, d)

-- ===== src/Taskinfo/State.antt =====
-- get_task_state of taskinfo.c: the name of a task's state from an array.
use Prim.Native.Nat.{bit_and, bit_or}
use native.Mathlib.Nat.{two-pow-succ}
use uio_linux_sample.Prelude.{
  not, ℕ, zero, suc, ◌^◌, ◌≤◌, ◌<◌, ◌≡◌, ◌↔◌, refl, arith, ◌==◌, inl, inr, Option, none, List, [],
  ◌∷◌, get_elem?,
}
use uio_linux_sample.Trace.Shift.{shift_while, Halves, shift_while_zero-Halves}

pub data TaskState : Type 0 where
  running sleeping disk_sleep stopped tracing_stop zombie dead : TaskState

abbrev pub task_state_array : List TaskState
task_state_array = running ∷ sleeping ∷ disk_sleep ∷ stopped ∷ tracing_stop ∷ zombie ∷ dead ∷ []

-- TASK_REPORT is the kernel's.
abbrev pub state_of : ℕ → ℕ → ℕ → ℕ
state_of task_report state exit_state = bit_or (bit_and state task_report) exit_state

-- `none` is a read behind the array.
unfoldable pub get_task_state : ℕ → ℕ → ℕ → Option TaskState
get_task_state task_report state exit_state =
    get_elem? task_state_array
      (shift_while 32 (λ x. not (x == 0)) (state_of task_report state exit_state) 0)

pow-seven : (j : ℕ) → 128 ≤ 2 ^ suc (suc (suc (suc (suc (suc (suc j))))))
pow-seven zero = omega arith
pow-seven (suc j) = rw two-pow-succ (omega (arith, pow-seven j))

-- Which of the names is read, by the number of binary digits.
name-bounds :
    (state k : ℕ) → Halves 1 state k → (get_elem? task_state_array k ≡ none) ↔ (64 ≤ state)
name-bounds state zero h = (λ e. absurd cc, λ l. absurd (omega (arith, h.0)))
name-bounds state (suc zero) h = (λ e. absurd cc, λ l. absurd (omega (arith, h.0)))
name-bounds state (suc (suc zero)) h = (λ e. absurd cc, λ l. absurd (omega (arith, h.0)))
name-bounds state (suc (suc (suc zero))) h = (λ e. absurd cc, λ l. absurd (omega (arith, h.0)))
name-bounds state (suc (suc (suc (suc zero)))) h =
    (λ e. absurd cc, λ l. absurd (omega (arith, h.0)))
name-bounds state (suc (suc (suc (suc (suc zero))))) h =
    (λ e. absurd cc, λ l. absurd (omega (arith, h.0)))
name-bounds state (suc (suc (suc (suc (suc (suc zero)))))) h =
    (λ e. absurd cc, λ l. absurd (omega (arith, h.0)))
name-bounds state (suc (suc (suc (suc (suc (suc (suc j))))))) (a, inl e) = absurd (omega (arith, e))
name-bounds state (suc (suc (suc (suc (suc (suc (suc j))))))) (a, inr l) =
    (λ e. omega (arith, l, pow-seven j), λ m. refl)

-- For a state word of 32 bits, with the bits that are reported and the exit state: the loop ends
-- within 32 rounds, the name is the one at the number of binary digits of the word, and the array
-- is read behind its end exactly if the word is 64 or more.
pub get_task_state-bounds :
    (task_report state exit_state : ℕ)
    → state_of task_report state exit_state < 2 ^ 32
    → (k : ℕ) × (get_task_state task_report state exit_state ≡ get_elem? task_state_array k)
      × Halves 1 (state_of task_report state exit_state) k
      × ((get_task_state task_report state exit_state ≡ none)
          ↔ (64 ≤ state_of task_report state exit_state))
unfolding get_task_state
get_task_state-bounds task_report state exit_state h =
    let word = state_of task_report state exit_state in
    let k = shift_while 32 (λ x. not (x == 0)) word 0 in
    let halves =
      shift_while_zero-Halves 32 (λ x. not (x == 0)) 1 word (λ x. ground arith) (omega arith) h in
    (k, refl, halves, name-bounds word k halves)

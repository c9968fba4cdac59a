-- ===== src/Leet/Search.antt =====
-- search of dichotomy.c. `right` starts at numsSize - 1; the model's subtraction stops at 0, where
-- that of the source gives -1, and in both the loop is not entered.
pub mod Laws
pub mod Sorted
use uio_linux_sample.Prelude.{
  ℕ, zero, suc, ◌+◌, ◌-◌, ◌/◌, Bool, Option, none, some, List, ltb, if◌then◌else◌, get_elem?,
  length,
}
use uio_linux_sample.Prelude.Words.{ℤ, ltb_ℤ}

pub data Outcome : Type 0 where
  returns : ℕ → Outcome
  out_of_bounds runs_on : Outcome

-- The two tests after the loop.
abbrev pub insert_at : ℤ → ℕ → Option ℤ → Outcome
insert_at target left none = out_of_bounds
insert_at target left (some v) = if ltb_ℤ v target then returns (left + 1) else returns left

-- The comparisons in the loop, with the outcomes of going on in the lower and the upper half.
abbrev pub compared : ℤ → ℕ → Option ℤ → Outcome → Outcome → Outcome
compared target half none lower upper = out_of_bounds
compared target half (some v) lower upper =
    if ltb_ℤ target v then lower else if ltb_ℤ v target then upper else returns half

-- The loop, with a bound of its rounds as fuel.
unfoldable pub search_loop : ℕ → List ℤ → ℤ → ℕ → ℕ → Outcome
search_loop zero nums target left right = runs_on
search_loop (suc fuel) nums target left right =
    let half = left + (right - left) / 2 in
    let lower = search_loop fuel nums target left half in
    let upper = search_loop fuel nums target (half + 1) right in
    if ltb left right
    then compared target half (get_elem? nums half) lower upper
    else insert_at target left (get_elem? nums left)

-- As many rounds as the array has elements are enough.
unfoldable pub search : List ℤ → ℕ → ℤ → Outcome
search nums nums_size target = search_loop (nums_size + 1) nums target 0 (nums_size - 1)

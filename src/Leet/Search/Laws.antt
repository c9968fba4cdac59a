-- ===== src/Leet/Search/Laws.antt =====
-- The index that search gives.
use uio_linux_sample.Prelude.{
  ℕ, zero, suc, ◌+◌, ◌-◌, ◌/◌, ◌≤◌, ◌<◌, ◌≡◌, refl, true, false, inl, inr, some, List, [], arith,
  ltb, get_elem?, length, take, drop, subst, ◌⊎◌, All, All-map, Bool-cases,
}
use uio_linux_sample.Prelude.Words.{
  ℤ, ltb_ℤ, ltb_ℤ_le_lt, ltb_ℤ_lt_le, ltb_ℤ_asym, ltb_ℤ_antisym, ltb_ℤ_irrefl,
}
use uio_linux_sample.Leet.Search.{returns, out_of_bounds, insert_at, search_loop, search}
use uio_linux_sample.Leet.Search.Sorted.{
  All-drop, All-split, All-take-suc, AtLeast, AtMost, Differs, Fits, Greater, IsSorted, Less,
  drop-all, get-lt, sorted-drop, sorted-take,
}

-- The invariant of the loop.
record Inv (nums : List ℤ) (target : ℤ) (left right : ℕ) : Type 0 where
  ordered : left ≤ right
  inside : right < length nums
  below : All (Less target) (take left nums)
  above : All (Greater target) (drop (suc right) nums)

module _ (nums : List ℤ) (target : ℤ) (sorted : IsSorted nums) where
  lower-Inv :
      (left right half : ℕ) (v : ℤ)
      → Inv nums target left right
      → get_elem? nums half ≡ some v
      → ltb_ℤ target v ≡ true
      → left ≤ half
      → half < length nums
      → Inv nums target left half
  lower-Inv left right half v n e lt h k = record {
    ordered = h;
    inside = k;
    below = n.below;
    above =
        All-map (AtLeast v) (Greater target) (λ w le. ltb_ℤ_lt_le target v w lt le)
          (drop (suc half) nums) (sorted-drop nums half v sorted e);
  }

  upper-Inv :
      (left right half : ℕ) (v : ℤ)
      → Inv nums target left right
      → get_elem? nums half ≡ some v
      → ltb_ℤ v target ≡ true
      → half < right
      → Inv nums target (half + 1) right
  upper-Inv left right half v n e lt h = record {
    ordered = omega arith;
    inside = n.inside;
    below =
        let next : suc half ≡ half + 1 = omega arith in
        subst (λ k. All (Less target) (take k nums)) next
          (All-take-suc (Less target) nums half v
            (All-map (AtMost v) (Less target) (λ w le. ltb_ℤ_le_lt w v target le lt)
              (take half nums) (sorted-take nums half v sorted e))
            e lt);
    above = n.above;
  }

  equal-Fits :
      (half : ℕ) (v : ℤ)
      → get_elem? nums half ≡ some v
      → ltb_ℤ target v ≡ false
      → ltb_ℤ v target ≡ false
      → half < length nums
      → Fits nums target half
  equal-Fits half v e le ge h =
      let same = ltb_ℤ_antisym v target ge le in
      let e' = subst (λ w. get_elem? nums half ≡ some w) same e in
      record {
        inside = omega arith;
        before = sorted-take nums half target sorted e';
        from =
            All-drop (AtLeast target) nums half target e' (ltb_ℤ_irrefl target)
              (sorted-drop nums half target sorted e');
        found = inl e';
      }

  Less→AtMost : (v : ℤ) → Less target v → AtMost target v
  Less→AtMost v lt = ltb_ℤ_asym v target lt

  Greater→AtLeast : (v : ℤ) → Greater target v → AtLeast target v
  Greater→AtLeast v lt = ltb_ℤ_asym target v lt

  here-Fits :
      (left : ℕ) (v : ℤ)
      → Inv nums target left left
      → get_elem? nums left ≡ some v
      → ltb_ℤ v target ≡ false
      → (ltb_ℤ target v ≡ true) ⊎ (ltb_ℤ target v ≡ false)
      → Fits nums target left
  here-Fits left v n e ge (inr le) = equal-Fits left v e le ge n.inside
  here-Fits left v n e ge (inl gt) =
      let above = All-drop (Greater target) nums left v e gt n.above in
      record {
        inside = omega (arith, n.inside);
        before = All-map (Less target) (AtMost target) Less→AtMost (take left nums) n.below;
        from = All-map (Greater target) (AtLeast target) Greater→AtLeast (drop left nums) above;
        found = inr (
            All-split (Differs target) nums left
              (All-map (Less target) (Differs target) (λ w h. inl h) (take left nums) n.below)
              (All-map (Greater target) (Differs target) (λ w h. inr h) (drop left nums) above));
      }

  -- After the loop.
  end-Fits :
      (left : ℕ) (v : ℤ)
      → Inv nums target left left
      → get_elem? nums left ≡ some v
      → (r : ℕ) × (insert_at target left (some v) ≡ returns r) × Fits nums target r
  end-Fits left v n e = elim (Bool-cases (ltb_ℤ v target)) [
    | inl lt ↦
        let next : suc left ≡ left + 1 = omega arith in
        let below =
          subst (λ k. All (Less target) (take k nums)) next
            (All-take-suc (Less target) nums left v n.below e lt) in
        let above = subst (λ k. All (Greater target) (drop k nums)) next n.above in
        (
          left + 1,
          rw lt refl,
          record {
            inside = omega (arith, n.inside);
            before = All-map (Less target) (AtMost target) Less→AtMost (take (left + 1) nums) below;
            from =
                All-map (Greater target) (AtLeast target) Greater→AtLeast (drop (left + 1) nums)
                  above;
            found = inr (
                All-split (Differs target) nums (left + 1)
                  (All-map (Less target) (Differs target) (λ w h. inl h) (take (left + 1) nums)
                    below)
                  (All-map (Greater target) (Differs target) (λ w h. inr h) (drop (left + 1) nums)
                    above));
          },
        )
    | inr ge ↦ (left, rw ge refl, here-Fits left v n e ge (Bool-cases (ltb_ℤ target v)))
  ]

  search_loop-Fits :
      (fuel left right : ℕ)
      → Inv nums target left right
      → right < left + fuel
      → (r : ℕ) × (search_loop fuel nums target left right ≡ returns r) × Fits nums target r
  unfolding search_loop
  search_loop-Fits zero left right n h = absurd (omega (arith, n.ordered))
  search_loop-Fits (suc fuel) left right n h = elim (Bool-cases (ltb left right)) [
    | inl more ↦
        let half = left + (right - left) / 2 in
        let lt : left < right = ground arith in
        let (v, e) = get-lt nums half (omega (arith, n.inside)) in
        elim (Bool-cases (ltb_ℤ target v)) [
          | inl a ↦
              rw (more, e, a)
                (search_loop-Fits fuel left half
                  (lower-Inv left right half v n e a (omega arith) (omega (arith, n.inside)))
                  (omega arith))
          | inr a ↦ elim (Bool-cases (ltb_ℤ v target)) [
            | inl b ↦
                rw (more, e, a, b)
                  (search_loop-Fits fuel (half + 1) right
                    (upper-Inv left right half v n e b (omega arith)) (omega arith))
            | inr b ↦
                rw (more, e, a, b) (half, refl, equal-Fits half v e a b (omega (arith, n.inside)))
          ]
        ]
    | inr done ↦
        let same : right ≡ left = ground (arith, n.ordered) in
        let n' = subst (Inv nums target left) same n in
        let (v, e) = get-lt nums left n'.inside in rw (done, e) (end-Fits left v n' e)
  ]

-- For a sorted array with at least one element, search reads inside the array and returns, within
-- as many rounds as there are elements and one, an index at which the target may be inserted: no
-- element before it is greater and none from it on is less. If the target is in the array, it stands
-- at that index.
pub search-Fits :
    (nums : List ℤ) (target : ℤ)
    → IsSorted nums
    → 0 < length nums
    → (r : ℕ) × (search nums (length nums) target ≡ returns r) × Fits nums target r
unfolding search
search-Fits nums target sorted h =
    search_loop-Fits nums target sorted (length nums + 1) 0 (length nums - 1)
      (record {
        ordered = omega arith;
        inside = omega arith;
        below = tt;
        above = drop-all (λ v. ltb_ℤ target v ≡ true) nums (suc (length nums - 1)) (omega arith);
      })
      (omega arith)

-- An empty array is read at index 0.
search_empty : (target : ℤ) → search [] 0 target ≡ out_of_bounds
unfolding search search_loop
search_empty target = refl

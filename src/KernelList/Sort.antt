-- ===== src/KernelList/Sort.antt =====
-- The ordered operations of lib/kernel/list.c, over the sequence of a list's elements. A loop over
-- list elements is a recursion on the elements that are left.
pub mod Order
pub mod Runs
pub mod Merge
pub mod Sorted
pub mod Extremes
mod Tests
use pintos_vm.Base.{
  ℕ, zero, suc, ◌+◌, Bool, true, false, not, List, [], ◌∷◌, ◌++◌, ltb, if◌then◌else◌, length,
  Option, none, some, ◌&&◌,
}

module _ {ℓ} {A : Type ℓ} (less : A → A → Bool) where
  -- `is_sorted`: no element is less than the one before it.
  unfoldable pub is_sorted : List A → Bool
  is_sorted [] = true
  is_sorted (x ∷ []) = true
  is_sorted (x ∷ y ∷ ys) = let rest = is_sorted (y ∷ ys) in if less y x then false else rest

  -- The elements up to `find_end_of_run`, and those from there on.
  unfoldable pub find_end_of_run : A → List A → List A × List A
  find_end_of_run x [] = (x ∷ [], [])
  find_end_of_run x (y ∷ ys) =
      let (run, rest) = find_end_of_run y ys in
      if less y x then (x ∷ [], y ∷ ys) else (x ∷ run, rest)

  -- `inplace_merge` of the ranges A0 to A1B0 and A1B0 to B1.
  unfoldable pub inplace_merge : List A → List A → List A
  inplace_merge [] ys = ys
  inplace_merge (x ∷ xs) [] = x ∷ xs
  inplace_merge (x ∷ xs) (y ∷ ys) =
      let left = x ∷ inplace_merge xs (y ∷ ys) in
      let right = y ∷ inplace_merge (x ∷ xs) ys in if not (less y x) then left else right

  -- One round of the `for` loop of `list_sort` behind the first run, and the rounds after it.
  unfoldable pub second_run : (List A → List A × ℕ) → List A → List A → List A × ℕ
  second_run again a [] = (a, 1)
  second_run again a (y ∷ ys) =
      let (b, after_b) = find_end_of_run y ys in
      let (out, cnt) = again after_b in (inplace_merge a b ++ out, cnt + 1)

  -- The `for` loop: the list after the pass, and `output_run_cnt`. A round takes at least one
  -- element, so the length of the list is enough fuel.
  unfoldable pub merge_pass : ℕ → List A → List A × ℕ
  unfolding second_run
  merge_pass zero xs = (xs, 0)
  merge_pass (suc fuel) [] = ([], 0)
  merge_pass (suc fuel) (x ∷ xs) =
      let (a, after_a) = find_end_of_run x xs in second_run (merge_pass fuel) a after_a

  -- The `do` loop of `list_sort`, for at most as many passes as there is fuel.
  unfoldable pub sort_passes : ℕ → List A → List A
  sort_passes zero xs = xs
  sort_passes (suc fuel) xs =
      let (out, cnt) = merge_pass (length xs) xs in
      let rest = sort_passes fuel out in if ltb 1 cnt then rest else out

  -- A pass halves the number of runs, so the length of the list is enough fuel.
  unfoldable pub list_sort : List A → List A
  list_sort xs = sort_passes (suc (length xs)) xs

  -- The loop of `list_insert_ordered` stops in front of the first element that ELEM is less than.
  unfoldable pub list_insert_ordered : A → List A → List A
  list_insert_ordered x [] = x ∷ []
  list_insert_ordered x (e ∷ es) = if less x e then x ∷ e ∷ es else e ∷ list_insert_ordered x es

  -- The loop of `list_unique`: the elements that stay, and those appended to DUPLICATES.
  pub unique_from : A → List A → List A × List A
  unique_from x [] = (x ∷ [], [])
  unique_from x (y ∷ ys) =
      let (k, d) = unique_from x ys in
      let (k', d') = unique_from y ys in
      if not (less x y) && not (less y x) then (k, y ∷ d) else (x ∷ k', d')

  pub list_unique : List A → List A × List A
  unfolding unique_from
  list_unique [] = ([], [])
  list_unique (x ∷ xs) = unique_from x xs

  pub max_from : A → List A → A
  max_from m [] = m
  max_from m (e ∷ es) = max_from (if less m e then e else m) es

  -- `none` stands for the list's tail.
  pub list_max : List A → Option A
  unfolding max_from
  list_max [] = none
  list_max (x ∷ xs) = some (max_from x xs)

  pub min_from : A → List A → A
  min_from m [] = m
  min_from m (e ∷ es) = min_from (if less e m then e else m) es

  pub list_min : List A → Option A
  unfolding min_from
  list_min [] = none
  list_min (x ∷ xs) = some (min_from x xs)

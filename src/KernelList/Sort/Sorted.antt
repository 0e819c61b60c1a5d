-- ===== src/KernelList/Sort/Sorted.antt =====
-- `list_sort` of lib/kernel/list.c sorts.
use pintos_vm.Base.{
  ℕ, zero, suc, ◌≤◌, ◌≡◌, refl, ◌∙◌, inl, inr, Bool, true, List, [], ◌∷◌, arith, tally, SameItems,
  Bool-cases, length, ltb,
}
use pintos_vm.KernelList.Sort.{merge_pass, sort_passes, list_sort}
use pintos_vm.KernelList.Sort.Order.{IsOrder, IsSorted}
use pintos_vm.KernelList.Sort.{is_sorted}
use pintos_vm.KernelList.Sort.Order.{is_sorted-IsSorted}
use pintos_vm.KernelList.Sort.Runs.{runs, runs-le-length, tally-pass, count-pass}
use pintos_vm.KernelList.Sort.Merge.{runs-pass, runs-IsSorted}

module _ {ℓ} {A : Type ℓ} (less : A → A → Bool) where
  tally-passes :
      (fuel : ℕ) (p : A → Bool) (xs : List A) → tally p (sort_passes less fuel xs) ≡ tally p xs
  unfolding sort_passes
  tally-passes zero p xs = refl
  tally-passes (suc fuel) p xs = elim (Bool-cases (ltb 1 (merge_pass less (length xs) xs).1)) [
    | inl t ↦
        rw t (
          tally-passes fuel p (merge_pass less (length xs) xs).0 ∙ tally-pass less (length xs) p xs)
    | inr f ↦ rw f (tally-pass less (length xs) p xs)
  ]

  -- `list_sort` keeps the elements, each as often as it was there.
  pub list_sort-SameItems : (xs : List A) → SameItems (list_sort less xs) xs
  unfolding list_sort
  list_sort-SameItems xs p = tally-passes (suc (length xs)) p xs

module _ {ℓ} {A : Type ℓ} (less : A → A → Bool) (o : IsOrder less) where
  passes-IsSorted :
      (fuel : ℕ) (xs : List A) → runs less xs ≤ fuel → IsSorted less (sort_passes less fuel xs)
  unfolding sort_passes
  passes-IsSorted zero xs h = runs-IsSorted less o xs (omega arith)
  passes-IsSorted (suc fuel) xs h = elim (Bool-cases (ltb 1 (merge_pass less (length xs) xs).1)) [
    | inl t ↦ rw t (
        passes-IsSorted fuel (merge_pass less (length xs) xs).0
          (ground (arith, runs-pass less o (length xs) xs, count-pass less (length xs) xs)))
    | inr f ↦ rw f (
        runs-IsSorted less o (merge_pass less (length xs) xs).0
          (ground (arith, runs-pass less o (length xs) xs)))
  ]

  few_runs : (xs : List A) → runs less xs ≤ suc (length xs)
  unfolding runs
  few_runs [] = omega arith
  few_runs (x ∷ xs) = omega (arith, runs-le-length less x xs)

  -- Under a strict weak order `list_sort` leaves a sorted list of the same elements, which its
  -- last ASSERT accepts.
  pub list_sort_lem :
      (xs : List A)
      → IsSorted less (list_sort less xs)
        × SameItems (list_sort less xs) xs
        × (is_sorted less (list_sort less xs) ≡ true)
  unfolding list_sort
  list_sort_lem xs =
      let s = passes-IsSorted (suc (length xs)) xs (few_runs xs) in
      (s, list_sort-SameItems less xs, is_sorted-IsSorted less o _ s)

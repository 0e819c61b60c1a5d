-- ===== src/KernelList/Sort/Merge.antt =====
-- The merge sort of lib/kernel/list.c: a pass sorts each pair of runs into one.
use mathlib.Core.List.{append-nil}
use pintos_vm.Base.{
  ℕ, zero, suc, ◌≤◌, ◌<◌, ◌≡◌, ap, inl, inr, Bool, false, List, [], ◌∷◌, ◌++◌, arith, All,
  Bool-cases, length,
}
use pintos_vm.KernelList.Sort.{find_end_of_run, inplace_merge, second_run, merge_pass}
use pintos_vm.KernelList.Sort.Order.{IsOrder, IsSorted, All-ge}
use pintos_vm.KernelList.Sort.Runs.{runs, runs_from, runs_pos, rest-lt}

module _ {ℓ} {A : Type ℓ} (less : A → A → Bool) (o : IsOrder less) where
  irrefl : (x : A) → less x x ≡ false
  irrefl x = elim (Bool-cases (less x x)) [ inl t ↦ o.asym x x t | inr f ↦ f ]

  run-All : (x : A) (xs : List A) → All (λ y. less y x ≡ false) (find_end_of_run less x xs).0
  unfolding find_end_of_run
  run-All x [] = (irrefl x, tt)
  run-All x (y ∷ ys) = elim (Bool-cases (less y x)) [
    | inl t ↦ rw t (irrefl x, tt)
    | inr f ↦ rw f (irrefl x, All-ge less o x y _ f (run-All y ys))
  ]

  pub run-IsSorted : (x : A) (xs : List A) → IsSorted less (find_end_of_run less x xs).0
  unfolding find_end_of_run
  run-IsSorted x [] = (tt, tt)
  run-IsSorted x (y ∷ ys) = elim (Bool-cases (less y x)) [
    | inl t ↦ rw t (tt, tt)
    | inr f ↦ rw f (All-ge less o x y _ f (run-All y ys), run-IsSorted y ys)
  ]

  merge-All :
      (P : A → Type 0) (xs ys : List A) → All P xs → All P ys → All P (inplace_merge less xs ys)
  unfolding inplace_merge
  merge-All P [] ys h k = k
  merge-All P (x ∷ xs) [] h k = h
  merge-All P (x ∷ xs) (y ∷ ys) h k = elim (Bool-cases (less y x)) [
    | inl t ↦ rw t (k.0, merge-All P (x ∷ xs) ys h k.1)
    | inr f ↦ rw f (h.0, merge-All P xs (y ∷ ys) h.1 k)
  ]

  -- `inplace_merge` merges two sorted ranges into a sorted one.
  pub merge-IsSorted :
      (xs ys : List A)
      → IsSorted less xs
      → IsSorted less ys
      → IsSorted less (inplace_merge less xs ys)
  unfolding inplace_merge
  merge-IsSorted [] ys h k = k
  merge-IsSorted (x ∷ xs) [] h k = h
  merge-IsSorted (x ∷ xs) (y ∷ ys) h k = elim (Bool-cases (less y x)) [
    | inl t ↦ rw t (
      merge-All _ (x ∷ xs) ys (o.asym y x t, All-ge less o y x xs (o.asym y x t) h.0) k.0,
      merge-IsSorted (x ∷ xs) ys h k.1,
    )
    | inr f ↦ rw f (
      merge-All _ xs (y ∷ ys) h.0 (f, All-ge less o x y ys f k.0),
      merge-IsSorted xs (y ∷ ys) h.1 k,
    )
  ]

  -- One run is sorted, and a sorted range in front adds at most one run.
  runs_one : (x : A) (xs : List A) → runs_from less x xs ≤ 1 → IsSorted less (x ∷ xs)
  unfolding runs_from
  runs_one x [] h = (tt, tt)
  runs_one x (y ∷ ys) h =
      let f : less y x ≡ false = ground (arith, runs_pos less y ys) in
      let rest = runs_one y ys (ground (arith, runs_pos less y ys)) in
      ((f, All-ge less o x y ys f rest.0), rest)

  pub runs-IsSorted : (xs : List A) → runs less xs ≤ 1 → IsSorted less xs
  unfolding runs
  runs-IsSorted [] h = tt
  runs-IsSorted (x ∷ xs) h = runs_one x xs h

  runs-append_from :
      (x : A) (xs ys : List A)
      → IsSorted less (x ∷ xs)
      → runs_from less x (xs ++ ys) ≤ suc (runs less ys)
  unfolding runs_from runs
  runs-append_from x [] [] h = omega arith
  runs-append_from x [] (y ∷ ys) h = ground arith
  runs-append_from x (z ∷ xs) ys h = ground (arith, runs-append_from z xs ys h.1)

  pub runs-append : (xs ys : List A) → IsSorted less xs → runs less (xs ++ ys) ≤ suc (runs less ys)
  unfolding runs
  runs-append [] ys h = omega arith
  runs-append (x ∷ xs) ys h = runs-append_from x xs ys h

  one_run : (a : List A) → IsSorted less a → runs less a ≤ 1
  unfolding runs
  one_run a s = omega (arith, runs-append a [] s, ap (runs less) (append-nil a))

  -- What a pass leaves has no more runs than it reports.
  pub runs-second :
      (again : List A → List A × ℕ) (a after_a : List A)
      → IsSorted less a
      → ((zs : List A) → length zs < length after_a → runs less (again zs).0 ≤ (again zs).1)
      → runs less (second_run less again a after_a).0 ≤ (second_run less again a after_a).1
  unfolding second_run
  runs-second again a [] s h = one_run a s
  runs-second again a (y ∷ ys) s h = omega (
    arith,
    runs-append (inplace_merge less a (find_end_of_run less y ys).0)
        (again (find_end_of_run less y ys).1).0
        (merge-IsSorted a (find_end_of_run less y ys).0 s (run-IsSorted y ys)),
    h (find_end_of_run less y ys).1 (omega (arith, rest-lt less y ys)),
  )

  pub runs-pass :
      (fuel : ℕ) (xs : List A)
      → length xs ≤ fuel
      → runs less (merge_pass less fuel xs).0 ≤ (merge_pass less fuel xs).1
  unfolding merge_pass runs
  runs-pass zero [] h = omega arith
  runs-pass zero (x ∷ xs) h = absurd (omega arith)
  runs-pass (suc fuel) [] h = omega arith
  runs-pass (suc fuel) (x ∷ xs) h =
      runs-second (merge_pass less fuel) (find_end_of_run less x xs).0 (find_end_of_run less x xs).1
        (run-IsSorted x xs) (λ zs lt. runs-pass fuel zs (omega (arith, rest-lt less x xs)))

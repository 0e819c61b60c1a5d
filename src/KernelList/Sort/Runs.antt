-- ===== src/KernelList/Sort/Runs.antt =====
-- The merge sort of lib/kernel/list.c: runs, merging, and the number of passes.
use pintos_vm.Base.{
  ℕ, zero, suc, ◌+◌, ◌*◌, ◌≤◌, ◌<◌, ◌≡◌, refl, ap, inl, inr, Bool, List, [], ◌∷◌, ◌++◌, arith,
  if◌then◌else◌, tally, tally-append, Bool-cases, length,
}
use pintos_vm.KernelList.Sort.{find_end_of_run, inplace_merge, second_run, merge_pass}

module _ {ℓ} {A : Type ℓ} (less : A → A → Bool) where
  -- The two parts make up the list again.
  pub run-append :
      (x : A) (xs : List A)
      → (find_end_of_run less x xs).0 ++ (find_end_of_run less x xs).1 ≡ x ∷ xs
  unfolding find_end_of_run
  run-append x [] = refl
  run-append x (y ∷ ys) = elim (Bool-cases (less y x)) [
    | inl t ↦ rw t
    | inr f ↦ rw f (ap (◌∷◌ x) (run-append y ys))
  ]

  pub rest-lt : (x : A) (xs : List A) → length (find_end_of_run less x xs).1 ≤ length xs
  unfolding find_end_of_run
  rest-lt x [] = omega arith
  rest-lt x (y ∷ ys) = elim (Bool-cases (less y x)) [
    | inl t ↦ rw t (omega arith)
    | inr f ↦ rw f (omega (arith, rest-lt y ys))
  ]

  -- The number of natural runs of a list.
  unfoldable pub runs_from : A → List A → ℕ
  runs_from x [] = 1
  runs_from x (y ∷ ys) = (if less y x then 1 else 0) + runs_from y ys

  unfoldable pub runs : List A → ℕ
  unfolding runs_from
  runs [] = 0
  runs (x ∷ xs) = runs_from x xs

  pub runs-rest : (x : A) (xs : List A) → runs_from x xs ≡ suc (runs (find_end_of_run less x xs).1)
  unfolding find_end_of_run runs
  runs-rest x [] = refl
  runs-rest x (y ∷ ys) = elim (Bool-cases (less y x)) [
    | inl t ↦ rw t (omega arith)
    | inr f ↦ rw f (omega (arith, runs-rest y ys))
  ]

  pub runs_pos : (x : A) (xs : List A) → 0 < runs_from x xs
  unfolding runs_from
  runs_pos x [] = omega arith
  runs_pos x (y ∷ ys) = omega (arith, runs_pos y ys)

  pub tally-merge :
      (p : A → Bool) (xs ys : List A) → tally p (inplace_merge less xs ys) ≡ tally p xs + tally p ys
  unfolding inplace_merge
  tally-merge p [] ys = omega arith
  tally-merge p (x ∷ xs) [] = omega arith
  tally-merge p (x ∷ xs) (y ∷ ys) = elim (Bool-cases (less y x)) [
    | inl t ↦ rw t (omega (arith, tally-merge p (x ∷ xs) ys))
    | inr f ↦ rw f (omega (arith, tally-merge p xs (y ∷ ys)))
  ]

  pub runs-le-length : (x : A) (xs : List A) → runs_from x xs ≤ suc (length xs)
  unfolding runs_from
  runs-le-length x [] = omega arith
  runs-le-length x (y ∷ ys) = ground (arith, runs-le-length y ys)

  -- A pass keeps the elements.
  tally-second :
      (p : A → Bool) (again : List A → List A × ℕ) (a after_a : List A)
      → ((zs : List A) → tally p (again zs).0 ≡ tally p zs)
      → tally p (second_run less again a after_a).0 ≡ tally p a + tally p after_a
  unfolding second_run
  tally-second p again a [] h = omega arith
  tally-second p again a (y ∷ ys) h = omega (
    arith,
    tally-append p (inplace_merge less a (find_end_of_run less y ys).0)
        (again (find_end_of_run less y ys).1).0,
    tally-merge p a (find_end_of_run less y ys).0,
    h (find_end_of_run less y ys).1,
    tally-append p (find_end_of_run less y ys).0 (find_end_of_run less y ys).1,
    ap (tally p) (run-append y ys),
  )

  pub tally-pass :
      (fuel : ℕ) (p : A → Bool) (xs : List A) → tally p (merge_pass less fuel xs).0 ≡ tally p xs
  unfolding merge_pass
  tally-pass zero p xs = refl
  tally-pass (suc fuel) p [] = refl
  tally-pass (suc fuel) p (x ∷ xs) = omega (
    arith,
    tally-second p (merge_pass less fuel) (find_end_of_run less x xs).0
        (find_end_of_run less x xs).1 (tally-pass fuel p),
    tally-append p (find_end_of_run less x xs).0 (find_end_of_run less x xs).1,
    ap (tally p) (run-append x xs),
  )

  -- The number of runs that a pass reports: half of those there were, rounded up.
  count-second :
      (again : List A → List A × ℕ) (a after_a : List A)
      → ((zs : List A) → length zs < length after_a → 2 * (again zs).1 ≤ suc (runs zs))
      → 2 * (second_run less again a after_a).1 ≤ suc (suc (runs after_a))
  unfolding second_run runs
  count-second again a [] h = omega arith
  count-second again a (y ∷ ys) h =
      omega (arith, h (find_end_of_run less y ys).1 (omega (arith, rest-lt y ys)), runs-rest y ys)

  pub count-pass :
      (fuel : ℕ) (xs : List A) → length xs ≤ fuel → 2 * (merge_pass less fuel xs).1 ≤ suc (runs xs)
  unfolding merge_pass runs
  count-pass zero xs h = omega arith
  count-pass (suc fuel) [] h = omega arith
  count-pass (suc fuel) (x ∷ xs) h = omega (
    arith,
    runs-rest x xs,
    count-second (merge_pass less fuel) (find_end_of_run less x xs).0 (find_end_of_run less x xs).1
        (λ zs lt. count-pass fuel zs (omega (arith, rest-lt x xs))),
  )

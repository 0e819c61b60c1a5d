-- ===== src/KernelList/Sort/Order.antt =====
-- Sorted sequences under the comparison of lib/kernel/list.c, and insertion into one.
use pintos_vm.Base.{
  ◌≡◌, refl, ap, inl, inr, Bool, true, false, not, List, [], ◌∷◌, ◌++◌, arith, All, All-append,
  All-mono, tally, keep, Bool-cases,
}
use pintos_vm.KernelList.Sort.{is_sorted, list_insert_ordered}

-- LESS is a strict weak order.
pub record IsOrder {ℓ} {A : Type ℓ} (less : A → A → Bool) : Type ℓ where
  pub asym : (a b : A) → less a b ≡ true → less b a ≡ false
  pub trans : (a b c : A) → less b a ≡ false → less c b ≡ false → less c a ≡ false

-- No element is less than one that stands before it.
abbrev pub IsSorted {ℓ} : {A : Type ℓ} → (A → A → Bool) → List A → Type 0
IsSorted less [] = Unit
IsSorted less (x ∷ xs) = All (λ y. less y x ≡ false) xs × IsSorted less xs

module _ {ℓ} {A : Type ℓ} (less : A → A → Bool) where
  -- Insertion adds the new element.
  pub tally-insert :
      (p : A → Bool) (x : A) (xs : List A)
      → tally p (list_insert_ordered less x xs) ≡ tally p (x ∷ xs)
  unfolding list_insert_ordered
  tally-insert p x [] = refl
  tally-insert p x (e ∷ es) = elim (Bool-cases (less x e)) [
    | inl t ↦ rw t
    | inr f ↦ rw f (omega (arith, tally-insert p x es))
  ]

module _ {ℓ} {A : Type ℓ} (less : A → A → Bool) (o : IsOrder less) where
  pub All-ge :
      (a b : A) (xs : List A)
      → less b a ≡ false
      → All (λ y. less y b ≡ false) xs
      → All (λ y. less y a ≡ false) xs
  All-ge a b xs h k = All-mono _ _ xs (λ y e. o.trans a b y h e) k

  -- The test of the ASSERTs decides sortedness.
  pub is_sorted-IsSorted : (xs : List A) → IsSorted less xs → is_sorted less xs ≡ true
  unfolding is_sorted
  is_sorted-IsSorted [] h = refl
  is_sorted-IsSorted (x ∷ []) h = refl
  is_sorted-IsSorted (x ∷ y ∷ ys) h = ground (arith, h.0.0, is_sorted-IsSorted (y ∷ ys) h.1)

  pub IsSorted-append :
      (xs ys : List A)
      → IsSorted less xs
      → IsSorted less ys
      → All (λ x. All (λ y. less y x ≡ false) ys) xs
      → IsSorted less (xs ++ ys)
  IsSorted-append [] ys h k c = k
  IsSorted-append (x ∷ xs) ys h k c = (All-append _ xs ys h.0 c.0, IsSorted-append xs ys h.1 k c.1)

  insert-All :
      (P : A → Type 0) (x : A) (xs : List A)
      → P x
      → All P xs
      → All P (list_insert_ordered less x xs)
  unfolding list_insert_ordered
  insert-All P x [] h k = (h, tt)
  insert-All P x (e ∷ es) h k = elim (Bool-cases (less x e)) [
    | inl t ↦ rw t (h, k)
    | inr f ↦ rw f (k.0, insert-All P x es h k.1)
  ]

  -- Inserting an element into a sorted list, in its place, keeps the list sorted.
  pub insert-IsSorted :
      (x : A) (xs : List A) → IsSorted less xs → IsSorted less (list_insert_ordered less x xs)
  unfolding list_insert_ordered
  insert-IsSorted x [] h = (tt, tt)
  insert-IsSorted x (e ∷ es) h = elim (Bool-cases (less x e)) [
    | inl t ↦ rw t ((o.asym x e t, All-ge x e es (o.asym x e t) h.0), h)
    | inr f ↦ rw f (insert-All _ x es f h.0, insert-IsSorted x es h.1)
  ]

  keep-All : (p : A → Bool) (xs : List A) → All (λ y. p y ≡ true) xs → keep p xs ≡ xs
  keep-All p [] h = refl
  keep-All p (x ∷ xs) h = rw h.0 (ap (◌∷◌ x) (keep-All p xs h.1))

  above : (x e y : A) → less x e ≡ true → less y e ≡ false → less x y ≡ true
  above x e y t h = elim (Bool-cases (less x y)) [ inl u ↦ u | inr u ↦ cc (o.trans e y x h u) ]

  keep-none_not :
      (x : A) (xs : List A) → All (λ y. less x y ≡ true) xs → keep (λ e. not (less x e)) xs ≡ []
  keep-none_not x [] h = refl
  keep-none_not x (y ∷ ys) h = rw h.0 (keep-none_not x ys h.1)

  -- Under a strict weak order `list_insert_ordered` puts the new element behind all elements of
  -- the sorted list that it is not less than, and in front of all others: among equals the new one
  -- is last.
  pub insert-eq-split :
      (x : A) (xs : List A)
      → IsSorted less xs
      → list_insert_ordered less x xs
        ≡ keep (λ e. not (less x e)) xs ++ (x ∷ keep (λ e. less x e) xs)
  unfolding list_insert_ordered
  insert-eq-split x [] h = refl
  insert-eq-split x (e ∷ es) h = elim (Bool-cases (less x e)) [
    | inl t ↦
        let beyond = All-mono _ (λ y. less x y ≡ true) es (λ y g. above x e y t g) h.0 in
        rw (t, keep-none_not x es beyond, keep-All (λ y. less x y) es beyond)
    | inr f ↦ rw f (ap (◌∷◌ e) (insert-eq-split x es h.1))
  ]

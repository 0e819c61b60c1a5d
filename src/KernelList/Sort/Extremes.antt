-- ===== src/KernelList/Sort/Extremes.antt =====
-- `list_max`, `list_min` and `list_unique` of lib/kernel/list.c.
use pintos_vm.Base.{
  ◌≤◌, ◌≡◌, refl, sym, ap, subst, ◌∙◌, ◌⊎◌, inl, inr, Bool, true, false, not, ◌&&◌, List, [], ◌∷◌,
  ◌++◌, arith, if◌then◌else◌, some, All, All-mono, tally, tally-append, SameItems, Bool-cases,
}
use pintos_vm.KernelList.Sort.{unique_from, list_unique, max_from, list_max, min_from, list_min}
use pintos_vm.KernelList.Sort.Order.{IsOrder, IsSorted}

-- `r` stands in the list, no element is greater, and every one before it is less.
abbrev pub IsFirstMax {ℓ} : {A : Type ℓ} → (A → A → Bool) → List A → A → Type ℓ
IsFirstMax {A = A} less xs r =
    (us : List A) × (vs : List A) × (xs ≡ us ++ (r ∷ vs))
    × All (λ u. less u r ≡ true) us
    × All (λ y. less r y ≡ false) xs

module _ {ℓ} {A : Type ℓ} (less : A → A → Bool) (o : IsOrder less) where
  irrefl : (a : A) → less a a ≡ false
  irrefl a = elim (Bool-cases (less a a)) [ inl t ↦ o.asym a a t | inr f ↦ f ]

  -- `less` on one side of an element that is not less.
  less-past : (a b c : A) → less a c ≡ true → less a b ≡ false → less b c ≡ true
  less-past a b c h n = elim (Bool-cases (less b c)) [
    | inl t ↦ t
    | inr f ↦ let q = o.trans c b a f n in cc
  ]

  less-through : (a b c : A) → less a b ≡ true → less b c ≡ true → less a c ≡ true
  less-through a b c h k = elim (Bool-cases (less a c)) [
    | inl t ↦ t
    | inr f ↦ let q = o.trans b c a (o.asym b c k) f in cc
  ]

  -- `r` is `m`, and none of the list is greater, or it is greater than `m`, and the list's maximum.
  IsMaxFrom : A → List A → A → Type ℓ
  IsMaxFrom m es r =
      ((r ≡ m) × All (λ y. less m y ≡ false) es) ⊎ ((less m r ≡ true) × IsFirstMax less es r)

  max-replace :
      (m e r : A) (es : List A) → less m e ≡ true → IsMaxFrom e es r → IsMaxFrom m (e ∷ es) r
  unfolding IsMaxFrom
  max-replace m e r es t (inl (q, a)) = inr (
    subst (λ x. less m x ≡ true) (sym q) t,
    (
      [],
      es,
      ap (λ x. x ∷ es) (sym q),
      tt,
      subst (λ x. All (λ y. less x y ≡ false) (e ∷ es)) (sym q) (irrefl e, a),
    ),
  )
  max-replace m e r es t (inr (h, (us, vs, q, s, a))) =
      inr (less-through m e r t h, (e ∷ us, vs, ap (◌∷◌ e) q, (h, s), (o.asym e r h, a)))

  max-pass :
      (m e r : A) (es : List A) → less m e ≡ false → IsMaxFrom m es r → IsMaxFrom m (e ∷ es) r
  unfolding IsMaxFrom
  max-pass m e r es f (inl (q, a)) = inl (q, (f, a))
  max-pass m e r es f (inr (h, (us, vs, q, s, a))) =
      let g = less-past m e r h f in inr (h, (e ∷ us, vs, ap (◌∷◌ e) q, (g, s), (o.asym e r g, a)))

  max_from_lem : (m : A) (es : List A) → IsMaxFrom m es (max_from less m es)
  unfolding max_from
  max_from_lem m [] = unfold IsMaxFrom in inl (refl, tt)
  max_from_lem m (e ∷ es) = elim (Bool-cases (less m e)) [
    | inl t ↦ rw t (max-replace m e _ es t (max_from_lem e es))
    | inr f ↦ rw f (max-pass m e _ es f (max_from_lem m es))
  ]

  -- On a list that is not empty `list_max` gives the first of its greatest elements.
  pub list_max_lem :
      (x : A) (xs : List A)
      → (r : A) × (list_max less (x ∷ xs) ≡ some r) × IsFirstMax less (x ∷ xs) r
  unfolding list_max IsMaxFrom
  list_max_lem x xs = (max_from less x xs, refl, from (max_from less x xs) (max_from_lem x xs))
    where
      from : (r : A) → IsMaxFrom x xs r → IsFirstMax less (x ∷ xs) r
      from r (inl (q, a)) =
          subst (IsFirstMax less (x ∷ xs)) (sym q) ([], xs, refl, tt, (irrefl x, a))
      from r (inr (h, (us, vs, q, s, a))) = (x ∷ us, vs, ap (◌∷◌ x) q, (h, s), (o.asym x r h, a))

flip_IsOrder {ℓ} : {A : Type ℓ} (less : A → A → Bool) → IsOrder less → IsOrder (λ a b. less b a)
flip_IsOrder less o = record { asym = λ a b. o.asym b a; trans = λ a b c h k. o.trans c b a k h }

min_from-eq-max {ℓ} :
    {A : Type ℓ} (less : A → A → Bool) (m : A) (es : List A)
    → min_from less m es ≡ max_from (λ a b. less b a) m es
unfolding min_from max_from
min_from-eq-max less m [] = refl
min_from-eq-max less m (e ∷ es) = min_from-eq-max less (if less e m then e else m) es

-- On a list that is not empty `list_min` gives the first of its least elements.
pub list_min_lem {ℓ} :
    {A : Type ℓ} (less : A → A → Bool)
    → IsOrder less
    → (x : A) (xs : List A)
    → (r : A) × (list_min less (x ∷ xs) ≡ some r) × IsFirstMax (λ a b. less b a) (x ∷ xs) r
unfolding list_min list_max
list_min_lem less o x xs =
    let (r, e, h) = list_max_lem (λ a b. less b a) (flip_IsOrder less o) x xs in
    (r, ap some (min_from-eq-max less x xs) ∙ e, h)

-- Neither is less than the other.
abbrev pub alike {ℓ} : {A : Type ℓ} → (A → A → Bool) → A → A → Bool
alike less x y = not (less x y) && not (less y x)

-- Each element is less than all that follow.
abbrev pub IsRising {ℓ} : {A : Type ℓ} → (A → A → Bool) → List A → Type 0
IsRising less [] = Unit
IsRising less (x ∷ xs) = All (λ y. less x y ≡ true) xs × IsRising less xs

-- The list `xs` splits into elements that rise and elements that are like one of these.
pub record IsUnique {ℓ} {A : Type ℓ} (less : A → A → Bool) (xs kept duplicates : List A)
    : Type ℓ where
  pub items : SameItems (kept ++ duplicates) xs
  pub rising : IsRising less kept
  pub doubled : All (λ d. 1 ≤ tally (λ k. alike less k d) kept) duplicates

module _ {ℓ} {A : Type ℓ} (less : A → A → Bool) (o : IsOrder less) where
  rising-through :
      (x y : A) (ks : List A)
      → less x y ≡ true
      → All (λ k. less y k ≡ true) ks
      → All (λ k. less x k ≡ true) ks
  rising-through x y ks h a =
      All-mono (λ k. less y k ≡ true) (λ k. less x k ≡ true) ks
        (λ k g. less-through less o x y k h g) a

  -- `kept` starts with the first element.
  IsUniqueFrom : A → List A → List A × List A → Type ℓ
  IsUniqueFrom x xs (kept, duplicates) =
      IsUnique less (x ∷ xs) kept duplicates × ((ks : List A) × (kept ≡ x ∷ ks))

  add-duplicate :
      (x y : A) (ys : List A) (r : List A × List A)
      → alike less x y ≡ true
      → IsUniqueFrom x ys r
      → IsUniqueFrom x (y ∷ ys) (r.0, y ∷ r.1)
  unfolding IsUniqueFrom
  add-duplicate x y ys (kept, ds) t (u, (ks, e)) = (
    record {
      items = λ p. omega (arith, u.items p, tally-append p kept ds, tally-append p kept (y ∷ ds));
      rising = u.rising;
      doubled = (rw (e, t) (omega arith), u.doubled);
    },
    (ks, e),
  )

  add-kept :
      (x y : A) (ys : List A) (r : List A × List A)
      → less x y ≡ true
      → IsUniqueFrom y ys r
      → IsUniqueFrom x (y ∷ ys) (x ∷ r.0, r.1)
  unfolding IsUniqueFrom
  add-kept x y ys (kept, ds) h (u, (ks, e)) = (
    record {
      items = λ p. omega (arith, u.items p);
      rising = (
        subst (All (λ k. less x k ≡ true)) (sym e)
            (h, rising-through x y ks h (subst (IsRising less) e u.rising).0),
        u.rising,
      );
      doubled = All-mono _ _ ds (λ d g. omega (arith, g)) u.doubled;
    },
    (kept, refl),
  )

  unique_from_lem :
      (x : A) (xs : List A) → IsSorted less (x ∷ xs) → IsUniqueFrom x xs (unique_from less x xs)
  unfolding unique_from IsUniqueFrom
  unique_from_lem x [] s =
      (record { items = λ p. refl; rising = (tt, tt); doubled = tt }, ([], refl))
  unique_from_lem x (y ∷ ys) s = elim (Bool-cases (alike less x y)) [
    | inl t ↦
        rw t (add-duplicate x y ys (unique_from less x ys) t (unique_from_lem x ys (s.0.1, s.1.1)))
    | inr f ↦
        rw f (
          add-kept x y ys (unique_from less y ys) (ground (arith, s.0.0))
            (unique_from_lem y ys s.1))
  ]

  -- Under a strict weak order `list_unique` splits a sorted list: the elements that stay rise
  -- strictly, and each one that moves to DUPLICATES is like one that stays; nothing is lost.
  pub list_unique_lem :
      (xs : List A)
      → IsSorted less xs
      → IsUnique less xs (list_unique less xs).0 (list_unique less xs).1
  unfolding list_unique
  list_unique_lem [] s = record { items = λ p. refl; rising = tt; doubled = tt }
  list_unique_lem (x ∷ xs) s = unfold IsUniqueFrom in (unique_from_lem x xs s).0

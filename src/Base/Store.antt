-- ===== src/Base/Store.antt =====
-- A C object that others point to lives in a store: a function from its address.
use Prim.Native.Nat.{ℕ, suc, ◌+◌}
use mathlib.Core.Path.{◌≡◌}
use mathlib.Core.Bool.{Bool, true, false, not}
use mathlib.Core.Option.{Option, none, some}
use mathlib.Core.List.{List, [], ◌∷◌, ◌++◌}
use mathlib.Core.Path.{refl}
use native.Mathlib.Omega.{arith}
use pintos_vm.Base.Tests.{◌==◌, if◌then◌else◌}

module _ {ℓ} {A : Type ℓ} where
  abbrev pub update : (ℕ → A) → ℕ → A → ℕ → A
  update s p v q = if p == q then v else s q

-- Two handles that may be NULL.
abbrev pub same : Option ℕ → Option ℕ → Bool
same none none = true
same none (some b) = false
same (some a) none = false
same (some a) (some b) = a == b

-- The elements that pass a test, in order.
abbrev pub keep {ℓ} : {A : Type ℓ} → (A → Bool) → List A → List A
keep p [] = []
keep p (x ∷ xs) = if p x then x ∷ keep p xs else keep p xs

-- A predicate of every element.
abbrev pub All {ℓ κ} : {A : Type ℓ} → (A → Type κ) → List A → Type κ
All P [] = Unit
All P (x ∷ xs) = P x × All P xs

-- How often a number stands in a list.
abbrev pub count : ℕ → List ℕ → ℕ
count a [] = 0
count a (x ∷ xs) = if x == a then suc (count a xs) else count a xs

pub count-append : (a : ℕ) (xs ys : List ℕ) → count a (xs ++ ys) ≡ count a xs + count a ys
count-append a [] ys = omega arith
count-append a (x ∷ xs) ys = ground (arith, count-append a xs ys)

-- How many elements pass a test.
abbrev pub tally {ℓ} : {A : Type ℓ} → (A → Bool) → List A → ℕ
tally p [] = 0
tally p (x ∷ xs) = (if p x then 1 else 0) + tally p xs

-- Two lists hold the same elements, each as often: every test counts the same in both.
abbrev pub SameItems {ℓ} : {A : Type ℓ} → List A → List A → Type ℓ
SameItems {A = A} xs ys = (p : A → Bool) → tally p xs ≡ tally p ys

pub tally-append {ℓ} :
    {A : Type ℓ} (p : A → Bool) (xs ys : List A) → tally p (xs ++ ys) ≡ tally p xs + tally p ys
tally-append p [] ys = omega arith
tally-append p (x ∷ xs) ys = omega (arith, tally-append p xs ys)

pub All-append {ℓ κ} :
    {A : Type ℓ} (P : A → Type κ) (xs ys : List A) → All P xs → All P ys → All P (xs ++ ys)
All-append P [] ys h k = k
All-append P (x ∷ xs) ys h k = (h.0, All-append P xs ys h.1 k)

pub All-mono {ℓ κ} :
    {A : Type ℓ} (P Q : A → Type κ) (xs : List A) → ((x : A) → P x → Q x) → All P xs → All Q xs
All-mono P Q [] f h = tt
All-mono P Q (x ∷ xs) f h = (f x h.0, All-mono P Q xs f h.1)

-- A Boolean test that all elements fail counts to 0, and the other way round.
pub tally-zero {ℓ} :
    {A : Type ℓ} (p : A → Bool) (xs : List A) → All (λ x. p x ≡ false) xs → tally p xs ≡ 0
tally-zero p [] h = refl
tally-zero p (x ∷ xs) h = ground (arith, tally-zero p xs h.1)

pub All-of_tally {ℓ} :
    {A : Type ℓ} (p : A → Bool) (xs : List A) → tally p xs ≡ 0 → All (λ x. p x ≡ false) xs
All-of_tally p [] h = tt
All-of_tally p (x ∷ xs) h = (ground arith, All-of_tally p xs (omega arith))

-- So such a fact moves along a rearrangement.
pub All-SameItems {ℓ} :
    {A : Type ℓ} (p : A → Bool) (xs ys : List A)
    → SameItems xs ys
    → All (λ x. p x ≡ false) xs
    → All (λ x. p x ≡ false) ys
All-SameItems p xs ys s h = All-of_tally p ys (omega (arith, s p, tally-zero p xs h))

pub count-eq-tally : (a : ℕ) (xs : List ℕ) → count a xs ≡ tally (λ x. x == a) xs
count-eq-tally a [] = refl
count-eq-tally a (x ∷ xs) = ground (arith, count-eq-tally a xs)

-- How often a number stands in what is left after all of one number are taken out.
pub count-keep :
    (i j : ℕ) (xs : List ℕ)
    → count j (keep (λ x. not (x == i)) xs) ≡ (if i == j then 0 else count j xs)
count-keep i j [] = ground arith
count-keep i j (x ∷ xs) = ground (arith, count-keep i j xs)

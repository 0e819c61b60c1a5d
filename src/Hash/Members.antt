-- ===== src/Hash/Members.antt =====
-- The elements that stand in a hash table of lib/kernel/hash.c, one by one.
use pintos_vm.Base.{
  ◌||◌, inr, inl, Bool-cases, ℕ, zero, suc, ◌+◌, ◌≤◌, ◌≡◌, refl, Bool, true, false, List, [], ◌∷◌,
  ◌==◌, arith, tally, All,
}
use pintos_vm.Hash.Total.{total}

tally-witness :
    (p : ℕ → Bool) (xs : List ℕ)
    → 1 ≤ tally p xs
    → (x : ℕ) × (p x ≡ true) × (1 ≤ tally (λ y. y == x) xs)
tally-witness p [] h = absurd (omega arith)
tally-witness p (x ∷ xs) h = elim (Bool-cases (p x)) [
  | inl t ↦ (x, t, ground arith)
  | inr f ↦ let (y, e, k) = tally-witness p xs (ground arith) in (y, e, omega (arith, k))
]

-- If some element passes a test, there is one.
pub total-witness :
    (p : ℕ → Bool) (b : ℕ → List ℕ) (n : ℕ)
    → 1 ≤ total p b n
    → (x : ℕ) × (p x ≡ true) × (1 ≤ total (λ y. y == x) b n)
total-witness p b zero h = absurd (omega arith)
total-witness p b (suc n) h = elim (Bool-cases (tally p (b n) == 0)) [
  | inl t ↦ let (x, e, k) = total-witness p b n (ground arith) in (x, e, omega (arith, k))
  | inr f ↦ let (x, e, k) = tally-witness p (b n) (ground arith) in (x, e, omega (arith, k))
]

tally-agree :
    (p q : ℕ → Bool) (xs : List ℕ)
    → ((x : ℕ) → 1 ≤ tally (λ y. y == x) xs → p x ≡ q x)
    → tally p xs ≡ tally q xs
tally-agree p q [] h = refl
tally-agree p q (x ∷ xs) h =
    let r = tally-agree p q xs (λ y k. h y (omega (arith, k))) in
    ground (arith, r, h x (ground arith))

-- Two tests that agree on the elements of a table pass as many of them.
pub total-agree :
    (p q : ℕ → Bool) (b : ℕ → List ℕ) (n : ℕ)
    → ((x : ℕ) → 1 ≤ total (λ y. y == x) b n → p x ≡ q x)
    → total p b n ≡ total q b n
total-agree p q b zero h = refl
total-agree p q b (suc n) h =
    let r = total-agree p q b n (λ x k. h x (omega (arith, k))) in
    let s = tally-agree p q (b n) (λ x k. h x (omega (arith, k))) in omega arith

-- A fact about the elements of a list follows from one that they have.
pub All-in :
    (P Q : ℕ → Type 0) (xs : List ℕ)
    → ((x : ℕ) → 1 ≤ tally (λ y. y == x) xs → P x → Q x)
    → All P xs
    → All Q xs
All-in P Q [] h a = tt
All-in P Q (x ∷ xs) h a =
    (h x (ground arith) a.0, All-in P Q xs (λ y k. h y (omega (arith, k))) a.1)

-- Two tests that no element passes both.
pub total-or :
    (p q : ℕ → Bool) (b : ℕ → List ℕ) (n : ℕ)
    → ((x : ℕ) → p x ≡ true → q x ≡ false)
    → total (λ x. p x || q x) b n ≡ total p b n + total q b n
total-or p q b zero h = refl
total-or p q b (suc n) h = omega (arith, total-or p q b n h, tally-or (b n))
  where
    tally-or : (xs : List ℕ) → tally (λ x. p x || q x) xs ≡ tally p xs + tally q xs
    tally-or [] = refl
    tally-or (x ∷ xs) = ground (arith, tally-or xs, h x)

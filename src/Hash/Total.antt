-- ===== src/Hash/Total.antt =====
-- What stands in all buckets of a hash table of lib/kernel/hash.c together.
use pintos_vm.Base.{
  ℕ, zero, suc, ◌+◌, ◌≤◌, ◌<◌, ◌≡◌, refl, Bool, true, false, not, ◌&&◌, List, [], ◌∷◌, ◌==◌, arith,
  if◌then◌else◌, keep, tally, ltb,
}
use pintos_vm.Hash.{push}

-- How many elements of the first `n` buckets pass a test.
abbrev pub total : (ℕ → Bool) → (ℕ → List ℕ) → ℕ → ℕ
total p b zero = 0
total p b (suc n) = total p b n + tally p (b n)

pub total-push :
    (p : ℕ → Bool) (b : ℕ → List ℕ) (n i e : ℕ)
    → total p (push i e b) n ≡ total p b n + (if ltb i n && p e then 1 else 0)
total-push p b zero i e = ground arith
total-push p b (suc n) i e = ground (arith, total-push p b n i e)

pub total-empty : (p : ℕ → Bool) (n : ℕ) → total p (λ i. []) n ≡ 0
total-empty p zero = refl
total-empty p (suc n) = omega (arith, total-empty p n)

tally-keep :
    (p : ℕ → Bool) (e : ℕ) (xs : List ℕ)
    → tally p (keep (λ x. not (x == e)) xs) + (if p e then tally (λ x. x == e) xs else 0)
      ≡ tally p xs
tally-keep p e [] = ground arith
tally-keep p e (x ∷ xs) = ground (arith, tally-keep p e xs)

-- Unlinking an element takes out all that the buckets hold of it.
pub total-keep :
    (p : ℕ → Bool) (b : ℕ → List ℕ) (n e : ℕ)
    → total p (λ i. keep (λ x. not (x == e)) (b i)) n + (if p e then total (λ x. x == e) b n else 0)
      ≡ total p b n
total-keep p b zero e = ground arith
total-keep p b (suc n) e = ground (arith, total-keep p b n e, tally-keep p e (b n))

-- If only bucket `i` holds elements that pass the test, it holds them all.
pub total_one :
    (p : ℕ → Bool) (b : ℕ → List ℕ) (n i : ℕ)
    → ((j : ℕ) → j < n → (i == j) ≡ false → tally p (b j) ≡ 0)
    → total p b n ≡ (if ltb i n then tally p (b i) else 0)
total_one p b zero i h = ground arith
total_one p b (suc n) i h =
    ground (arith, total_one p b n i (λ j l. h j (omega (arith, l))), h n (omega arith))

-- A test that is passed at least as often, is so in all buckets.
pub total_mono :
    (p q : ℕ → Bool) (b : ℕ → List ℕ) (n : ℕ)
    → ((x : ℕ) → p x ≡ true → q x ≡ true)
    → total p b n ≤ total q b n
total_mono p q b zero h = omega arith
total_mono p q b (suc n) h = omega (arith, total_mono p q b n h, tally-mono (b n))
  where
    tally-mono : (xs : List ℕ) → tally p xs ≤ tally q xs
    tally-mono [] = omega arith
    tally-mono (x ∷ xs) = ground (arith, tally-mono xs, h x)

pub total_at : (p : ℕ → Bool) (b : ℕ → List ℕ) (n i : ℕ) → i < n → tally p (b i) ≤ total p b n
total_at p b zero i h = absurd (omega arith)
total_at p b (suc n) i h = ground (arith, total_at p b n i)

-- ===== src/Hash/Iterate.antt =====
-- The iterators of lib/kernel/hash.c visit every element of the table.
use pintos_vm.Base.{
  ◌∙◌, ap, sym, ◌<◌, ℕ, zero, suc, ◌+◌, ◌-◌, ◌≤◌, ◌≡◌, refl, Option, none, some, List, [], ◌∷◌,
  ◌++◌, length, arith,
}
use pintos_vm.Hash.{Hash, HashIterator, hash_first, hash_next, next_bucket}

-- The elements of `n` buckets from one on, bucket by bucket.
abbrev pub elements_from : Hash → ℕ → ℕ → List ℕ
elements_from h zero i = []
elements_from h (suc n) i = h.buckets i ++ elements_from h n (i + 1)

-- What `while (hash_next (&i))` visits, for at most `fuel` rounds.
pub visited : Hash → ℕ → HashIterator → List ℕ
visited h zero i = []
visited h (suc fuel) i = elim (hash_next h i) [ none ↦ [] | some (e, i') ↦ e ∷ visited h fuel i' ]

-- What an iterator has still to visit.
abbrev pending : Hash → HashIterator → List ℕ
pending h i = i.rest ++ elements_from h (h.bucket_cnt - i.bucket - 1) (i.bucket + 1)

-- The next element is the first of those to visit.
abbrev IsNext : Hash → List ℕ → Option (ℕ × HashIterator) → Type 0
IsNext h xs none = xs ≡ []
IsNext h xs (some (e, i)) = (xs ≡ e ∷ pending h i) × (i.bucket < h.bucket_cnt)

next_bucket_lem :
    (h : Hash) (n bucket : ℕ)
    → bucket + 1 + n ≡ h.bucket_cnt
    → IsNext h (elements_from h n (bucket + 1)) (next_bucket h n bucket)
unfolding next_bucket
next_bucket_lem h zero bucket k = refl
next_bucket_lem h (suc n) bucket k =
    at (next_bucket_lem h n (bucket + 1) (omega arith)) (h.buckets (bucket + 1))
  where
    at :
        IsNext h (elements_from h n (bucket + 1 + 1)) (next_bucket h n (bucket + 1))
        → (xs : List ℕ)
        → IsNext h (xs ++ elements_from h n (bucket + 1 + 1)) (elim xs [
          | [] ↦ next_bucket h n (bucket + 1)
          | e ∷ es ↦ some (e, record { bucket = bucket + 1; rest = es })
        ])
    at later [] = later
    at later (e ∷ es) =
        let k' : h.bucket_cnt - (bucket + 1) - 1 ≡ n = omega arith in (rw k' refl, omega arith)

hash_next_lem :
    (h : Hash) (i : HashIterator) → i.bucket < h.bucket_cnt → IsNext h (pending h i) (hash_next h i)
unfolding hash_next
hash_next_lem h i k = at i.rest
  where
    at :
        (xs : List ℕ)
        → IsNext h (xs ++ elements_from h (h.bucket_cnt - i.bucket - 1) (i.bucket + 1)) (elim xs [
          | [] ↦ next_bucket h (h.bucket_cnt - i.bucket - 1) i.bucket
          | e ∷ es ↦ some (e, record i { rest = es })
        ])
    at [] = next_bucket_lem h (h.bucket_cnt - i.bucket - 1) i.bucket (omega arith)
    at (e ∷ es) = (refl, k)

visited_lem :
    (h : Hash) (fuel : ℕ) (i : HashIterator)
    → i.bucket < h.bucket_cnt
    → length (pending h i) < fuel
    → visited h fuel i ≡ pending h i
unfolding visited
visited_lem h zero i k l = absurd (omega arith)
visited_lem h (suc fuel) i k l = at (visited_lem h fuel) (hash_next h i) (hash_next_lem h i k)
  where
    at :
        ((i' : HashIterator)
          → i'.bucket < h.bucket_cnt
          → length (pending h i') < fuel
          → visited h fuel i' ≡ pending h i')
        → (r : Option (ℕ × HashIterator)) → IsNext h (pending h i) r
        → (elim r [ none ↦ [] | some (e, i') ↦ e ∷ visited h fuel i' ]) ≡ pending h i
    at later none e = sym e
    at later (some (x, i')) (e, k') =
        let m : length (pending h i) ≡ suc (length (pending h i')) = ap length e in
        ap (◌∷◌ x) (later i' k' (omega (arith, m))) ∙ sym e

-- On a table with a bucket, the loop over `hash_next` from `hash_first` on visits all elements of the
-- table, bucket by bucket and each once, and ends after one round more than there are elements.
pub hash_first_lem :
    (h : Hash)
    → 1 ≤ h.bucket_cnt
    → (n : ℕ) → length (elements_from h h.bucket_cnt 0) < n
    → visited h n (hash_first h) ≡ elements_from h h.bucket_cnt 0
unfolding hash_first
hash_first_lem h k n l =
    let e = whole h.bucket_cnt k in
    let m : length (pending h (hash_first h)) ≡ length (elements_from h h.bucket_cnt 0) =
      ap length e in
    visited_lem h n (hash_first h) (omega arith) (omega (arith, m)) ∙ e
  where
    whole : (c : ℕ) → 1 ≤ c → h.buckets 0 ++ elements_from h (c - 0 - 1) 1 ≡ elements_from h c 0
    whole zero k = absurd (omega arith)
    whole (suc c) k = let e : suc c - 0 - 1 ≡ c = omega arith in rw e refl

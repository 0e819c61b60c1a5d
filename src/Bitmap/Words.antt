-- ===== src/Bitmap/Words.antt =====
-- The `elem_type` of lib/kernel/bitmap.c: an unsigned long as its 64 bits, the lowest first.
use pintos_vm.Base.{
  ℕ, zero, suc, ◌<◌, ◌≡◌, refl, Bool, true, false, ◌&&◌, ◌||◌, not, List, [], ◌∷◌, arith, ◌==◌,
  if◌then◌else◌, length, get_or, replicate,
}

abbrev pub Word : Type 0
Word = List Bool

-- The operators `|`, `&`, `^` and `~`.
unfoldable pub word_or : Word → Word → Word
word_or [] ys = []
word_or (x ∷ xs) [] = []
word_or (x ∷ xs) (y ∷ ys) = (x || y) ∷ word_or xs ys

unfoldable pub word_and : Word → Word → Word
word_and [] ys = []
word_and (x ∷ xs) [] = []
word_and (x ∷ xs) (y ∷ ys) = (x && y) ∷ word_and xs ys

unfoldable pub word_xor : Word → Word → Word
word_xor [] ys = []
word_xor (x ∷ xs) [] = []
word_xor (x ∷ xs) (y ∷ ys) = (if x then not y else y) ∷ word_xor xs ys

unfoldable pub word_not : Word → Word
word_not [] = []
word_not (x ∷ xs) = not x ∷ word_not xs

-- `w != 0`
unfoldable pub word_ne_zero : Word → Bool
word_ne_zero [] = false
word_ne_zero (x ∷ xs) = x || word_ne_zero xs

-- `1 << k` in a word of `n` bits.
unfoldable pub one_at : ℕ → ℕ → Word
one_at zero k = []
one_at (suc n) zero = true ∷ replicate n false
one_at (suc n) (suc k) = false ∷ one_at n k

-- A mask of zeros changes nothing.
or_zeros : (w : Word) (n : ℕ) → length w ≡ n → word_or w (replicate n false) ≡ w
unfolding word_or
or_zeros [] n h = refl
or_zeros (x ∷ w) zero h = absurd (omega arith)
or_zeros (x ∷ w) (suc n) h = ground (arith, or_zeros w n)

and_not_zeros : (w : Word) (n : ℕ) → length w ≡ n → word_and w (word_not (replicate n false)) ≡ w
unfolding word_and word_not
and_not_zeros [] n h = refl
and_not_zeros (x ∷ w) zero h = absurd (omega arith)
and_not_zeros (x ∷ w) (suc n) h = ground (arith, and_not_zeros w n)

xor_zeros : (w : Word) (n : ℕ) → length w ≡ n → word_xor w (replicate n false) ≡ w
unfolding word_xor
xor_zeros [] n h = refl
xor_zeros (x ∷ w) zero h = absurd (omega arith)
xor_zeros (x ∷ w) (suc n) h = ground (arith, xor_zeros w n)

ne_zero-and_zeros : (w : Word) (n : ℕ) → word_ne_zero (word_and w (replicate n false)) ≡ false
unfolding word_and word_ne_zero
ne_zero-and_zeros [] n = refl
ne_zero-and_zeros (x ∷ w) zero = refl
ne_zero-and_zeros (x ∷ w) (suc n) = ground (arith, ne_zero-and_zeros w n)

-- The length and the bits of a word after each update at one bit.
pub length-or : (w : Word) (n k : ℕ) → length w ≡ n → length (word_or w (one_at n k)) ≡ n
unfolding word_or one_at
length-or [] n k h = h
length-or (x ∷ w) zero k h = absurd (omega arith)
length-or (x ∷ w) (suc n) zero h = ground (arith, or_zeros w n)
length-or (x ∷ w) (suc n) (suc k) h = omega (arith, length-or w n k (omega arith))

pub length-and_not :
    (w : Word) (n k : ℕ) → length w ≡ n → length (word_and w (word_not (one_at n k))) ≡ n
unfolding word_and word_not one_at
length-and_not [] n k h = h
length-and_not (x ∷ w) zero k h = absurd (omega arith)
length-and_not (x ∷ w) (suc n) zero h = ground (arith, and_not_zeros w n)
length-and_not (x ∷ w) (suc n) (suc k) h = omega (arith, length-and_not w n k (omega arith))

pub length-xor : (w : Word) (n k : ℕ) → length w ≡ n → length (word_xor w (one_at n k)) ≡ n
unfolding word_xor one_at
length-xor [] n k h = h
length-xor (x ∷ w) zero k h = absurd (omega arith)
length-xor (x ∷ w) (suc n) zero h = ground (arith, xor_zeros w n)
length-xor (x ∷ w) (suc n) (suc k) h = omega (arith, length-xor w n k (omega arith))

pub get-or :
    (w : Word) (n k j : ℕ)
    → length w ≡ n
    → k < n
    → get_or (word_or w (one_at n k)) j false ≡ (if k == j then true else get_or w j false)
unfolding word_or one_at
get-or [] n k j h lt = absurd (omega arith)
get-or (x ∷ w) zero k j h lt = absurd (omega arith)
get-or (x ∷ w) (suc n) zero zero h lt = ground arith
get-or (x ∷ w) (suc n) zero (suc j) h lt = ground (arith, or_zeros w n)
get-or (x ∷ w) (suc n) (suc k) zero h lt = ground arith
get-or (x ∷ w) (suc n) (suc k) (suc j) h lt = ground (arith, get-or w n k j)

pub get-and_not :
    (w : Word) (n k j : ℕ)
    → length w ≡ n
    → k < n
    → get_or (word_and w (word_not (one_at n k))) j false
      ≡ (if k == j then false else get_or w j false)
unfolding word_and word_not one_at
get-and_not [] n k j h lt = absurd (omega arith)
get-and_not (x ∷ w) zero k j h lt = absurd (omega arith)
get-and_not (x ∷ w) (suc n) zero zero h lt = ground arith
get-and_not (x ∷ w) (suc n) zero (suc j) h lt = ground (arith, and_not_zeros w n)
get-and_not (x ∷ w) (suc n) (suc k) zero h lt = ground arith
get-and_not (x ∷ w) (suc n) (suc k) (suc j) h lt = ground (arith, get-and_not w n k j)

pub get-xor :
    (w : Word) (n k j : ℕ)
    → length w ≡ n
    → k < n
    → get_or (word_xor w (one_at n k)) j false
      ≡ (if k == j then not (get_or w j false) else get_or w j false)
unfolding word_xor one_at
get-xor [] n k j h lt = absurd (omega arith)
get-xor (x ∷ w) zero k j h lt = absurd (omega arith)
get-xor (x ∷ w) (suc n) zero zero h lt = ground arith
get-xor (x ∷ w) (suc n) zero (suc j) h lt = ground (arith, xor_zeros w n)
get-xor (x ∷ w) (suc n) (suc k) zero h lt = ground arith
get-xor (x ∷ w) (suc n) (suc k) (suc j) h lt = ground (arith, get-xor w n k j)

-- The test of `bitmap_test` reads one bit.
pub ne_zero-and :
    (w : Word) (n k : ℕ)
    → length w ≡ n
    → k < n
    → word_ne_zero (word_and w (one_at n k)) ≡ get_or w k false
unfolding word_and word_ne_zero one_at
ne_zero-and [] n k h lt = absurd (omega arith)
ne_zero-and (x ∷ w) zero k h lt = absurd (omega arith)
ne_zero-and (x ∷ w) (suc n) zero h lt = ground (arith, ne_zero-and_zeros w n)
ne_zero-and (x ∷ w) (suc n) (suc k) h lt = ground (arith, ne_zero-and w n k)

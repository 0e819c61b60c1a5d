-- ===== src/Bitmap/Ranges.antt =====
-- The operations of lib/kernel/bitmap.c on ranges of bits.
use pintos_vm.Base.{
  ◌>>=◌, Returns, Returns-bind, Returns-mono, ℕ, zero, suc, ◌+◌, ◌≤◌, ◌<◌, ◌≡◌, refl, ap, ◌∙◌, inl,
  inr, Bool-cases, Bool, true, false, not, ◌&&◌, some, arith, ◌==◌, leb, ltb, if◌then◌else◌, beq,
}
use pintos_vm.Bitmap.{
  bitmap_all, Bitmap, bitmap_set, set_from, bitmap_set_multiple, bitmap_set_all, bitmap_size,
  count_from, bitmap_count, contains_from, bitmap_contains, assert_range,
}
use pintos_vm.Bitmap.Bits.{bit, IsValid, IsSetTo, bitmap_set_lem, test-eq-bit}

abbrev pub inside : ℕ → ℕ → ℕ → Bool
inside start cnt j = leb start j && ltb j (start + cnt)

IsSetTo-step :
    (b c d : Bitmap) (i n : ℕ) (value : Bool)
    → IsSetTo b value (λ j. i == j) c
    → IsSetTo c value (inside (i + 1) n) d
    → IsSetTo b value (inside i (suc n)) d
IsSetTo-step b c d i n value p q = record {
  valid = q.valid;
  size = omega (arith, p.size, q.size);
  bits = λ j. ground (arith, p.bits j, q.bits j);
}

set_from_lem :
    (n i : ℕ) (b : Bitmap) (value : Bool)
    → IsValid b
    → i + n ≤ b.bit_cnt
    → Returns (IsSetTo b value (inside i n)) (set_from b i n value)
unfolding set_from
set_from_lem zero i b value v h = record { valid = v; size = refl; bits = λ j. ground arith }
set_from_lem (suc n) i b value v h =
    Returns-bind (IsSetTo b value (λ j. i == j)) (IsSetTo b value (inside i (suc n)))
      (bitmap_set b i value) (λ c. set_from c (i + 1) n value)
      (bitmap_set_lem b i value v (omega arith))
      λ c p.
        Returns-mono (IsSetTo c value (inside (i + 1) n)) (IsSetTo b value (inside i (suc n)))
          (set_from c (i + 1) n value)
          (set_from_lem n (i + 1) c value p.valid (omega (arith, p.size)))
          λ d q. IsSetTo-step b c d i n value p q

range_ok :
    (b : Bitmap) (start cnt : ℕ)
    → IsValid b
    → start + cnt ≤ b.bit_cnt
    → assert_range b start cnt ≡ some tt
range_ok b start cnt v h = ground (arith, v.fits)

-- On a well-formed bitmap and a range inside it, `bitmap_set_multiple` returns a well-formed bitmap of
-- the same size: the bits of the range have the given value, all others are what they were.
pub bitmap_set_multiple_lem :
    (b : Bitmap) (start cnt : ℕ) (value : Bool)
    → IsValid b
    → start + cnt ≤ b.bit_cnt
    → Returns (IsSetTo b value (inside start cnt)) (bitmap_set_multiple b start cnt value)
unfolding bitmap_set_multiple
bitmap_set_multiple_lem b start cnt value v h =
    rw (range_ok b start cnt v h) (set_from_lem cnt start b value v h)

pub bitmap_set_all_lem :
    (b : Bitmap) (value : Bool)
    → IsValid b
    → Returns (IsSetTo b value (inside 0 b.bit_cnt)) (bitmap_set_all b value)
unfolding bitmap_set_all bitmap_size
bitmap_set_all_lem b value v = bitmap_set_multiple_lem b 0 b.bit_cnt value v (omega arith)

-- How many of the `n` bits from `i` on have the value.
abbrev pub count_bits : (ℕ → Bool) → Bool → ℕ → ℕ → ℕ
count_bits f value i zero = 0
count_bits f value i (suc n) = (if beq (f i) value then 1 else 0) + count_bits f value (i + 1) n

count_from_lem :
    (n i acc : ℕ) (b : Bitmap) (value : Bool)
    → IsValid b
    → i + n ≤ b.bit_cnt
    → count_from b i n value acc ≡ some (acc + count_bits (bit b) value i n)
unfolding count_from
count_from_lem zero i acc b value v h = ground arith
count_from_lem (suc n) i acc b value v h =
    rw (test-eq-bit b i v (omega arith)) (elim (Bool-cases (beq (bit b i) value)) [
      | inl e ↦
          rw e (count_from_lem n (i + 1) (acc + 1) b value v (omega arith) ∙ ap some (omega arith))
      | inr e ↦ rw e (count_from_lem n (i + 1) acc b value v (omega arith) ∙ ap some (omega arith))
    ])

-- On a well-formed bitmap and a range inside it, `bitmap_count` returns the number of bits of the range
-- that have the value.
pub bitmap_count_lem :
    (b : Bitmap) (start cnt : ℕ) (value : Bool)
    → IsValid b
    → start + cnt ≤ b.bit_cnt
    → bitmap_count b start cnt value ≡ some (count_bits (bit b) value start cnt)
unfolding bitmap_count
bitmap_count_lem b start cnt value v h =
    rw (range_ok b start cnt v h) (count_from_lem cnt start 0 b value v h ∙ ap some (omega arith))

-- Whether one of the `n` bits from `i` on has the value.
abbrev pub some_bit : (ℕ → Bool) → Bool → ℕ → ℕ → Bool
some_bit f value i zero = false
some_bit f value i (suc n) = if beq (f i) value then true else some_bit f value (i + 1) n

contains_from_lem :
    (n i : ℕ) (b : Bitmap) (value : Bool)
    → IsValid b
    → i + n ≤ b.bit_cnt
    → contains_from b i n value ≡ some (some_bit (bit b) value i n)
unfolding contains_from
contains_from_lem zero i b value v h = refl
contains_from_lem (suc n) i b value v h =
    rw (test-eq-bit b i v (omega arith), contains_from_lem n (i + 1) b value v (omega arith))
      (ground arith)

pub contains_eq :
    (b : Bitmap) (start cnt : ℕ) (value : Bool)
    → IsValid b
    → start + cnt ≤ b.bit_cnt
    → bitmap_contains b start cnt value ≡ some (some_bit (bit b) value start cnt)
unfolding bitmap_contains
contains_eq b start cnt value v h =
    rw (range_ok b start cnt v h) (contains_from_lem cnt start b value v h)

-- A bit that has the value, or the fact that none has.
pub some_bit_found :
    (f : ℕ → Bool) (value : Bool) (n i : ℕ)
    → some_bit f value i n ≡ true
    → (j : ℕ) × (i ≤ j) × (j < i + n) × (f j ≡ value)
some_bit_found f value zero i h = cc
some_bit_found f value (suc n) i h = elim (Bool-cases (beq (f i) value)) [
  | inl hit ↦ (i, omega arith, omega arith, ground arith)
  | inr miss ↦
      let (j, lo, hi, e) = some_bit_found f value n (i + 1) (ground arith) in
      (j, omega arith, omega arith, e)
]

pub some_bit_absent :
    (f : ℕ → Bool) (value : Bool) (n i j : ℕ)
    → some_bit f value i n ≡ false
    → i ≤ j
    → j < i + n
    → f j ≡ not value
some_bit_absent f value zero i j h lo hi = absurd (omega arith)
some_bit_absent f value (suc n) i j h lo hi = ground (arith, some_bit_absent f value n (i + 1) j)

-- On a well-formed bitmap and a range inside it, `bitmap_contains` returns true exactly if some bit of
-- the range has the value.
pub bitmap_contains_lem :
    (b : Bitmap) (start cnt : ℕ) (value : Bool)
    → IsValid b
    → start + cnt ≤ b.bit_cnt
    → (r : Bool) × (bitmap_contains b start cnt value ≡ some r)
      × (r ≡ true → (j : ℕ) × (start ≤ j) × (j < start + cnt) × (bit b j ≡ value))
      × (r ≡ false → (j : ℕ) → start ≤ j → j < start + cnt → bit b j ≡ not value)
bitmap_contains_lem b start cnt value v h = (
  some_bit (bit b) value start cnt,
  contains_eq b start cnt value v h,
  some_bit_found (bit b) value cnt start,
  λ e j. some_bit_absent (bit b) value cnt start j e,
)

-- If all bits of a range are set, `bitmap_all` returns true.
pub bitmap_all_lem :
    (b : Bitmap) (start cnt : ℕ)
    → IsValid b
    → start + cnt ≤ b.bit_cnt
    → ((j : ℕ) → start ≤ j → j < start + cnt → bit b j ≡ true)
    → bitmap_all b start cnt ≡ some true
unfolding bitmap_all
bitmap_all_lem b start cnt v h set = go (bitmap_contains_lem b start cnt false v h)
  where
    go :
        (r : Bool) × (bitmap_contains b start cnt false ≡ some r)
          × (r ≡ true → (j : ℕ) × (start ≤ j) × (j < start + cnt) × (bit b j ≡ false))
          × (r ≡ false → (j : ℕ) → start ≤ j → j < start + cnt → bit b j ≡ true)
        → (bitmap_contains b start cnt false >>= λ r. some (not r)) ≡ some true
    go (true, e, found, absent) = let (j, lo, hi, c) = found refl in absurd (ground (arith, set j))
    go (false, e, found, absent) = rw e refl

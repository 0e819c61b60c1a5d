-- ===== src/Bitmap/Bits.antt =====
-- A bitmap of lib/kernel/bitmap.c read as a function from indices to bits.
use pintos_vm.Base.{
  ℕ, zero, suc, ◌+◌, ◌*◌, ◌/◌, ◌%◌, ◌^◌, ◌≤◌, ◌<◌, ◌≡◌, refl, Bool, true, false, not, none, some,
  List, [], ◌∷◌, arith, ◌==◌, if◌then◌else◌, length, get_or, set, All, length-set, Returns,
}
use pintos_vm.Bitmap.{
  Bitmap, bit_mask, elem, bitmap_mark, bitmap_reset, bitmap_flip, bitmap_set, bitmap_test,
}
use pintos_vm.Bitmap.Words.{
  Word, word_or, word_and, word_xor, word_not, length-or, length-and_not, length-xor, get-or,
  get-and_not, get-xor, ne_zero-and,
}

-- The bit at index `i`.
abbrev pub bit : Bitmap → ℕ → Bool
bit b i = get_or (elem b (i / 64)) (i % 64) false

-- There is a word for every bit, and each word has 64 bits.
pub record IsValid (b : Bitmap) : Type 0 where
  pub enough : b.bit_cnt ≤ 64 * length b.bits
  pub words : All (λ (w : Word). length w ≡ 64) b.bits
  pub fits : b.bit_cnt + 1 < 2 ^ 32

All-get :
    (ws : List Word) (i : ℕ)
    → All (λ (w : Word). length w ≡ 64) ws
    → i < length ws
    → length (get_or ws i []) ≡ 64
All-get [] i h lt = absurd (omega arith)
All-get (w ∷ ws) zero h lt = h.0
All-get (w ∷ ws) (suc i) h lt = All-get ws i h.1 (omega arith)

All-set :
    (ws : List Word) (i : ℕ) (v : Word)
    → All (λ (w : Word). length w ≡ 64) ws
    → length v ≡ 64
    → All (λ (w : Word). length w ≡ 64) (set ws i v)
All-set [] i v h e = h
All-set (w ∷ ws) zero v h e = (e, h.1)
All-set (w ∷ ws) (suc i) v h e = (h.0, All-set ws i v h.1 e)

get_or-set :
    (ws : List Word) (i j : ℕ) (v : Word)
    → i < length ws
    → get_or (set ws i v) j [] ≡ (if i == j then v else get_or ws j [])
get_or-set [] i j v h = absurd (omega arith)
get_or-set (w ∷ ws) zero zero v h = ground arith
get_or-set (w ∷ ws) zero (suc j) v h = ground arith
get_or-set (w ∷ ws) (suc i) zero v h = ground arith
get_or-set (w ∷ ws) (suc i) (suc j) v h = ground (arith, get_or-set ws i j v)

length-elem : (b : Bitmap) (i : ℕ) → IsValid b → i < b.bit_cnt → length (elem b (i / 64)) ≡ 64
length-elem b i v h = All-get b.bits (i / 64) v.words (omega (arith, v.enough))

-- Writing a word changes the bits of that word only.
bit-set_word :
    (b : Bitmap) (i j : ℕ) (w : Word)
    → IsValid b
    → i < b.bit_cnt
    → bit (record b { bits = set b.bits (i / 64) w }) j
      ≡ (if i / 64 == j / 64 then get_or w (j % 64) false else bit b j)
bit-set_word b i j w v h = ground (arith, get_or-set b.bits (i / 64) (j / 64) w)

set_word-IsValid :
    (b : Bitmap) (i : ℕ) (w : Word)
    → IsValid b
    → length w ≡ 64
    → IsValid (record b { bits = set b.bits (i / 64) w })
set_word-IsValid b i w v e = record {
  enough = omega (arith, v.enough, length-set b.bits (i / 64) w);
  words = All-set b.bits (i / 64) w v.words e;
  fits = v.fits;
}

module _ (b : Bitmap) (i : ℕ) (v : IsValid b) (h : i < b.bit_cnt) where
  pub bit-mark : (j : ℕ) → bit (bitmap_mark b i) j ≡ (if i == j then true else bit b j)
  unfolding bitmap_mark
  bit-mark j = ground (
    arith,
    bit-set_word b i j (word_or (elem b (i / 64)) (bit_mask i)) v h,
    get-or (elem b (i / 64)) 64 (i % 64) (j % 64) (length-elem b i v h) (omega arith),
  )

  pub bit-reset : (j : ℕ) → bit (bitmap_reset b i) j ≡ (if i == j then false else bit b j)
  unfolding bitmap_reset
  bit-reset j = ground (
    arith,
    bit-set_word b i j (word_and (elem b (i / 64)) (word_not (bit_mask i))) v h,
    get-and_not (elem b (i / 64)) 64 (i % 64) (j % 64) (length-elem b i v h) (omega arith),
  )

  -- `bitmap_flip` inverts the bit at its index and leaves every other bit alone, if the bitmap is well
  -- formed and the index lies in it.
  pub bit-flip : (j : ℕ) → bit (bitmap_flip b i) j ≡ (if i == j then not (bit b j) else bit b j)
  unfolding bitmap_flip
  bit-flip j = ground (
    arith,
    bit-set_word b i j (word_xor (elem b (i / 64)) (bit_mask i)) v h,
    get-xor (elem b (i / 64)) 64 (i % 64) (j % 64) (length-elem b i v h) (omega arith),
  )

  pub mark-IsValid : IsValid (bitmap_mark b i)
  unfolding bitmap_mark
  mark-IsValid = set_word-IsValid b i _ v (length-or _ 64 (i % 64) (length-elem b i v h))

  pub reset-IsValid : IsValid (bitmap_reset b i)
  unfolding bitmap_reset
  reset-IsValid = set_word-IsValid b i _ v (length-and_not _ 64 (i % 64) (length-elem b i v h))

  pub flip-IsValid : IsValid (bitmap_flip b i)
  unfolding bitmap_flip
  flip-IsValid = set_word-IsValid b i _ v (length-xor _ 64 (i % 64) (length-elem b i v h))

  pub test-eq-bit : bitmap_test b i ≡ some (bit b i)
  unfolding bitmap_test
  test-eq-bit = ground (arith, ne_zero-and (elem b (i / 64)) 64 (i % 64) (length-elem b i v h))

-- The bitmap that `bitmap_set` leaves.
pub record IsSetTo (b : Bitmap) (value : Bool) (inside : ℕ → Bool) (c : Bitmap) : Type 0 where
  pub valid : IsValid c
  pub size : c.bit_cnt ≡ b.bit_cnt
  pub bits : (j : ℕ) → bit c j ≡ (if inside j then value else bit b j)

cnt-mark : (b : Bitmap) (i : ℕ) → (bitmap_mark b i).bit_cnt ≡ b.bit_cnt
unfolding bitmap_mark
cnt-mark b i = refl

cnt-reset : (b : Bitmap) (i : ℕ) → (bitmap_reset b i).bit_cnt ≡ b.bit_cnt
unfolding bitmap_reset
cnt-reset b i = refl

pub set-eq :
    (b : Bitmap) (i : ℕ) (value : Bool)
    → i < b.bit_cnt
    → bitmap_set b i value ≡ some (if value then bitmap_mark b i else bitmap_reset b i)
unfolding bitmap_set
set-eq b i value h = ground arith

-- On a well-formed bitmap and an index in it, `bitmap_set` returns a well-formed bitmap of the same
-- size in which just that bit has the given value.
pub bitmap_set_lem :
    (b : Bitmap) (i : ℕ) (value : Bool)
    → IsValid b
    → i < b.bit_cnt
    → Returns (IsSetTo b value (λ j. i == j)) (bitmap_set b i value)
bitmap_set_lem b i true v h =
    rw (set-eq b i true h)
      (record { valid = mark-IsValid b i v h; size = cnt-mark b i; bits = bit-mark b i v h })
bitmap_set_lem b i false v h =
    rw (set-eq b i false h)
      (record { valid = reset-IsValid b i v h; size = cnt-reset b i; bits = bit-reset b i v h })

-- Outside the bitmap the ASSERTs of `bitmap_set` and `bitmap_test` fail.
pub set-eq-none : (b : Bitmap) (i : ℕ) (value : Bool) → b.bit_cnt ≤ i → bitmap_set b i value ≡ none
unfolding bitmap_set
set-eq-none b i value h = ground arith

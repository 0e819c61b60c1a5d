-- ===== src/Bitmap.antt =====
-- lib/kernel/bitmap.c: arrays of bits packed into words of 64. `none` is a failed ASSERT.
mod Words
pub mod Bits
pub mod Ranges
pub mod Scan
pub mod Create
mod Tests
use pintos_vm.Base.{
  ℕ, zero, suc, ◌+◌, ◌-◌, ◌*◌, ◌/◌, ◌%◌, ◌^◌, Bool, true, false, not, ◌&&◌, ◌||◌, Option, none,
  some, List, [], ◌==◌, leb, ltb, if◌then◌else◌, beq, ◌>>=◌, ◌>>◌, assert, get_or, set,
}
use Words.{Word, word_or, word_and, word_xor, word_not, word_ne_zero, one_at}

-- `ELEM_BITS`
abbrev pub elem_bits : ℕ
elem_bits = 64

-- `BITMAP_ERROR`, which is SIZE_MAX: lib/stdint.h gives it 32 bits.
abbrev pub bitmap_error : ℕ
bitmap_error = 2 ^ 32 - 1

-- `struct bitmap`
pub record Bitmap : Type 0 where
  pub bit_cnt : ℕ
  pub bits : List Word

abbrev pub elem_idx : ℕ → ℕ
elem_idx bit_idx = bit_idx / elem_bits

abbrev pub bit_mask : ℕ → Word
bit_mask bit_idx = one_at elem_bits (bit_idx % elem_bits)

-- `DIV_ROUND_UP`, with the sum a size_t.
abbrev pub elem_cnt : ℕ → ℕ
elem_cnt bit_cnt = (bit_cnt + (elem_bits - 1)) % 2 ^ 64 / elem_bits

abbrev pub byte_cnt : ℕ → ℕ
byte_cnt bit_cnt = 8 * elem_cnt bit_cnt

-- `b->bits[i]`
abbrev pub elem : Bitmap → ℕ → Word
elem b i = get_or b.bits i []

pub bitmap_size : Bitmap → ℕ
bitmap_size b = b.bit_cnt

pub bitmap_mark : Bitmap → ℕ → Bitmap
bitmap_mark b bit_idx =
    let idx = elem_idx bit_idx in
    record b { bits = set b.bits idx (word_or (elem b idx) (bit_mask bit_idx)) }

pub bitmap_reset : Bitmap → ℕ → Bitmap
bitmap_reset b bit_idx =
    let idx = elem_idx bit_idx in
    record b { bits = set b.bits idx (word_and (elem b idx) (word_not (bit_mask bit_idx))) }

pub bitmap_flip : Bitmap → ℕ → Bitmap
bitmap_flip b bit_idx =
    let idx = elem_idx bit_idx in
    record b { bits = set b.bits idx (word_xor (elem b idx) (bit_mask bit_idx)) }

pub bitmap_set : Bitmap → ℕ → Bool → Option Bitmap
bitmap_set b idx value = do
  assert (ltb idx b.bit_cnt)
  some (if value then bitmap_mark b idx else bitmap_reset b idx)

pub bitmap_test : Bitmap → ℕ → Option Bool
bitmap_test b idx = do
  assert (ltb idx b.bit_cnt)
  some (word_ne_zero (word_and (elem b (elem_idx idx)) (bit_mask idx)))

-- The ASSERTs of the operations on a range; `start + cnt` is a size_t.
abbrev pub assert_range : Bitmap → ℕ → ℕ → Option (Unit {0})
assert_range b start cnt = do
  assert (leb start b.bit_cnt)
  assert (leb ((start + cnt) % 2 ^ 64) b.bit_cnt)

-- The loops: `n` bits are left, from bit `i` on.
pub set_from : Bitmap → ℕ → ℕ → Bool → Option Bitmap
set_from b i zero value = some b
set_from b i (suc n) value = bitmap_set b i value >>= λ b'. set_from b' (i + 1) n value

pub bitmap_set_multiple : Bitmap → ℕ → ℕ → Bool → Option Bitmap
bitmap_set_multiple b start cnt value = do assert_range b start cnt; set_from b start cnt value

pub bitmap_set_all : Bitmap → Bool → Option Bitmap
unfolding bitmap_size
bitmap_set_all b value = bitmap_set_multiple b 0 (bitmap_size b) value

pub count_from : Bitmap → ℕ → ℕ → Bool → ℕ → Option ℕ
count_from b i zero value value_cnt = some value_cnt
count_from b i (suc n) value value_cnt = bitmap_test b i >>= λ t.
    count_from b (i + 1) n value (if beq t value then value_cnt + 1 else value_cnt)

pub bitmap_count : Bitmap → ℕ → ℕ → Bool → Option ℕ
bitmap_count b start cnt value = do assert_range b start cnt; count_from b start cnt value 0

pub contains_from : Bitmap → ℕ → ℕ → Bool → Option Bool
contains_from b i zero value = some false
contains_from b i (suc n) value =
    let rest = contains_from b (i + 1) n value in
    bitmap_test b i >>= λ t. if beq t value then some true else rest

pub bitmap_contains : Bitmap → ℕ → ℕ → Bool → Option Bool
bitmap_contains b start cnt value = do assert_range b start cnt; contains_from b start cnt value

pub bitmap_any : Bitmap → ℕ → ℕ → Option Bool
bitmap_any b start cnt = bitmap_contains b start cnt true

pub bitmap_none : Bitmap → ℕ → ℕ → Option Bool
bitmap_none b start cnt = bitmap_contains b start cnt true >>= λ r. some (not r)

pub bitmap_all : Bitmap → ℕ → ℕ → Option Bool
bitmap_all b start cnt = bitmap_contains b start cnt false >>= λ r. some (not r)

-- `for (i = start; i <= last; i++)`: `n` rounds are left.
pub scan_from : Bitmap → ℕ → ℕ → ℕ → Bool → Option ℕ
scan_from b i zero cnt value = some bitmap_error
scan_from b i (suc n) cnt value =
    let rest = scan_from b (i + 1) n cnt value in
    bitmap_contains b i cnt (not value) >>= λ r. if r then rest else some i

-- With `cnt <= bit_cnt` the loop makes `last + 1 - start` rounds for `last = bit_cnt - cnt`.
pub bitmap_scan : Bitmap → ℕ → ℕ → Bool → Option ℕ
bitmap_scan b start cnt value = do
  assert (leb start b.bit_cnt)
  if leb cnt b.bit_cnt
      then scan_from b start (b.bit_cnt - cnt + 1 - start) cnt value
      else some bitmap_error

-- The bitmap after the call, and what it returns.
pub bitmap_scan_and_flip : Bitmap → ℕ → ℕ → Bool → Option (Bitmap × ℕ)
bitmap_scan_and_flip b start cnt value = do
  idx ← bitmap_scan b start cnt value
  if idx == bitmap_error
      then some (b, idx)
      else (bitmap_set_multiple b idx cnt (not value) >>= λ b'. some (b', idx))

-- What the two calls of malloc return: the header or NULL, and the words or NULL.
pub record Allocation : Type 0 where
  pub header : Bool
  pub words : Option (List Word)

-- `b->bits` when the second call returned NULL, which is read only if there are no bits.
abbrev pub words_of : Option (List Word) → List Word
words_of none = []
words_of (some ws) = ws

abbrev pub is_some : Option (List Word) → Bool
is_some none = false
is_some (some ws) = true

-- NULL is an inner `none`.
pub bitmap_create : ℕ → Allocation → Option (Option Bitmap)
bitmap_create bit_cnt a =
    if a.header && (is_some a.words || bit_cnt == 0)
    then (bitmap_set_all (record { bit_cnt = bit_cnt; bits = words_of a.words }) false >>= λ b.
        some (some b))
    else some none

-- `sizeof (struct bitmap)` is 16.
pub bitmap_buf_size : ℕ → ℕ
bitmap_buf_size bit_cnt = 16 + byte_cnt bit_cnt

-- The words are those of the block behind the header.
pub bitmap_create_in_buf : ℕ → List Word → ℕ → Option Bitmap
unfolding bitmap_buf_size
bitmap_create_in_buf bit_cnt block block_size = do
  assert (leb (bitmap_buf_size bit_cnt) block_size)
  bitmap_set_all (record { bit_cnt = bit_cnt; bits = block }) false

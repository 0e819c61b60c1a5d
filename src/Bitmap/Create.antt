-- ===== src/Bitmap/Create.antt =====
-- `bitmap_create` of lib/kernel/bitmap.c, over what malloc returns.
use pintos_vm.Base.{
  Returns, ℕ, ◌^◌, ◌+◌, ◌<◌, ◌≡◌, ◌⊎◌, true, false, Option, none, some, List, arith, length, All,
  ◌>>=◌,
}
use pintos_vm.Bitmap.{Bitmap, Allocation, bitmap_create, bitmap_set_all, elem_cnt}
use pintos_vm.Bitmap.Words.{Word}
use pintos_vm.Bitmap.Bits.{bit, IsValid, IsSetTo}
use pintos_vm.Bitmap.Ranges.{bitmap_set_all_lem, inside}

-- A bitmap of `cnt` bits, all clear.
pub record IsClear (cnt : ℕ) (b : Bitmap) : Type 0 where
  pub valid : IsValid b
  pub size : b.bit_cnt ≡ cnt
  pub clear : (j : ℕ) → j < cnt → bit b j ≡ false

-- A block of as many words as `byte_cnt` asks for.
abbrev pub IsBlock : ℕ → List Word → Type 0
IsBlock bit_cnt ws = (length ws ≡ elem_cnt bit_cnt) × All (λ (w : Word). length w ≡ 64) ws

block-IsValid :
    (bit_cnt : ℕ) (ws : List Word)
    → bit_cnt + 1 < 2 ^ 32
    → IsBlock bit_cnt ws
    → IsValid (record { bit_cnt = bit_cnt; bits = ws })
block-IsValid bit_cnt ws h (e, w) = record { enough = omega arith; words = w; fits = h }

cleared : (b c : Bitmap) → IsSetTo b false (inside 0 b.bit_cnt) c → IsClear b.bit_cnt c
cleared b c p = record { valid = p.valid; size = p.size; clear = λ j h. ground (arith, p.bits j) }

abbrev pub IsClearOption : ℕ → Option Bitmap → Type 0
IsClearOption cnt none = ⊥
IsClearOption cnt (some b) = IsClear cnt b

-- If malloc gives the header and a block of the size that is asked for, `bitmap_create` returns a
-- well-formed bitmap of that many bits, all clear.
pub bitmap_create_lem :
    (bit_cnt : ℕ) (ws : List Word)
    → bit_cnt + 1 < 2 ^ 32
    → IsBlock bit_cnt ws
    → Returns
        (IsClearOption bit_cnt)
        (bitmap_create bit_cnt (record { header = true; words = some ws }))
unfolding bitmap_create
bitmap_create_lem bit_cnt ws h k =
    made (bitmap_set_all b false) (bitmap_set_all_lem b false (block-IsValid bit_cnt ws h k))
  where
    b : Bitmap
    b = record { bit_cnt = bit_cnt; bits = ws }

    made :
        (m : Option Bitmap)
        → Returns (IsSetTo b false (inside 0 bit_cnt)) m
        → Returns (IsClearOption bit_cnt) (m >>= λ c. some (some c))
    made none p = absurd p
    made (some c) p = cleared b c p

-- `bitmap_create` returns NULL if malloc does not give the header, or not the words of a bitmap that
-- has any bits.
pub bitmap_create_fails :
    (bit_cnt : ℕ) (a : Allocation)
    → (a.header ≡ false) ⊎ ((a.words ≡ none) × (0 < bit_cnt))
    → bitmap_create bit_cnt a ≡ some none
unfolding bitmap_create
bitmap_create_fails bit_cnt a h = ground arith

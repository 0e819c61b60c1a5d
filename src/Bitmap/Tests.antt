-- ===== src/Bitmap/Tests.antt =====
-- Concrete runs of the bitmaps of lib/kernel/bitmap.c.
use pintos_vm.Base.{Returns, ◌≡◌, refl, true, false, some, [], ◌∷◌, arith, replicate}
use pintos_vm.Bitmap.{
  Bitmap, bitmap_contains, bitmap_scan, bitmap_scan_and_flip, bitmap_test, scan_from, contains_from,
}
use pintos_vm.Bitmap.Words.{word_and, word_ne_zero, one_at}
use pintos_vm.Bitmap.Bits.{IsValid}
use pintos_vm.Bitmap.Scan.{IsFlipped, bitmap_scan_and_flip_lem}

-- Bits 0, 1 and 64 of 70 are set.
abbrev sample : Bitmap
sample = record {
  bit_cnt = 70;
  bits = (true ∷ true ∷ replicate 62 false) ∷ (true ∷ replicate 63 false) ∷ [];
}

sample-IsValid : IsValid sample
sample-IsValid = omega arith

scan-sample : bitmap_scan sample 1 3 false ≡ some 2
unfolding bitmap_scan scan_from bitmap_contains contains_from bitmap_test word_and word_ne_zero
    one_at
scan-sample = refl

-- With no bits asked for the result is the start, not 0.
scan-zero : bitmap_scan sample 5 0 true ≡ some 5
unfolding bitmap_scan scan_from bitmap_contains contains_from
scan-zero = refl

bitmap_scan_and_flip_lem_example :
    Returns (IsFlipped sample 1 3 false) (bitmap_scan_and_flip sample 1 3 false)
bitmap_scan_and_flip_lem_example =
    bitmap_scan_and_flip_lem sample 1 3 false sample-IsValid (omega arith) (omega arith)

-- ===== src/Bitmap/Scan.antt =====
-- `bitmap_scan` and `bitmap_scan_and_flip` of lib/kernel/bitmap.c find the first group of bits.
use pintos_vm.Base.{
  Returns, Returns-mono, ℕ, zero, suc, ◌+◌, ◌-◌, ◌≤◌, ◌<◌, ◌≡◌, refl, ◌∙◌, ◌⊎◌, inl, inr,
  Bool-cases, Bool, true, false, not, Option, none, some, arith, ◌==◌, leb, if◌then◌else◌, ◌>>=◌,
}
use pintos_vm.Bitmap.{
  Bitmap, bitmap_error, bitmap_contains, scan_from, bitmap_scan, bitmap_scan_and_flip,
  bitmap_set_multiple,
}
use pintos_vm.Bitmap.Bits.{bit, IsValid, IsSetTo}
use pintos_vm.Bitmap.Ranges.{bitmap_contains_lem, bitmap_set_multiple_lem, inside}

module _ (b : Bitmap) (value : Bool) (cnt : ℕ) where
  -- All `cnt` bits from `i` on have the value.
  abbrev pub IsGroup : ℕ → Type 0
  IsGroup i = (j : ℕ) → i ≤ j → j < i + cnt → bit b j ≡ value

  -- One of them has the other value.
  abbrev pub IsBroken : ℕ → Type 0
  IsBroken i = (j : ℕ) × (i ≤ j) × (j < i + cnt) × (bit b j ≡ not value)

  -- `r` is the first group that starts at one of the `n` indices from `i` on, or there is none.
  abbrev pub IsFirst : ℕ → ℕ → ℕ → Type 0
  IsFirst i n r =
      ((i ≤ r) × (r < i + n) × IsGroup r × ((k : ℕ) → i ≤ k → k < r → IsBroken k))
      ⊎ ((r ≡ bitmap_error) × ((k : ℕ) → i ≤ k → k < i + n → IsBroken k))

not-not : (x : Bool) → not (not x) ≡ x
not-not true = refl
not-not false = refl

IsGroup-at :
    (b : Bitmap) (i cnt : ℕ) (value : Bool)
    → IsValid b
    → i + cnt ≤ b.bit_cnt
    → ((bitmap_contains b i cnt (not value) ≡ some false) × IsGroup b value cnt i)
      ⊎ ((bitmap_contains b i cnt (not value) ≡ some true) × IsBroken b value cnt i)
IsGroup-at b i cnt value v h = go (bitmap_contains_lem b i cnt (not value) v h)
  where
    go :
        (r : Bool) × (bitmap_contains b i cnt (not value) ≡ some r)
          × (r ≡ true → (j : ℕ) × (i ≤ j) × (j < i + cnt) × (bit b j ≡ not value))
          × (r ≡ false → (j : ℕ) → i ≤ j → j < i + cnt → bit b j ≡ not (not value))
        → ((bitmap_contains b i cnt (not value) ≡ some false) × IsGroup b value cnt i)
          ⊎ ((bitmap_contains b i cnt (not value) ≡ some true) × IsBroken b value cnt i)
    go (true, e, found, absent) = inr (e, found refl)
    go (false, e, found, absent) = inl (e, λ j lo hi. absent refl j lo hi ∙ not-not value)

IsBroken-from :
    (b : Bitmap) (value : Bool) (cnt i m k : ℕ)
    → IsBroken b value cnt i
    → ((k : ℕ) → i + 1 ≤ k → k < m → IsBroken b value cnt k)
    → i ≤ k
    → k < m
    → IsBroken b value cnt k
IsBroken-from b value cnt i m k broken later lo hi = elim (Bool-cases (i == k)) [
  | inl e ↦ let p : i ≡ k = ground arith in rw (← p) broken
  | inr ne ↦ later k (ground arith) hi
]

later-IsFirst :
    (b : Bitmap) (value : Bool) (cnt i n r : ℕ)
    → IsBroken b value cnt i
    → IsFirst b value cnt (i + 1) n r
    → IsFirst b value cnt i (suc n) r
later-IsFirst b value cnt i n r broken (inl (lo, hi, group, before)) =
    inl (omega arith, omega arith, group, λ k. IsBroken-from b value cnt i r k broken before)
later-IsFirst b value cnt i n r broken (inr (e, all)) =
    inr (e, λ k lo hi. IsBroken-from b value cnt i (i + 1 + n) k broken all lo (omega arith))

scan_from_lem :
    (n i : ℕ) (b : Bitmap) (cnt : ℕ) (value : Bool)
    → IsValid b
    → i + n + cnt ≤ b.bit_cnt + 1
    → Returns (IsFirst b value cnt i n) (scan_from b i n cnt value)
unfolding scan_from
scan_from_lem zero i b cnt value v h = inr (refl, λ k lo hi. absurd (omega arith))
scan_from_lem (suc n) i b cnt value v h = elim (IsGroup-at b i cnt value v (omega arith)) [
  | inl (e, group) ↦ rw e (inl (omega arith, omega arith, group, λ k lo hi. absurd (omega arith)))
  | inr (e, broken) ↦ rw e (
      Returns-mono (IsFirst b value cnt (i + 1) n) (IsFirst b value cnt i (suc n))
        (scan_from b (i + 1) n cnt value) (scan_from_lem n (i + 1) b cnt value v (omega arith))
        λ r. later-IsFirst b value cnt i n r broken)
]

-- On a well-formed bitmap, a start inside it and a group length that is at most its size, `bitmap_scan`
-- returns the first index from `start` on at which `cnt` bits in a row have the value and lie in the
-- bitmap, and before which there is none; or BITMAP_ERROR, and there is none at all.
pub bitmap_scan_lem :
    (b : Bitmap) (start cnt : ℕ) (value : Bool)
    → IsValid b
    → start ≤ b.bit_cnt
    → cnt ≤ b.bit_cnt
    → Returns
        (IsFirst b value cnt start (b.bit_cnt - cnt + 1 - start))
        (bitmap_scan b start cnt value)
unfolding bitmap_scan scan_from
bitmap_scan_lem b start cnt value v h k = elim (Bool-cases (leb start (b.bit_cnt - cnt + 1))) [
  | inl fits ↦
      let e : leb start b.bit_cnt ≡ true = ground arith in
      let e' : leb cnt b.bit_cnt ≡ true = ground arith in
      rw (e, e') (scan_from_lem (b.bit_cnt - cnt + 1 - start) start b cnt value v (ground arith))
  | inr past ↦
      let e : leb start b.bit_cnt ≡ true = ground arith in
      let e' : leb cnt b.bit_cnt ≡ true = ground arith in
      let z : b.bit_cnt - cnt + 1 - start ≡ 0 = ground arith in
      rw (e, e', z) (inr (refl, λ i lo hi. absurd (omega arith)))
]

-- What `bitmap_scan_and_flip` leaves and returns: a first group that now has the other value, while
-- all other bits are what they were; or BITMAP_ERROR, with the bitmap unchanged.
abbrev pub IsFlipped : Bitmap → ℕ → ℕ → Bool → Bitmap × ℕ → Type 0
IsFlipped b start cnt value (c, r) =
    (IsFirst b value cnt start (b.bit_cnt - cnt + 1 - start) r)
    × (((r ≡ bitmap_error) × (c ≡ b))
        ⊎ ((r + cnt ≤ b.bit_cnt) × IsSetTo b (not value) (inside r cnt) c))

flip_found :
    (b : Bitmap) (start cnt : ℕ) (value : Bool) (r : ℕ)
    → IsValid b
    → cnt ≤ b.bit_cnt
    → IsFirst b value cnt start (b.bit_cnt - cnt + 1 - start) r
    → Returns (IsFlipped b start cnt value) (
        if r == bitmap_error
        then some (b, r)
        else (bitmap_set_multiple b r cnt (not value) >>= λ b'. some (b', r)))
flip_found b start cnt value r v k (inr (e, all)) = rw e (inr (refl, all), inl (refl, refl))
flip_found b start cnt value r v k (inl (lo, hi, group, before)) =
    let ne : (r == bitmap_error) ≡ false = ground (arith, v.fits) in
    rw ne (
      flipped (bitmap_set_multiple b r cnt (not value))
        (bitmap_set_multiple_lem b r cnt (not value) v (omega arith)))
  where
    flipped :
        (m : Option Bitmap)
        → Returns (IsSetTo b (not value) (inside r cnt)) m
        → Returns (IsFlipped b start cnt value) (m >>= λ b'. some (b', r))
    flipped none h = absurd h
    flipped (some c) h = (inl (lo, hi, group, before), inr (omega arith, h))

-- On a well-formed bitmap, a start inside it and a group length that is at most its size,
-- `bitmap_scan_and_flip` returns the index of the first group that has the value and sets just that
-- group to the other value; if there is no such group it returns BITMAP_ERROR and changes nothing.
pub bitmap_scan_and_flip_lem :
    (b : Bitmap) (start cnt : ℕ) (value : Bool)
    → IsValid b
    → start ≤ b.bit_cnt
    → cnt ≤ b.bit_cnt
    → Returns (IsFlipped b start cnt value) (bitmap_scan_and_flip b start cnt value)
unfolding bitmap_scan_and_flip
bitmap_scan_and_flip_lem b start cnt value v h k =
    scanned (bitmap_scan b start cnt value) (bitmap_scan_lem b start cnt value v h k)
  where
    scanned :
        (m : Option ℕ)
        → Returns (IsFirst b value cnt start (b.bit_cnt - cnt + 1 - start)) m
        → Returns (IsFlipped b start cnt value) (
            m >>= λ idx.
            if idx == bitmap_error
            then some (b, idx)
            else (bitmap_set_multiple b idx cnt (not value) >>= λ b'. some (b', idx)))
    scanned none f = absurd f
    scanned (some r) f = flip_found b start cnt value r v k f

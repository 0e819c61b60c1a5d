-- ===== src/FreeMap/Allocate.antt =====
-- Allocating and releasing sectors of the free map of filesys/free-map.c.
use pintos_vm.Base.{
  ℕ, ◌+◌, ◌%◌, ◌^◌, ◌≤◌, ◌<◌, ◌≡◌, refl, ◌∙◌, sym, ◌⊎◌, inl, inr, Bool, true, false, not, ◌&&◌,
  Option, none, some, arith, ◌==◌, if◌then◌else◌, ◌>>=◌, Returns, Returns-mono, Returns-bind,
  Bool-cases, subst,
}
use pintos_vm.Bitmap.{Bitmap, bitmap_error, bitmap_scan_and_flip, bitmap_set_multiple}
use pintos_vm.Bitmap.Bits.{bit, IsValid, IsSetTo}
use pintos_vm.Bitmap.Ranges.{inside, bitmap_set_multiple_lem, bitmap_all_lem}
use pintos_vm.Bitmap.Scan.{IsBroken, IsFlipped, bitmap_scan_and_flip_lem}
use pintos_vm.FreeMap.{FreeMap, sector_of, free_map_allocate, free_map_release}

-- The two maps mark the same sectors as used.
pub record AreSame (m m' : Bitmap) : Type 0 where
  pub valid : IsValid m'
  pub size : m'.bit_cnt ≡ m.bit_cnt
  pub bits : (j : ℕ) → bit m' j ≡ bit m j

-- What `free_map_allocate` of `cnt` sectors leaves: a group that was free and is now in use, or the
-- same sectors in use, and then there was no such group or its map could not be written.
abbrev pub IsAllocated : Bool → FreeMap → ℕ → Option ℕ × FreeMap → Type 0
IsAllocated written m cnt (none, m') =
    AreSame m.map m'.map
    × (((k : ℕ) → k + cnt ≤ m.map.bit_cnt → IsBroken m.map false cnt k) ⊎ (written ≡ false))
IsAllocated written m cnt (some s, m') =
    (s + cnt ≤ m.map.bit_cnt)
    × ((j : ℕ) → s ≤ j → j < s + cnt → bit m.map j ≡ false)
    × IsSetTo m.map true (inside s cnt) m'.map

module _ (written : Bool) (m : FreeMap) (cnt : ℕ) (v : IsValid m.map)
    (h : cnt ≤ m.map.bit_cnt) where
  AreSame-undone :
      (b c : Bitmap) (s : ℕ)
      → ((j : ℕ) → s ≤ j → j < s + cnt → bit m.map j ≡ false)
      → IsSetTo m.map true (inside s cnt) b
      → IsSetTo b false (inside s cnt) c
      → AreSame m.map c
  AreSame-undone b c s free p q = record {
    valid = q.valid;
    size = q.size ∙ p.size;
    bits = λ j. ground (arith, p.bits j, q.bits j, free j);
  }

  AreSame-refl : (b : Bitmap) → b ≡ m.map → AreSame m.map b
  AreSame-refl b e = rw e (record { valid = v; size = refl; bits = λ j. refl })

  no_group :
      (b : Bitmap) (idx : ℕ)
      → idx ≡ bitmap_error
      → IsFlipped m.map 0 cnt false (b, idx)
      → (k : ℕ) → k + cnt ≤ m.map.bit_cnt
      → IsBroken m.map false cnt k
  no_group b idx e (inl (lo, hi, group, before), f) k l = absurd (omega (arith, v.fits))
  no_group b idx e (inr (e', broken), f) k l = broken k (omega arith) (omega arith)

  undo :
      (b : Bitmap) (idx : ℕ)
      → written ≡ false
      → idx + cnt ≤ m.map.bit_cnt
      → ((j : ℕ) → idx ≤ j → j < idx + cnt → bit m.map j ≡ false)
      → IsSetTo m.map true (inside idx cnt) b
      → Returns (IsAllocated written m cnt) (
          bitmap_set_multiple b idx cnt false >>= λ b'.
          some (sector_of bitmap_error, record m { map = b' }))
  undo b idx w l free p =
      Returns-bind (IsSetTo b false (inside idx cnt)) (IsAllocated written m cnt)
        (bitmap_set_multiple b idx cnt false) _
        (bitmap_set_multiple_lem b idx cnt false p.valid (omega (arith, p.size)))
        λ c q. (AreSame-undone b c idx free p q, inr w)

  abbrev store : Bitmap → ℕ → Option (Option ℕ × FreeMap)
  store b sector =
      if not (sector == bitmap_error) && (m.has_file && not written)
      then (bitmap_set_multiple b sector cnt false >>= λ b'.
          some (sector_of bitmap_error, record m { map = b' }))
      else some (sector_of sector, record m { map = b })

  store_lem :
      (b : Bitmap) (idx : ℕ)
      → IsFlipped m.map 0 cnt false (b, idx)
      → Returns (IsAllocated written m cnt) (store b idx)
  store_lem b idx (first, inl (e, same)) =
      let t : (idx == bitmap_error) ≡ true = ground arith in
      rw t (AreSame-refl b same, inl (no_group b idx e (first, inl (e, same))))
  store_lem b idx (inr (e, broken), inr (l, p)) = absurd (omega (arith, v.fits))
  store_lem b idx (inl (lo, hi, group, before), inr (l, p)) =
      let t : (idx == bitmap_error) ≡ false = ground (arith, v.fits) in
      rw t (elim (Bool-cases (m.has_file && not written)) [
        | inl undone ↦ rw undone (undo b idx (ground arith) l group p)
        | inr kept ↦ rw kept (l, group, p)
      ])

  decide_sector :
      (b : Bitmap) (idx : ℕ)
      → IsFlipped m.map 0 cnt false (b, idx)
      → Returns (IsAllocated written m cnt) (store b (idx % 2 ^ 32))
  decide_sector b idx f =
      subst (λ i. Returns (IsAllocated written m cnt) (store b i)) (sym (small f))
        (store_lem b idx f)
    where
      small : IsFlipped m.map 0 cnt false (b, idx) → idx % 2 ^ 32 ≡ idx
      small (first, inl (e, same)) = omega arith
      small (first, inr (l, p)) = omega (arith, v.fits)

  -- On a valid free map that has at least CNT sectors, `free_map_allocate` returns true with CNT
  -- sectors in a row that were free, and marks just them as used; or it returns false and the same
  -- sectors are used as before, which happens only if no CNT free sectors stand in a row or the map
  -- cannot be written to its file.
  pub free_map_allocate_lem : Returns (IsAllocated written m cnt) (free_map_allocate written m cnt)
  unfolding free_map_allocate
  free_map_allocate_lem =
      Returns-bind (IsFlipped m.map 0 cnt false) (IsAllocated written m cnt)
        (bitmap_scan_and_flip m.map 0 cnt false) _
        (bitmap_scan_and_flip_lem m.map 0 cnt false v (omega arith) h)
        λ (b, idx) f. decide_sector b idx f

-- If all sectors of a range are in use, `free_map_release` succeeds and frees just them.
pub free_map_release_lem :
    (m : FreeMap) (s cnt : ℕ)
    → IsValid m.map
    → s + cnt ≤ m.map.bit_cnt
    → ((j : ℕ) → s ≤ j → j < s + cnt → bit m.map j ≡ true)
    → Returns (λ m'. IsSetTo m.map false (inside s cnt) m'.map) (free_map_release m s cnt)
unfolding free_map_release
free_map_release_lem m s cnt v l used = rw (bitmap_all_lem m.map s cnt v l used) (
    Returns-bind (IsSetTo m.map false (inside s cnt))
      (λ m'. IsSetTo m.map false (inside s cnt) m'.map) (bitmap_set_multiple m.map s cnt false)
      (λ b. some (record m { map = b })) (bitmap_set_multiple_lem m.map s cnt false v l) λ c q. q)

-- What a release of an allocated group leaves.
abbrev pub IsReleased : FreeMap → ℕ → Option ℕ × FreeMap → Type 0
IsReleased m cnt (none, m') = Unit
IsReleased m cnt (some s, m') = Returns (λ m''. AreSame m.map m''.map) (free_map_release m' s cnt)

-- On a valid free map that has at least CNT sectors, `free_map_release` of the sectors that
-- `free_map_allocate` gave finds all of them in use, and then the sectors in use are those from
-- before the allocation.
pub release-allocate :
    (written : Bool) (m : FreeMap) (cnt : ℕ)
    → IsValid m.map
    → cnt ≤ m.map.bit_cnt
    → Returns (IsReleased m cnt) (free_map_allocate written m cnt)
release-allocate written m cnt v h =
    Returns-mono (IsAllocated written m cnt) (IsReleased m cnt) (free_map_allocate written m cnt)
      (free_map_allocate_lem written m cnt v h) released
  where
    released : (r : Option ℕ × FreeMap) → IsAllocated written m cnt r → IsReleased m cnt r
    released (none, m') a = tt
    released (some s, m') (l, free, p) =
        Returns-mono (λ c. IsSetTo m'.map false (inside s cnt) c.map) (λ c. AreSame m.map c.map)
          (free_map_release m' s cnt)
          (free_map_release_lem m' s cnt p.valid (omega (arith, p.size))
            (λ j lo hi. ground (arith, p.bits j)))
          λ c q. AreSame-undone written m cnt v h m'.map c.map s free p q

-- ===== src/Palloc/Pages.antt =====
-- Getting and freeing pages of threads/palloc.c.
use pintos_vm.Base.{
  ap, ℕ, ◌+◌, ◌*◌, ◌%◌, ◌≤◌, ◌<◌, ◌≡◌, refl, ◌∙◌, ◌⊎◌, inl, inr, Bool, true, false, not, Option,
  none, some, arith, ◌==◌, if◌then◌else◌, ◌>>=◌, ◌>>◌, assert, Returns, Bool-cases,
}
use pintos_vm.Bitmap.{Bitmap, bitmap_error, bitmap_scan_and_flip}
use pintos_vm.Bitmap.Bits.{bit, IsSetTo}
use pintos_vm.Bitmap.Ranges.{inside}
use pintos_vm.Bitmap.Scan.{IsBroken, IsFlipped, bitmap_scan_and_flip_lem}
use pintos_vm.Palloc.{Pool, PallocFlags, Pools, pool_of, set_pool, fill, palloc_get_multiple}

-- A pool of whole pages.
pub record IsPool (pool : Pool) : Type 0 where
  pub valid : pintos_vm.Bitmap.Bits.IsValid pool.used_map
  pub aligned : pool.base % 4096 ≡ 0
  pub not_null : 1 ≤ pool.base

-- Both are pools, and no address lies in both.
pub record ArePools (m : Pools) : Type 0 where
  pub kernel : IsPool m.kernel_pool
  pub user : IsPool m.user_pool
  pub disjoint :
      (m.kernel_pool.base + 4096 * m.kernel_pool.used_map.bit_cnt ≤ m.user_pool.base)
      ⊎ (m.user_pool.base + 4096 * m.user_pool.used_map.bit_cnt ≤ m.kernel_pool.base)

-- The group of `cnt` pages from index `i` on was free in the pool, and it alone became used.
pub record IsObtained (user : Bool) (zero : Bool) (cnt : ℕ) (m : Pools) (pages : ℕ) (m' : Pools)
    : Type 0 where
  pub index : ℕ
  pub address : pages ≡ (pool_of user m).base + 4096 * index
  pub in_pool : index + cnt ≤ (pool_of user m).used_map.bit_cnt
  pub were_free : (j : ℕ) → index ≤ j → j < index + cnt → bit (pool_of user m).used_map j ≡ false
  pub map : IsSetTo (pool_of user m).used_map true (inside index cnt) (pool_of user m').used_map
  pub base : (pool_of user m').base ≡ (pool_of user m).base
  pub other : pool_of (not user) m' ≡ pool_of (not user) m
  pub bytes :
      (a : ℕ) → m'.bytes a ≡ (if zero then fill m.bytes pages (4096 * cnt) 0 a else m.bytes a)

-- No `cnt` pages in a row are free.
abbrev pub IsShort : Bool → ℕ → Pools → Type 0
IsShort user cnt m =
    (k : ℕ)
    → k + cnt ≤ (pool_of user m).used_map.bit_cnt
    → IsBroken (pool_of user m).used_map false cnt k

abbrev pub IsAnswer : PallocFlags → ℕ → Pools → Option ℕ × Pools → Type 0
IsAnswer flags cnt m (none, m') = IsShort flags.pal_user cnt m × (m' ≡ m)
IsAnswer flags cnt m (some pages, m') = IsObtained flags.pal_user flags.pal_zero cnt m pages m'

same_pool : (user : Bool) (m : Pools) → set_pool user (pool_of user m) m ≡ m
same_pool true m = refl
same_pool false m = refl

if-apply : (z : Bool) (f g : ℕ → ℕ) (a : ℕ) → (if z then f else g) a ≡ (if z then f a else g a)
if-apply true f g a = refl
if-apply false f g a = refl

obtained :
    (user zero : Bool) (m : Pools) (b : Bitmap) (cnt idx : ℕ)
    → idx + cnt ≤ (pool_of user m).used_map.bit_cnt
    → ((j : ℕ) → idx ≤ j → j < idx + cnt → bit (pool_of user m).used_map j ≡ false)
    → IsSetTo (pool_of user m).used_map true (inside idx cnt) b
    → let pages = (pool_of user m).base + 4096 * idx in
      let m' = set_pool user (record (pool_of user m) { used_map = b }) m in
      IsObtained user zero cnt m pages
        (record m' { bytes = if zero then fill m'.bytes pages (4096 * cnt) 0 else m'.bytes })
obtained true zero m b cnt idx l free p = record {
  index = idx;
  address = refl;
  in_pool = l;
  were_free = free;
  map = p;
  base = refl;
  other = refl;
  bytes = if-apply zero _ m.bytes;
}
obtained false zero m b cnt idx l free p = record {
  index = idx;
  address = refl;
  in_pool = l;
  were_free = free;
  map = p;
  base = refl;
  other = refl;
  bytes = if-apply zero _ m.bytes;
}

module _ (flags : PallocFlags) (cnt : ℕ) (m : Pools) (v : IsPool (pool_of flags.pal_user m))
    (h : cnt ≤ (pool_of flags.pal_user m).used_map.bit_cnt) where
  abbrev pool : Pool
  pool = pool_of flags.pal_user m

  abbrev answer : Bitmap → ℕ → Option (Option ℕ × Pools)
  answer b page_idx =
      let m' = set_pool flags.pal_user (record pool { used_map = b }) m in
      if not (page_idx == bitmap_error)
      then (let pages = pool.base + 4096 * page_idx in
          some (
            some pages,
            record m' {
              bytes = if flags.pal_zero then fill m'.bytes pages (4096 * cnt) 0 else m'.bytes;
            },
          ))
      else (assert (not flags.pal_assert) >> some (none, m'))

  answer_lem :
      (b : Bitmap) (idx : ℕ)
      → IsFlipped pool.used_map 0 cnt false (b, idx)
      → Returns (IsAnswer flags cnt m) (answer b idx)
        ⊎ ((flags.pal_assert ≡ true) × IsShort flags.pal_user cnt m × (answer b idx ≡ none))
  answer_lem b idx (inl (lo, hi, group, before), inl (e, same)) =
      absurd (omega (arith, v.valid.fits))
  answer_lem b idx (inr (e, broken), inr (l, p)) = absurd (omega (arith, v.valid.fits))
  answer_lem b idx (inr (e, broken), inl (e', same)) =
      let t : (idx == bitmap_error) ≡ true = ground arith in
      let short : IsShort flags.pal_user cnt m = λ k l. broken k (omega arith) (omega arith) in
      elim (Bool-cases flags.pal_assert) [
        | inl a ↦ inr (a, short, rw (t, a) refl)
        | inr a ↦ inl (
            rw (t, a)
              (
                short,
                ap (λ c. set_pool flags.pal_user (record pool { used_map = c }) m) same
                    ∙ same_pool flags.pal_user m,
              ))
      ]
  answer_lem b idx (inl (lo, hi, group, before), inr (l, p)) =
      let t : (idx == bitmap_error) ≡ false = ground (arith, v.valid.fits) in
      inl (rw t (obtained flags.pal_user flags.pal_zero m b cnt idx l group p))

  -- From a pool of whole pages that has at least PAGE_CNT, `palloc_get_multiple` returns the address of
  -- PAGE_CNT pages that were free, marks just them as used, and with PAL_ZERO clears just them; or no
  -- so many pages in a row are free, and it returns a null pointer and changes nothing, or
  -- panics with PAL_ASSERT.
  pub palloc_get_multiple_lem :
      Returns (IsAnswer flags cnt m) (palloc_get_multiple flags cnt m)
      ⊎ ((flags.pal_assert ≡ true)
          × IsShort flags.pal_user cnt m
          × (palloc_get_multiple flags cnt m ≡ none))
  unfolding palloc_get_multiple
  palloc_get_multiple_lem =
      after (bitmap_scan_and_flip pool.used_map 0 cnt false)
        (bitmap_scan_and_flip_lem pool.used_map 0 cnt false v.valid (omega arith) h)
    where
      after :
          (o : Option (Bitmap × ℕ))
          → Returns (IsFlipped pool.used_map 0 cnt false) o
          → Returns (IsAnswer flags cnt m) (o >>= λ (b, i). answer b i)
            ⊎ ((flags.pal_assert ≡ true)
                × IsShort flags.pal_user cnt m
                × ((o >>= λ (b, i). answer b i) ≡ none))
      after none r = absurd r
      after (some (b, idx)) r = answer_lem b idx r

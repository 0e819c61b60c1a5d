-- ===== src/Palloc.antt =====
-- threads/palloc.c: pages of memory from the kernel pool and the user pool. The pool's lock is held
-- over the change of its bitmap, so that each call is one step, and is no part of the state. No pool starts at
-- address 0.
pub mod Pages
pub mod Free
mod Tests
use pintos_vm.Base.{
  List, ℕ, ◌+◌, ◌-◌, ◌*◌, ◌/◌, ◌%◌, Bool, true, false, not, ◌&&◌, ◌||◌, Option, none, some, ◌==◌,
  leb, ltb, if◌then◌else◌, ◌>>=◌, ◌>>◌, assert,
}
use pintos_vm.Bitmap.{
  Bitmap, bitmap_error, bitmap_size, bitmap_scan_and_flip, bitmap_all, bitmap_set_multiple,
  bitmap_set_all, bitmap_buf_size, bitmap_create_in_buf,
}

-- `struct pool`
pub record Pool : Type 0 where
  pub used_map : Bitmap
  pub base : ℕ

-- `enum palloc_flags`
pub record PallocFlags : Type 0 where
  pub pal_assert : Bool
  pub pal_zero : Bool
  pub pal_user : Bool

-- The two pools, and the bytes of memory.
pub record Pools : Type 0 where
  pub kernel_pool : Pool
  pub user_pool : Pool
  pub bytes : ℕ → ℕ

abbrev pub pool_of : Bool → Pools → Pool
pool_of user m = if user then m.user_pool else m.kernel_pool

abbrev pub set_pool : Bool → Pool → Pools → Pools
set_pool true pool m = record m { user_pool = pool }
set_pool false pool m = record m { kernel_pool = pool }

-- `memset` of `n` bytes.
abbrev pub fill : (ℕ → ℕ) → ℕ → ℕ → ℕ → ℕ → ℕ
fill bytes to n value a = if leb to a && ltb a (to + n) then value else bytes a

-- The pages, or NULL; `none` is the PANIC of PAL_ASSERT.
pub palloc_get_multiple : PallocFlags → ℕ → Pools → Option (Option ℕ × Pools)
palloc_get_multiple flags page_cnt m =
    let pool = pool_of flags.pal_user m in
    bitmap_scan_and_flip pool.used_map 0 page_cnt false >>= λ (b, page_idx).
    let m' = set_pool flags.pal_user (record pool { used_map = b }) m in
    if not (page_idx == bitmap_error)
    then (let pages = pool.base + 4096 * page_idx in
        some (
          some pages,
          record m' {
            bytes = if flags.pal_zero then fill m'.bytes pages (4096 * page_cnt) 0 else m'.bytes;
          },
        ))
    else (assert (not flags.pal_assert) >> some (none, m'))

pub palloc_get_page : PallocFlags → Pools → Option (Option ℕ × Pools)
unfolding palloc_get_multiple
palloc_get_page flags m = palloc_get_multiple flags 1 m

abbrev pub page_from_pool : Pool → ℕ → Bool
page_from_pool pool page =
    let page_no = page / 4096 in
    let start_page = pool.base / 4096 in
    leb start_page page_no && ltb page_no (start_page + pool.used_map.bit_cnt)

-- Freeing in the pool that was found; NDEBUG is not defined.
abbrev pub free_in : Bool → ℕ → ℕ → Pools → Option Pools
free_in user pages page_cnt m =
    let pool = pool_of user m in
    let page_idx = pages / 4096 - pool.base / 4096 in
    bitmap_all pool.used_map page_idx page_cnt >>= λ all.
    assert all >> bitmap_set_multiple pool.used_map page_idx page_cnt false >>= λ b. some (
      set_pool user (record pool { used_map = b })
        (record m { bytes = fill m.bytes pages (4096 * page_cnt) 204 }))

pub palloc_free_multiple : ℕ → ℕ → Pools → Option Pools
palloc_free_multiple pages page_cnt m =
    assert (pages % 4096 == 0)
    >> (if (pages == 0) || (page_cnt == 0)
        then some m
        else (if page_from_pool m.kernel_pool pages
            then free_in false pages page_cnt m
            else (if page_from_pool m.user_pool pages
                then free_in true pages page_cnt m
                else none)))

pub palloc_free_page : ℕ → Pools → Option Pools
unfolding palloc_free_multiple
palloc_free_page page m = palloc_free_multiple page 1 m

-- The pool, and where the next bitmap goes; `block` is the memory at `bm_base`.
pub init_pool : List (List Bool) → ℕ → ℕ → ℕ → Option (Pool × ℕ)
init_pool block bm_base start end =
    let pgcnt = (end - start) / 4096 in
    let bm_pages = (bitmap_buf_size pgcnt + 4095) / 4096 * 4096 in
    bitmap_create_in_buf pgcnt block bm_pages >>= λ created. bitmap_set_all created true >>= λ b.
    some (record { used_map = b; base = start }, bm_base + bm_pages)

-- ===== src/FreeMap.antt =====
-- filesys/free-map.c: which sectors of the file system disk are in use. What `bitmap_write` returns
-- is an argument `written`: it writes the map into its file.
pub mod Allocate
mod Tests
use pintos_vm.Base.{
  ℕ, ◌%◌, ◌^◌, Bool, true, false, not, ◌&&◌, Option, none, some, ◌==◌, if◌then◌else◌, ◌>>=◌, ◌>>◌,
  assert,
}
use pintos_vm.Bitmap.{
  Bitmap, bitmap_error, Allocation, bitmap_create, bitmap_mark, bitmap_scan_and_flip,
  bitmap_set_multiple, bitmap_all,
}
use pintos_vm.Device.{Device, disk_size}

abbrev pub free_map_sector : ℕ
free_map_sector = 0

abbrev pub root_dir_sector : ℕ
root_dir_sector = 1

-- The two static variables: the bitmap, and whether `free_map_file` is set.
pub record FreeMap : Type 0 where
  pub map : Bitmap
  pub has_file : Bool

pub free_map_init : Device → Allocation → Option FreeMap
free_map_init d a = bitmap_create (disk_size d) a >>= λ created. created >>= λ b.
    some (record {
      map = bitmap_mark (bitmap_mark b free_map_sector) root_dir_sector;
      has_file = false;
    })

-- The sector that `*sectorp` gets, or none for the result false.
abbrev pub sector_of : ℕ → Option ℕ
sector_of sector = if sector == bitmap_error then none else some sector

pub free_map_allocate : Bool → FreeMap → ℕ → Option (Option ℕ × FreeMap)
free_map_allocate written m cnt = bitmap_scan_and_flip m.map 0 cnt false >>= λ (b, idx).
    let sector = idx % 2 ^ 32 in
    if not (sector == bitmap_error) && (m.has_file && not written)
    then (bitmap_set_multiple b sector cnt false >>= λ b'.
        some (sector_of bitmap_error, record m { map = b' }))
    else some (sector_of sector, record m { map = b })

pub free_map_release : FreeMap → ℕ → ℕ → Option FreeMap
free_map_release m sector cnt = bitmap_all m.map sector cnt >>= λ all.
    assert all >> bitmap_set_multiple m.map sector cnt false >>= λ b. some (record m { map = b })

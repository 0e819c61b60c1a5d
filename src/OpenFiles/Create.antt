-- ===== src/OpenFiles/Create.antt =====
-- `inode_create` of filesys/inode.c, and opening what it wrote.
use pintos_vm.Base.{◌^◌, ◌==◌, if◌then◌else◌, ℕ, ◌+◌, ◌≤◌, ◌<◌, ◌≡◌, Bool, true, false, arith}
use pintos_vm.Bitmap.Bits.{bit, IsValid, IsSetTo}
use pintos_vm.Device.{Device}
use pintos_vm.Inode.{bytes_to_sectors}
use pintos_vm.OpenFiles.{FileSystem, inode_disk, number_at}
use pintos_vm.FreeMap.Allocate.{AreSame}
use pintos_vm.Bitmap.Ranges.{inside}
use pintos_vm.FreeMap.{FreeMap}

pub number-start :
    (start length : ℕ) → start < 2 ^ 32 → number_at (inode_disk start length) 0 ≡ start
number-start start length h = omega arith

pub number-length :
    (start length : ℕ) → length < 2 ^ 32 → number_at (inode_disk start length) 4 ≡ length
number-length start length h = omega arith

-- The sectors from `from` on are cleared, and all others are what they were.
pub record IsCleared (d : Device) (from n : ℕ) (d' : Device) : Type 0 where
  pub capacity : d'.capacity ≡ d.capacity
  pub sectors : (s o : ℕ) → d'.sectors s o ≡ (if inside from n s then 0 else d.sectors s o)

-- What a created inode leaves on the disk: it stands in its sector, its data are zeros, and the data
-- lie in sectors that were free.
pub record IsCreated (fs : FileSystem) (sector length : ℕ) (fs' : FileSystem) : Type 0 where
  pub start : ℕ
  pub map : IsSetTo fs.free_map.map true (inside start (bytes_to_sectors length)) fs'.free_map.map
  pub fits : start + bytes_to_sectors length ≤ fs.free_map.map.bit_cnt
  pub free :
      (k : ℕ) → inside start (bytes_to_sectors length) k ≡ true → bit fs.free_map.map k ≡ false
  pub written : (o : ℕ) → fs'.filesys_disk.sectors sector o ≡ inode_disk start length o
  pub zeros :
      (k o : ℕ) → inside start (bytes_to_sectors length) k ≡ true → fs'.filesys_disk.sectors k o ≡ 0
  pub others :
      (k o : ℕ)
      → inside start (bytes_to_sectors length) k ≡ false
      → (k == sector) ≡ false
      → fs'.filesys_disk.sectors k o ≡ fs.filesys_disk.sectors k o
  pub same : fs'.open_inodes ≡ fs.open_inodes

abbrev pub IsCreation : FileSystem → ℕ → ℕ → Bool × FileSystem → Type 0
IsCreation fs sector length (true, fs') = IsCreated fs sector length fs'
IsCreation fs sector length (false, fs') =
    AreSame fs.free_map.map fs'.free_map.map × (fs'.filesys_disk ≡ fs.filesys_disk)

module _ (fs : FileSystem) (sector length : ℕ) (v : IsValid fs.free_map.map)
    (room_on_disk : bytes_to_sectors length ≤ fs.free_map.map.bit_cnt)
    (same_size : fs.free_map.map.bit_cnt ≡ fs.filesys_disk.capacity)
    (small : fs.filesys_disk.capacity ≤ 2 ^ 28) (taken : bit fs.free_map.map sector ≡ true)
    (in_range : sector < fs.filesys_disk.capacity) where
  abbrev cnt : ℕ
  cnt = bytes_to_sectors length

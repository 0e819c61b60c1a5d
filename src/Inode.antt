-- ===== src/Inode.antt =====
-- filesys/inode.c: reading and writing the bytes of an inode on the disk. A disk is a function from a
-- sector and an offset in it to a byte; a sector has 512 of them. Sizes and offsets are not negative, as the callers check.
-- `room` says whether malloc gives the bounce buffer, which a call asks for at most once.
pub mod Bytes
pub mod Read
pub mod Write
mod Tests
use pintos_vm.Base.{
  ℕ, zero, suc, ◌+◌, ◌-◌, ◌*◌, ◌/◌, ◌%◌, ◌^◌, Bool, true, false, not, ◌&&◌, ◌||◌, Option, none,
  some, List, [], ◌∷◌, ◌++◌, ◌==◌, ltb, leb, if◌then◌else◌, update, ◌>>=◌, ◌>>◌, assert,
}

abbrev pub Disk : Type 0
Disk = ℕ → ℕ → ℕ

-- `struct inode` with the `struct inode_disk` that it holds.
pub record Inode : Type 0 where
  pub sector : ℕ
  pub open_cnt : ℕ
  pub removed : Bool
  pub deny_write_cnt : ℕ
  pub start : ℕ
  pub length : ℕ

abbrev pub bytes_to_sectors : ℕ → ℕ
bytes_to_sectors size = (size + 511) / 512

-- -1 is the greatest number of 32 bits.
abbrev pub byte_to_sector : Inode → ℕ → ℕ
byte_to_sector inode pos = if ltb pos inode.length then inode.start + pos / 512 else 2 ^ 32 - 1

-- The lesser of two `int`s.
abbrev pub lesser : ℕ → ℕ → ℕ
lesser a b = if ltb a b then a else b

abbrev pub sector_left : ℕ → ℕ
sector_left offset = 512 - offset % 512

-- The bytes that one round copies. At the end of the inode, where the source has a negative number
-- left, this is 0; the source stops for both.
abbrev pub chunk_size : Inode → ℕ → ℕ → ℕ
chunk_size inode size offset = lesser size (lesser (inode.length - offset) (sector_left offset))

-- `memcpy` of `n` bytes from an offset on.
abbrev pub bytes : (ℕ → ℕ) → ℕ → ℕ → List ℕ
bytes s from zero = []
bytes s from (suc n) = s from ∷ bytes s (from + 1) n

abbrev pub is_whole : ℕ → ℕ → Bool
is_whole offset chunk = (offset % 512 == 0) && (chunk == 512)

-- The `while` loop of `inode_read_at`: what it appends to the buffer. Each round takes at least one byte
-- off the size, so the size is enough fuel.
pub read_from : Bool → Disk → Inode → ℕ → ℕ → ℕ → List ℕ
read_from room disk inode zero size offset = []
read_from room disk inode (suc fuel) size offset =
    let chunk = chunk_size inode size offset in
    let rest = read_from room disk inode fuel (size - chunk) (offset + chunk) in
    let copied = bytes (disk (byte_to_sector inode offset)) (offset % 512) chunk in
    if chunk == 0 then [] else (if is_whole offset chunk || room then copied ++ rest else [])

-- The bytes read; their number is what the source returns.
pub inode_read_at : Bool → Disk → Inode → ℕ → ℕ → List ℕ
unfolding read_from
inode_read_at room disk inode size offset = read_from room disk inode size size offset

-- The bounce buffer after its two copies.
abbrev pub bounce : Disk → ℕ → (ℕ → ℕ) → ℕ → ℕ → ℕ → ℕ → ℕ
bounce disk sector buffer written offset chunk j =
    let ofs = offset % 512 in
    let old = if ltb 0 ofs || ltb chunk (sector_left offset) then disk sector j else 0 in
    if leb ofs j && ltb j (ofs + chunk) then buffer (written + (j - ofs)) else old

-- The sector that a round of `inode_write_at` writes.
abbrev pub new_sector : Disk → ℕ → (ℕ → ℕ) → ℕ → ℕ → ℕ → ℕ → ℕ
new_sector disk sector buffer written offset chunk =
    if is_whole offset chunk
    then (λ j. buffer (written + j))
    else bounce disk sector buffer written offset chunk

-- The `while` loop of `inode_write_at`: the disk, and the bytes written.
pub write_from : Bool → Inode → (ℕ → ℕ) → ℕ → ℕ → ℕ → ℕ → Disk → Disk × ℕ
write_from room inode buffer zero written size offset disk = (disk, written)
write_from room inode buffer (suc fuel) written size offset disk =
    let chunk = chunk_size inode size offset in
    let sector = byte_to_sector inode offset in
    let rest =
      write_from room inode buffer fuel (written + chunk) (size - chunk) (offset + chunk)
        (update disk sector (new_sector disk sector buffer written offset chunk)) in
    if chunk == 0
    then (disk, written)
    else (if is_whole offset chunk || room then rest else (disk, written))

pub inode_write_at : Bool → Inode → (ℕ → ℕ) → ℕ → ℕ → Disk → Disk × ℕ
unfolding write_from
inode_write_at room inode buffer size offset disk =
    if not (inode.deny_write_cnt == 0)
    then (disk, 0)
    else write_from room inode buffer size 0 size offset disk

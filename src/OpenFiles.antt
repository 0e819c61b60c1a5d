-- ===== src/OpenFiles.antt =====
-- filesys/file.c, and the open inodes of filesys/inode.c. A `struct file` and a `struct inode` are
-- their addresses; a result `none` of malloc is a null pointer.
pub mod Invariant
pub mod Inodes
pub mod Reopen
pub mod Close
pub mod Files
pub mod Create
pub mod Position
pub mod Open
mod Tests
use pintos_vm.Base.{
  ℕ, zero, suc, ◌+◌, ◌-◌, ◌*◌, ◌/◌, ◌%◌, ◌^◌, Bool, true, false, not, ◌&&◌, Option, none, some,
  List, [], ◌∷◌, length, ◌==◌, ltb, leb, if◌then◌else◌, update, keep, ◌>>=◌, ◌>>◌, assert,
}
use pintos_vm.Device.{Device, disk_read, disk_write}
use pintos_vm.FreeMap.{FreeMap, free_map_allocate, free_map_release}
use pintos_vm.Inode.{Inode, bytes_to_sectors, inode_read_at, inode_write_at}

-- `struct file`
pub record File : Type 0 where
  pub inode : ℕ
  pub pos : ℕ
  pub deny_write : Bool

pub record FileSystem : Type 0 where
  pub inodes : ℕ → Inode
  pub open_inodes : List ℕ
  pub files : ℕ → File
  pub filesys_disk : Device
  pub free_map : FreeMap

abbrev pub set_inode : ℕ → Inode → FileSystem → FileSystem
set_inode i x fs = record fs { inodes = update fs.inodes i x }

abbrev pub set_file : ℕ → File → FileSystem → FileSystem
set_file f x fs = record fs { files = update fs.files f x }

abbrev pub inode_magic : ℕ
inode_magic = 1229868868

-- Byte `i` of a number of 32 bits, and the number at an offset of a sector.
abbrev pub byte_of : ℕ → ℕ → ℕ
byte_of x i = x / 2 ^ (8 * i) % 256

abbrev pub number_at : (ℕ → ℕ) → ℕ → ℕ
number_at s o = s o + 2 ^ 8 * s (o + 1) + 2 ^ 16 * s (o + 2) + 2 ^ 24 * s (o + 3)

-- The bytes of a `struct inode_disk`.
abbrev pub inode_disk : ℕ → ℕ → ℕ → ℕ
inode_disk start length o =
    if ltb o 4
    then byte_of start o
    else (if ltb o 8
        then byte_of length (o - 4)
        else (if ltb o 12 then byte_of inode_magic (o - 8) else 0))

-- The loop of `inode_create` that clears the sectors, with `n` rounds left.
pub clear_from : ℕ → ℕ → ℕ → Device → Option Device
clear_from zero i start d = some d
clear_from (suc n) i start d =
    disk_write d (start + i) (λ o. 0) >>= λ d'. clear_from n (i + 1) start d'

pub inode_create : Bool → Bool → FileSystem → ℕ → ℕ → Option (Bool × FileSystem)
unfolding clear_from
inode_create room written fs sector length =
    let sectors = bytes_to_sectors length in
    if not room
    then some (false, fs)
    else (free_map_allocate written fs.free_map sectors >>= λ (r, m). elim r [
      | none ↦ some (false, record fs { free_map = m })
      | some start ↦ disk_write fs.filesys_disk sector (inode_disk start length) >>= λ d.
          clear_from sectors 0 start d >>= λ d'.
          some (true, record fs { free_map = m; filesys_disk = d' })
    ])

-- The loop of `inode_open` over the open inodes.
pub find_open : (ℕ → Inode) → List ℕ → ℕ → Option ℕ
find_open inodes [] sector = none
find_open inodes (i ∷ is) sector =
    let rest = find_open inodes is sector in if (inodes i).sector == sector then some i else rest

abbrev pub reopened : FileSystem → ℕ → FileSystem
reopened fs i = set_inode i (record (fs.inodes i) { open_cnt = (fs.inodes i).open_cnt + 1 }) fs

pub inode_reopen : FileSystem → Option ℕ → Option ℕ × FileSystem
inode_reopen fs none = (none, fs)
inode_reopen fs (some i) = (some i, reopened fs i)

-- `inode_open` where no open inode has the sector.
abbrev pub open_new : FileSystem → ℕ → Option ℕ → Option (Option ℕ × FileSystem)
open_new fs sector none = some (none, fs)
open_new fs sector (some i) = disk_read fs.filesys_disk sector >>= λ s. some (
  some i,
  set_inode i
      (record {
        sector = sector;
        open_cnt = 1;
        removed = false;
        deny_write_cnt = 0;
        start = number_at s 0;
        length = number_at s 4;
      })
      (record fs { open_inodes = i ∷ fs.open_inodes }),
)

pub inode_open : Option ℕ → FileSystem → ℕ → Option (Option ℕ × FileSystem)
unfolding find_open
inode_open room fs sector = elim (find_open fs.inodes fs.open_inodes sector) [
  | none ↦ open_new fs sector room
  | some i ↦ some (some i, reopened fs i)
]

abbrev pub inode_get_inumber : FileSystem → ℕ → ℕ
inode_get_inumber fs i = (fs.inodes i).sector

-- The last opener of the inode `i`, whose record is `x`: `list_remove`, and the blocks of a removed inode.
abbrev pub close_last : FileSystem → ℕ → Inode → Option FileSystem
close_last fs i x =
    let fs' = record fs { open_inodes = keep (λ j. not (j == i)) fs.open_inodes } in
    if x.removed
    then (free_map_release fs'.free_map x.sector 1 >>= λ m.
        free_map_release m x.start (bytes_to_sectors x.length) >>= λ m'.
        some (record fs' { free_map = m' }))
    else some fs'

-- A count of 0 is that of an inode whose memory was freed.
pub inode_close : FileSystem → Option ℕ → Option FileSystem
inode_close fs none = some fs
inode_close fs (some i) =
    let x = fs.inodes i in
    let x' = record x { open_cnt = x.open_cnt - 1 } in
    let fs' = set_inode i x' fs in
    assert (ltb 0 x.open_cnt) >> (if x.open_cnt == 1 then close_last fs' i x' else some fs')

pub inode_remove : FileSystem → ℕ → FileSystem
inode_remove fs i = set_inode i (record (fs.inodes i) { removed = true }) fs

pub inode_deny_write : FileSystem → ℕ → Option FileSystem
inode_deny_write fs i =
    let x = fs.inodes i in
    let n = x.deny_write_cnt + 1 in
    assert (leb n x.open_cnt) >> some (set_inode i (record x { deny_write_cnt = n }) fs)

pub inode_allow_write : FileSystem → ℕ → Option FileSystem
inode_allow_write fs i =
    let x = fs.inodes i in
    assert (ltb 0 x.deny_write_cnt)
    >> assert (leb x.deny_write_cnt x.open_cnt)
    >> some (set_inode i (record x { deny_write_cnt = x.deny_write_cnt - 1 }) fs)

abbrev pub inode_length : FileSystem → ℕ → ℕ
inode_length fs i = (fs.inodes i).length

pub file_open : Option ℕ → FileSystem → Option ℕ → Option (Option ℕ × FileSystem)
unfolding inode_close
file_open (some f) fs (some i) =
    some (some f, set_file f (record { inode = i; pos = 0; deny_write = false }) fs)
file_open (some f) fs none = inode_close fs none >>= λ fs'. some (none, fs')
file_open none fs inode = inode_close fs inode >>= λ fs'. some (none, fs')

pub file_reopen : Option ℕ → FileSystem → ℕ → Option (Option ℕ × FileSystem)
unfolding file_open inode_reopen
file_reopen room fs f =
    let (inode, fs') = inode_reopen fs (some (fs.files f).inode) in file_open room fs' inode

pub file_deny_write : FileSystem → ℕ → Option FileSystem
unfolding inode_deny_write
file_deny_write fs f =
    let x = fs.files f in
    if not x.deny_write
    then inode_deny_write (set_file f (record x { deny_write = true }) fs) x.inode
    else some fs

pub file_allow_write : FileSystem → ℕ → Option FileSystem
unfolding inode_allow_write
file_allow_write fs f =
    let x = fs.files f in
    if x.deny_write
    then inode_allow_write (set_file f (record x { deny_write = false }) fs) x.inode
    else some fs

-- What `file_duplicate` does to the new file.
abbrev pub copy_attributes : FileSystem → ℕ → Option ℕ → Option (Option ℕ × FileSystem)
copy_attributes fs f none = some (none, fs)
copy_attributes fs f (some g) =
    let fs' = set_file g (record (fs.files g) { pos = (fs.files f).pos }) fs in
    (if (fs.files f).deny_write then file_deny_write fs' g else some fs') >>= λ fs''.
    some (some g, fs'')

pub file_duplicate : Option ℕ → FileSystem → ℕ → Option (Option ℕ × FileSystem)
unfolding file_reopen file_deny_write
file_duplicate room fs f = file_reopen room fs f >>= λ (r, fs'). copy_attributes fs' f r

pub file_close : FileSystem → Option ℕ → Option FileSystem
unfolding file_allow_write inode_close
file_close fs none = some fs
file_close fs (some f) = file_allow_write fs f >>= λ fs'. inode_close fs' (some (fs'.files f).inode)

abbrev pub file_read_at : Bool → FileSystem → ℕ → ℕ → ℕ → List ℕ
file_read_at room fs f size file_ofs =
    inode_read_at room fs.filesys_disk.sectors (fs.inodes (fs.files f).inode) size file_ofs

-- The bytes that come into the buffer; their number is what the source returns.
pub file_read : Bool → FileSystem → ℕ → ℕ → List ℕ × FileSystem
file_read room fs f size =
    let x = fs.files f in
    let read = file_read_at room fs f size x.pos in
    (read, set_file f (record x { pos = x.pos + length read }) fs)

abbrev pub file_write_at : Bool → FileSystem → ℕ → (ℕ → ℕ) → ℕ → ℕ → ℕ × FileSystem
file_write_at room fs f buffer size file_ofs =
    let (sectors, n) =
      inode_write_at room (fs.inodes (fs.files f).inode) buffer size file_ofs
        fs.filesys_disk.sectors in
    (n, record fs { filesys_disk = record fs.filesys_disk { sectors = sectors } })

pub file_write : Bool → FileSystem → ℕ → (ℕ → ℕ) → ℕ → ℕ × FileSystem
file_write room fs f buffer size =
    let x = fs.files f in
    let (n, fs') = file_write_at room fs f buffer size x.pos in
    (n, set_file f (record x { pos = x.pos + n }) fs')

abbrev pub file_length : FileSystem → ℕ → ℕ
file_length fs f = inode_length fs (fs.files f).inode

pub file_seek : FileSystem → ℕ → ℕ → FileSystem
file_seek fs f new_pos = set_file f (record (fs.files f) { pos = new_pos }) fs

pub file_tell : FileSystem → ℕ → ℕ
file_tell fs f = (fs.files f).pos

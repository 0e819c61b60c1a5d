-- ===== src/OpenFiles/Open.antt =====
-- `inode_open` of filesys/inode.c: an inode that is open already is found, any other is read from the disk.
use pintos_vm.Base.{
  ◌⊎◌, inr, subst, inl, Bool-cases, ◌==◌, ◌^◌, count, ℕ, ◌+◌, ◌≤◌, ◌<◌, ◌≡◌, true, false, Option,
  none, some, arith, Returns, List, [], ◌∷◌,
}
use pintos_vm.Bitmap.Bits.{bit}
use pintos_vm.Inode.{Inode, bytes_to_sectors}
use pintos_vm.OpenFiles.{
  set_inode, number_at, FileSystem, inode_open, find_open, open_new, reopened,
}
use pintos_vm.OpenFiles.Invariant.{denials-le-openers, IsValid, owns, has_data, refs}
use pintos_vm.OpenFiles.Reopen.{reopened-IsValid}
use pintos_vm.Device.Sectors.{disk_read_lem}

-- An open inode of the sector, or there is none.
abbrev IsSearch : (ℕ → Inode) → List ℕ → ℕ → Option ℕ → Type 0
IsSearch inodes is sector none = (i : ℕ) → 1 ≤ count i is → ((inodes i).sector == sector) ≡ false
IsSearch inodes is sector (some i) = (1 ≤ count i is) × ((inodes i).sector ≡ sector)

find_open_lem :
    (inodes : ℕ → Inode) (is : List ℕ) (sector : ℕ)
    → IsSearch inodes is sector (find_open inodes is sector)
unfolding find_open
find_open_lem inodes [] sector = λ i h. absurd (omega arith)
find_open_lem inodes (i ∷ is) sector = elim (Bool-cases ((inodes i).sector == sector)) [
  | inl t ↦ rw t (ground arith, ground arith)
  | inr f ↦ rw f (later f (find_open inodes is sector) (find_open_lem inodes is sector))
]
  where
    later :
        ((inodes i).sector == sector) ≡ false
        → (r : Option ℕ) → IsSearch inodes is sector r
        → IsSearch inodes (i ∷ is) sector r
    later f none h = λ j l. elim (Bool-cases (i == j)) [
      | inl t ↦
          let e : i ≡ j = ground arith in subst (λ k. ((inodes k).sector == sector) ≡ false) e f
      | inr ne ↦ h j (ground arith)
    ]
    later f (some j) (h, e) = (ground arith, e)

-- An inode on the disk whose sectors are in use, and in use by no open inode.
pub record IsOnDisk (held opened : List ℕ) (fs : FileSystem) (x : Inode) : Type 0 where
  pub fits : x.start + bytes_to_sectors x.length ≤ fs.free_map.map.bit_cnt
  pub apart : has_data x x.sector ≡ false
  pub used :
      (k : ℕ) → owns x k ≡ true → (k < fs.free_map.map.bit_cnt) × (bit fs.free_map.map k ≡ true)
  pub disjoint :
      (i k : ℕ) → 1 ≤ refs held opened fs i → owns (fs.inodes i) k ≡ true → owns x k ≡ false

-- The inode that is read from a sector.
abbrev pub read_inode : FileSystem → ℕ → Inode
read_inode fs sector = record {
  sector = sector;
  open_cnt = 1;
  removed = false;
  deny_write_cnt = 0;
  start = number_at (fs.filesys_disk.sectors sector) 0;
  length = number_at (fs.filesys_disk.sectors sector) 4;
}

-- The inode with the sector is open, and its caller holds a reference to it.
abbrev pub IsOpened : List ℕ → List ℕ → ℕ → Option ℕ × FileSystem → Type 0
IsOpened held opened sector (none, fs') = ⊥
IsOpened held opened sector (some i, fs') =
    IsValid (i ∷ held) opened fs' × ((fs'.inodes i).sector ≡ sector)

module _ (held opened : List ℕ) (a : ℕ) (fs : FileSystem) (sector : ℕ) (v : IsValid held opened fs)
    (new : refs held opened fs a ≡ 0) (in_range : sector < fs.filesys_disk.capacity)
    (small : fs.filesys_disk.capacity ≤ 2 ^ 28)
    (sound : ((i : ℕ) → 1 ≤ refs held opened fs i → ((fs.inodes i).sector == sector) ≡ false)
      → IsOnDisk held opened fs (read_inode fs sector)) where
  zero_refs : (k : ℕ) → (a == k) ≡ true → refs held opened fs k ≡ 0
  zero_refs k t = let e : a ≡ k = ground arith in subst (λ j. refs held opened fs j ≡ 0) e new

  old : (k : ℕ) → (a == k) ≡ false → 1 ≤ refs (a ∷ held) opened fs k → 1 ≤ refs held opened fs k
  old k ne h = ground arith

  abbrev opened_new : FileSystem
  opened_new = set_inode a (read_inode fs sector) (record fs { open_inodes = a ∷ fs.open_inodes })

  new-IsValid :
      IsOnDisk held opened fs (read_inode fs sector) → IsValid (a ∷ held) opened opened_new
  new-IsValid s = record {
    listed = λ k. elim (Bool-cases (a == k)) [
      | inl t ↦ ground (arith, v.listed k, zero_refs k t)
      | inr ne ↦ rw ne (v.listed k)
    ];
    counted = λ k h. elim (Bool-cases (a == k)) [
      | inl t ↦ ground (arith, zero_refs k t)
      | inr ne ↦ rw ne (v.counted k (old k ne h))
    ];
    denied = λ k h. elim (Bool-cases (a == k)) [
      | inl t ↦ ground (arith, denials-le-openers fs.files opened k, zero_refs k t)
      | inr ne ↦ rw ne (v.denied k (old k ne h))
    ];
    single = v.single;
    disjoint = λ i j k h l d. separate i j k h l d (Bool-cases (a == i)) (Bool-cases (a == j));
    apart = λ k h. elim (Bool-cases (a == k)) [
      | inl t ↦ rw t s.apart
      | inr ne ↦ rw ne (v.apart k (old k ne h))
    ];
    valid_map = v.valid_map;
    fits = λ k h. elim (Bool-cases (a == k)) [
      | inl t ↦ rw t s.fits
      | inr ne ↦ rw ne (v.fits k (old k ne h))
    ];
    used = λ k x h. elim (Bool-cases (a == k)) [
      | inl t ↦ rw t (s.used x)
      | inr ne ↦ rw ne (v.used k x (old k ne h))
    ];
  }
    where
      separate :
          (i j k : ℕ)
          → 1 ≤ refs (a ∷ held) opened fs i
          → 1 ≤ refs (a ∷ held) opened fs j
          → (i == j) ≡ false
          → ((a == i) ≡ true) ⊎ ((a == i) ≡ false)
          → ((a == j) ≡ true) ⊎ ((a == j) ≡ false)
          → owns (opened_new.inodes i) k ≡ true
          → owns (opened_new.inodes j) k ≡ false
      separate i j k h l d (inl t) (inl u) = absurd (ground arith)
      separate i j k h l d (inl t) (inr u) =
          rw (t, u)
            λ o. elim (Bool-cases (owns (fs.inodes j) k)) [
              | inl b ↦ absurd (let q = s.disjoint j k (old j u l) b in cc)
              | inr b ↦ b
            ]
      separate i j k h l d (inr t) (inl u) = rw (t, u) λ o. s.disjoint i k (old i t h) o
      separate i j k h l d (inr t) (inr u) =
          rw (t, u) λ o. v.disjoint i j k (old i t h) (old j u l) d o

  -- `inode_open` of a sector, with room for a new inode, returns an inode of that sector to which the
  -- caller then holds a reference, and leaves the counts of all inodes true; no two open inodes have
  -- the same sector. An inode that is not open must be one on the disk whose sectors are in use, and
  -- by no open inode.
  pub inode_open-IsValid : Returns (IsOpened held opened sector) (inode_open (some a) fs sector)
  unfolding inode_open
  inode_open-IsValid =
      step (find_open fs.inodes fs.open_inodes sector)
        (find_open_lem fs.inodes fs.open_inodes sector)
    where
      step :
          (r : Option ℕ)
          → IsSearch fs.inodes fs.open_inodes sector r
          → Returns (IsOpened held opened sector) (elim r [
            | none ↦ open_new fs sector (some a)
            | some i ↦ some (some i, reopened fs i)
          ])
      step none absent =
          rw (disk_read_lem fs.filesys_disk sector in_range (omega (arith, small)))
            (new-IsValid (sound λ i h. absent i (ground (arith, v.listed i))), ground arith)
      step (some i) (h, e) =
          (reopened-IsValid held opened i fs v (ground (arith, v.listed i)), ground arith)

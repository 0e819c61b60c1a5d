-- ===== src/OpenFiles/Invariant.antt =====
-- The counts of the open inodes of filesys/inode.c: who holds them, and which sectors are theirs.
use pintos_vm.Base.{
  subst, inl, inr, Bool-cases, ℕ, ◌+◌, ◌≤◌, ◌<◌, ◌≡◌, refl, Bool, true, false, ◌&&◌, ◌||◌, List, [],
  ◌∷◌, arith, ◌==◌, min, update, count, tally,
}
use pintos_vm.Bitmap.Bits.{bit}
use pintos_vm.Bitmap.Ranges.{inside}
use pintos_vm.Inode.{Inode, bytes_to_sectors}
use pintos_vm.OpenFiles.{File, FileSystem}

-- Whether a sector is the one of the inode itself or holds its data.
abbrev pub has_data : Inode → ℕ → Bool
has_data x k = inside x.start (bytes_to_sectors x.length) k

abbrev pub owns : Inode → ℕ → Bool
owns x k = (x.sector == k) || has_data x k

-- How many open files are files of an inode, and how many of them deny writing.
abbrev pub openers : (ℕ → File) → List ℕ → ℕ → ℕ
openers files opened i = tally (λ f. (files f).inode == i) opened

abbrev pub denials : (ℕ → File) → List ℕ → ℕ → ℕ
denials files opened i = tally (λ f. ((files f).inode == i) && (files f).deny_write) opened

-- Who refers to an inode: a reference that its caller holds, or an open file.
abbrev pub refs : List ℕ → List ℕ → FileSystem → ℕ → ℕ
refs held opened fs i = count i held + openers fs.files opened i

-- `held` are the inodes that callers of `inode_open` and `inode_reopen` have not closed yet, and `opened`
-- the open files.
pub record IsValid (held opened : List ℕ) (fs : FileSystem) : Type 0 where
  pub listed : (i : ℕ) → count i fs.open_inodes ≡ min 1 (refs held opened fs i)
  pub counted : (i : ℕ) → 1 ≤ refs held opened fs i → (fs.inodes i).open_cnt ≡ refs held opened fs i
  pub denied :
      (i : ℕ) → 1 ≤ refs held opened fs i → (fs.inodes i).deny_write_cnt ≡ denials fs.files opened i
  pub single : (f : ℕ) → count f opened ≤ 1
  pub disjoint :
      (i j k : ℕ)
      → 1 ≤ refs held opened fs i
      → 1 ≤ refs held opened fs j
      → (i == j) ≡ false
      → owns (fs.inodes i) k ≡ true
      → owns (fs.inodes j) k ≡ false
  pub apart :
      (i : ℕ) → 1 ≤ refs held opened fs i → has_data (fs.inodes i) (fs.inodes i).sector ≡ false
  pub valid_map : pintos_vm.Bitmap.Bits.IsValid fs.free_map.map
  pub fits :
      (i : ℕ)
      → 1 ≤ refs held opened fs i
      → (fs.inodes i).start + bytes_to_sectors (fs.inodes i).length ≤ fs.free_map.map.bit_cnt
  pub used :
      (i k : ℕ)
      → 1 ≤ refs held opened fs i
      → owns (fs.inodes i) k ≡ true
      → (k < fs.free_map.map.bit_cnt) × (bit fs.free_map.map k ≡ true)

pub denials-le-openers :
    (files : ℕ → File) (opened : List ℕ) (i : ℕ) → denials files opened i ≤ openers files opened i
denials-le-openers files [] i = omega arith
denials-le-openers files (f ∷ fs) i = ground (arith, denials-le-openers files fs i)

pub openers-update :
    (files : ℕ → File) (f : ℕ) (x : File) (opened : List ℕ) (i : ℕ)
    → count f opened ≡ 0
    → openers (update files f x) opened i ≡ openers files opened i
openers-update files f x [] i h = refl
openers-update files f x (g ∷ gs) i h = ground (arith, openers-update files f x gs i)

pub denials-update :
    (files : ℕ → File) (f : ℕ) (x : File) (opened : List ℕ) (i : ℕ)
    → count f opened ≡ 0
    → denials (update files f x) opened i ≡ denials files opened i
denials-update files f x [] i h = refl
denials-update files f x (g ∷ gs) i h = ground (arith, denials-update files f x gs i)

-- An inode with another number of openers.
abbrev pub with_openers : (ℕ → Inode) → ℕ → ℕ → ℕ → Inode
with_openers inodes i n = update inodes i (record (inodes i) { open_cnt = n })

-- Each inode is what it was except for its number of openers.
pub recounted :
    (inodes : ℕ → Inode) (i n k : ℕ) (P : Inode → Type 0)
    → P (record (inodes k) { open_cnt = (with_openers inodes i n k).open_cnt })
    → P (with_openers inodes i n k)
recounted inodes i n k P h = elim (Bool-cases (i == k)) [
  | inl t ↦ let e : i ≡ k = ground arith in subst P (rw (t, e) refl) h
  | inr ne ↦ subst P (rw ne refl) h
]

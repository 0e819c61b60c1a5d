-- ===== src/OpenFiles/Tests.antt =====
-- Concrete runs of the open files of filesys/file.c and filesys/inode.c.
use pintos_vm.Base.{
  subst, some, ℕ, zero, suc, ◌<◌, ◌≡◌, refl, true, false, [], ◌∷◌, arith, ◌==◌, replicate, Returns,
}
use pintos_vm.Bitmap.Bits.{bit}
use pintos_vm.OpenFiles.{inode_open, file_deny_write, FileSystem}
use pintos_vm.OpenFiles.Invariant.{IsValid, owns}
use pintos_vm.OpenFiles.Open.{read_inode, IsOnDisk, inode_open-IsValid, IsOpened}
use pintos_vm.OpenFiles.Files.{file_deny_write-IsValid}

-- A disk of 20 sectors of which five are in use: an inode in sector 2 with two sectors of data. The
-- inode is open as the files 11 and 12, and the first denies writing.
abbrev sample : FileSystem
sample = record {
  inodes = λ i. record {
    sector = 2;
    open_cnt = 2;
    removed = true;
    deny_write_cnt = 1;
    start = 3;
    length = 600;
  };
  open_inodes = 7 ∷ [];
  files = λ f. record { inode = 7; pos = 0; deny_write = f == 11 };
  filesys_disk = record { capacity = 20; sectors = λ s o. 0 };
  free_map = record {
    map = record {
      bit_cnt = 20;
      bits = (true ∷ true ∷ true ∷ true ∷ true ∷ replicate 59 false) ∷ [];
    };
    has_file = true;
  };
}

sample-used :
    (k : ℕ) → owns (sample.inodes 7) k ≡ true → (k < 20) × (bit sample.free_map.map k ≡ true)
sample-used zero o = (omega arith, refl)
sample-used (suc zero) o = (omega arith, refl)
sample-used (suc (suc zero)) o = (omega arith, refl)
sample-used (suc (suc (suc zero))) o = (omega arith, refl)
sample-used (suc (suc (suc (suc zero)))) o = (omega arith, refl)
sample-used (suc (suc (suc (suc (suc k))))) o = absurd (ground arith)

sample-IsValid : IsValid [] (11 ∷ 12 ∷ []) sample
sample-IsValid = record {
  listed = λ i. ground arith;
  counted = λ i h. ground arith;
  denied = λ i h. ground arith;
  single = λ f. ground arith;
  disjoint = λ i j k h l ne o. absurd (ground arith);
  apart = λ i h. refl;
  valid_map = omega arith;
  fits = λ i h. omega arith;
  used = λ i k h o. sample-used k o;
}

file_deny_write-IsValid_example :
    Returns
      (λ fs'. IsValid [] (11 ∷ 12 ∷ []) fs' × ((fs'.files 11).deny_write ≡ true))
      (file_deny_write sample 11)
file_deny_write-IsValid_example = file_deny_write-IsValid [] (12 ∷ []) 11 sample sample-IsValid

-- The root directory of this disk, in sector 1, has no data.
root-IsOnDisk : IsOnDisk [] (11 ∷ 12 ∷ []) sample (read_inode sample 1)
root-IsOnDisk = record {
  fits = omega arith;
  apart = refl;
  used = λ k o.
      let e : 1 ≡ k = ground arith in
      subst (λ j. (j < 20) × (bit sample.free_map.map j ≡ true)) e (omega arith, refl);
  disjoint = λ i k h o. ground arith;
}

inode_open-IsValid_example : Returns (IsOpened [] (11 ∷ 12 ∷ []) 1) (inode_open (some 8) sample 1)
inode_open-IsValid_example =
    inode_open-IsValid [] (11 ∷ 12 ∷ []) 8 sample 1 sample-IsValid refl (omega arith) (omega arith)
      λ absent. root-IsOnDisk

-- The same files when none denies writing.
abbrev writable : FileSystem
writable = record sample { inodes = λ i. record (sample.inodes i) { deny_write_cnt = 0 } }

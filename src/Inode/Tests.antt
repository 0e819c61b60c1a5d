-- ===== src/Inode/Tests.antt =====
-- Runs of filesys/inode.c on a disk of zeros.
use pintos_vm.Base.{ℕ, ◌≡◌, refl, true, false, [], ◌∷◌, ◌+◌}
use pintos_vm.Inode.{Disk, Inode, read_from, write_from, inode_read_at, inode_write_at}

abbrev zeros : Disk
zeros s j = 0

abbrev file : Inode
file = record {
  sector = 40;
  open_cnt = 1;
  removed = false;
  deny_write_cnt = 0;
  start = 50;
  length = 600;
}

abbrev counting : ℕ → ℕ
counting j = j + 1

-- The bytes cross from the first sector into the second, and stop at the end of the inode.
across :
    inode_read_at true (inode_write_at true file counting 3 510 zeros).0 file 4 509
    ≡ 0 ∷ 1 ∷ 2 ∷ 3 ∷ []
unfolding inode_read_at inode_write_at read_from write_from
across = refl

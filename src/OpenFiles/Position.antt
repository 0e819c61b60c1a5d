-- ===== src/OpenFiles/Position.antt =====
-- The position of a file of filesys/file.c moves with the reads and writes.
use pintos_vm.Base.{
  length-append, sym, ◌∙◌, zero, suc, ◌==◌, ap, ℕ, ◌+◌, ◌≡◌, refl, true, arith, length, ◌++◌,
}
use pintos_vm.Inode.{Inode, Disk, bytes, inode_read_at}
use pintos_vm.Inode.Bytes.{content, bytes-append}
use pintos_vm.Inode.Read.{inode_read_at_lem}
use pintos_vm.Inode.Write.{read-write}
use pintos_vm.OpenFiles.{FileSystem, file_read, file_write, file_seek}

length-bytes : (s : ℕ → ℕ) (a n : ℕ) → length (bytes s a n) ≡ n
length-bytes s a zero = refl
length-bytes s a (suc n) = ap suc (length-bytes s (a + 1) n)

-- A read after a read of the same inode gets the bytes that one read of both sizes gets.
read-read :
    (disk : Disk) (inode : Inode) (m n offset : ℕ)
    → let xs = inode_read_at true disk inode m offset in
      xs ++ inode_read_at true disk inode n (offset + length xs)
      ≡ inode_read_at true disk inode (m + n) offset
read-read disk inode m n offset =
    let p = inode_read_at_lem true disk inode m offset in
    let l : length (inode_read_at true disk inode m offset) ≡ p.count =
      ap length p.bytes_of ∙ length-bytes (content disk inode) offset p.count in
    let q = inode_read_at_lem true disk inode n (offset + p.count) in
    let r = inode_read_at_lem true disk inode (m + n) offset in
    let e : p.count + q.count ≡ r.count =
      ground (arith, p.complete refl, q.complete refl, r.complete refl) in
    ap (λ k. inode_read_at true disk inode m offset ++ inode_read_at true disk inode n (offset + k))
      l
    ∙ ap (λ xs. xs ++ inode_read_at true disk inode n (offset + p.count)) p.bytes_of
    ∙ ap (λ ys. bytes (content disk inode) offset p.count ++ ys) q.bytes_of
    ∙ bytes-append (content disk inode) offset p.count q.count
    ∙ ap (bytes (content disk inode) offset) e
    ∙ sym r.bytes_of

-- With malloc's bounce buffers, two calls of `file_read` in a row get the bytes that one call with the
-- sum of their sizes gets, and leave the file at the same position.
pub file_read-read :
    (fs : FileSystem) (f m n : ℕ)
    → let (xs, fs₁) = file_read true fs f m in
      let (ys, fs₂) = file_read true fs₁ f n in
      let (zs, fs₃) = file_read true fs f (m + n) in
      (xs ++ ys ≡ zs) × ((fs₂.files f).pos ≡ (fs₃.files f).pos)
unfolding file_read
file_read-read fs f m n =
    let t : (f == f) ≡ true = ground arith in
    let x = fs.files f in
    let e = read-read fs.filesys_disk.sectors (fs.inodes x.inode) m n x.pos in
    let xs = inode_read_at true fs.filesys_disk.sectors (fs.inodes x.inode) m x.pos in
    let ys = inode_read_at true fs.filesys_disk.sectors (fs.inodes x.inode) n (x.pos + length xs) in
    let l = sym (length-append xs ys) ∙ ap length e in rw t (e, omega (arith, l))

-- Of a file that no one denies to write, what `file_write` wrote is what `file_read` gets from the
-- position that `file_seek` goes back to: with malloc's bounce buffers, the first bytes of the
-- buffer, as many as were written.
pub read-seek :
    (fs : FileSystem) (f size : ℕ) (buffer : ℕ → ℕ)
    → (fs.inodes (fs.files f).inode).deny_write_cnt ≡ 0
    → let (n, fs₁) = file_write true fs f buffer size in
      (file_read true (file_seek fs₁ f (fs.files f).pos) f size).0 ≡ bytes buffer 0 n
unfolding file_read file_write file_seek
read-seek fs f size buffer h =
    let t : (f == f) ≡ true = ground arith in
    let x = fs.files f in
    rw t (read-write (fs.inodes x.inode) buffer size x.pos fs.filesys_disk.sectors h)

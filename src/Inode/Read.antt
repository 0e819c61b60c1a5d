-- ===== src/Inode/Read.antt =====
-- `inode_read_at` of filesys/inode.c reads the bytes of the inode.
use pintos_vm.Base.{
  ℕ, zero, suc, ◌+◌, ◌-◌, ◌%◌, ◌≤◌, ◌≡◌, refl, sym, ap, Bool, true, false, List, ◌++◌, ◌==◌, arith,
  ◌∙◌, ◌||◌, Bool-cases, inl, inr,
}
use pintos_vm.Inode.{
  Disk, Inode, bytes, byte_to_sector, chunk_size, is_whole, read_from, inode_read_at,
}
use pintos_vm.Inode.Bytes.{
  content, within, bytes-append, chunk-le, chunk-content, chunk-sector, within-chunk,
}

-- `xs` are the first bytes from `offset` on, all that lie in the inode if there is room.
pub record IsRead (room : Bool) (disk : Disk) (inode : Inode) (size offset : ℕ) (xs : List ℕ)
    : Type 0 where
  pub count : ℕ
  pub bytes_of : xs ≡ bytes (content disk inode) offset count
  pub at_most : count ≤ within inode size offset
  pub complete : room ≡ true → count ≡ within inode size offset

module _ (room : Bool) (disk : Disk) (inode : Inode) where
  read_from-IsRead :
      (fuel size offset : ℕ)
      → size ≤ fuel
      → IsRead room disk inode size offset (read_from room disk inode fuel size offset)
  unfolding read_from
  read_from-IsRead zero size offset l = record {
    count = 0;
    bytes_of = refl;
    at_most = omega arith;
    complete = λ _. ground arith;
  }
  read_from-IsRead (suc fuel) size offset l =
      elim (Bool-cases (chunk_size inode size offset == 0)) [
        | inl z ↦ rw z (record {
          count = 0;
          bytes_of = refl;
          at_most = omega arith;
          complete = λ _. sym ((chunk-le inode size offset).3 (ground arith));
        })
        | inr n ↦ rw n (elim (Bool-cases (is_whole offset (chunk_size inode size offset) || room)) [
          | inl go ↦ rw go (
              more n (
                read_from-IsRead fuel (size - chunk_size inode size offset)
                  (offset + chunk_size inode size offset) (omega (arith, l, nonempty n))))
          | inr stop ↦ rw stop (record {
            count = 0;
            bytes_of = refl;
            at_most = omega arith;
            complete =
                λ r. let q = no_room (is_whole offset (chunk_size inode size offset)) stop in cc;
          })
        ])
      ]
    where
      no_room : (b : Bool) → (b || room) ≡ false → room ≡ false
      no_room true h = cc
      no_room false h = h

      nonempty : (chunk_size inode size offset == 0) ≡ false → 1 ≤ chunk_size inode size offset
      nonempty n = ground arith

      more :
          (chunk_size inode size offset == 0) ≡ false
          → IsRead room disk inode
              (size - chunk_size inode size offset)
              (offset + chunk_size inode size offset)
              (read_from room disk inode fuel
                (size - chunk_size inode size offset)
                (offset + chunk_size inode size offset))
          → IsRead room disk inode size offset (
              bytes
                (disk (byte_to_sector inode offset))
                (offset % 512)
                (chunk_size inode size offset)
              ++ read_from room disk inode fuel
                  (size - chunk_size inode size offset)
                  (offset + chunk_size inode size offset))
      more n r =
          let c = chunk_size inode size offset in
          let rest = read_from room disk inode fuel (size - c) (offset + c) in
          record {
            count = chunk_size inode size offset + r.count;
            bytes_of =
                ap (λ s. bytes (disk s) (offset % 512) c ++ rest)
                  (chunk-sector inode size offset (nonempty n))
                ∙ ap (λ xs. xs ++ rest) (chunk-content disk inode size offset)
                ∙ ap (λ ys. bytes (content disk inode) offset c ++ ys) r.bytes_of
                ∙ bytes-append (content disk inode) offset c r.count;
            at_most = omega (arith, r.at_most, within-chunk inode size offset);
            complete = λ e. omega (arith, r.complete e, within-chunk inode size offset);
          }

-- If malloc gives the bounce buffer, `inode_read_at` reads all the bytes from the offset on, as many as
-- are asked for and lie in the inode; if not, it reads the first so many of them.
pub inode_read_at_lem :
    (room : Bool) (disk : Disk) (inode : Inode) (size offset : ℕ)
    → IsRead room disk inode size offset (inode_read_at room disk inode size offset)
unfolding inode_read_at
inode_read_at_lem room disk inode size offset =
    read_from-IsRead room disk inode size size offset (omega arith)

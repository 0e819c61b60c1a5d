-- ===== src/OpenFiles/Reopen.antt =====
-- Opening an inode of filesys/inode.c again keeps all counts true.
use pintos_vm.Base.{
  ◌<◌, min, ◌⊎◌, subst, ℕ, ◌+◌, ◌≤◌, ◌≡◌, true, false, List, ◌∷◌, arith, ◌==◌, count, Bool-cases,
  inl, inr,
}
use pintos_vm.OpenFiles.{FileSystem, reopened}
use pintos_vm.OpenFiles.Invariant.{IsValid, owns, has_data, denials, refs, recounted, with_openers}
use pintos_vm.Inode.{bytes_to_sectors}
use pintos_vm.Bitmap.Bits.{bit}

-- `inode_reopen` of an inode that someone refers to adds a reference, and the counts of all inodes stay true.
pub reopened-IsValid :
    (held opened : List ℕ) (i : ℕ) (fs : FileSystem)
    → IsValid held opened fs
    → 1 ≤ refs held opened fs i
    → IsValid (i ∷ held) opened (reopened fs i)
reopened-IsValid held opened i fs v r =
    let n = (fs.inodes i).open_cnt + 1 in
    record {
      listed = λ k. listed' k (Bool-cases (i == k));
      counted = λ k h. elim (Bool-cases (i == k)) [
        | inl t ↦ let p : i ≡ k = ground arith in let c = v.counted i r in rw t (ground (arith, p))
        | inr ne ↦ rw ne (v.counted k (before k h))
      ];
      denied = λ k h.
          recounted fs.inodes i n k (λ x. x.deny_write_cnt ≡ denials fs.files opened k)
            (v.denied k (before k h));
      single = v.single;
      disjoint = λ j k x h l d.
          recounted fs.inodes i n j
            (λ y. owns y x ≡ true → owns (with_openers fs.inodes i n k) x ≡ false)
            λ o.
              recounted fs.inodes i n k (λ y. owns y x ≡ false)
                (v.disjoint j k x (before j h) (before k l) d o);
      apart = λ k h.
          recounted fs.inodes i n k (λ x. has_data x x.sector ≡ false) (v.apart k (before k h));
      valid_map = v.valid_map;
      fits = λ k h.
          recounted fs.inodes i n k
            (λ x. x.start + bytes_to_sectors x.length ≤ fs.free_map.map.bit_cnt)
            (v.fits k (before k h));
      used = λ k x h.
          recounted fs.inodes i n k
            (λ y. owns y x ≡ true → (x < fs.free_map.map.bit_cnt) × (bit fs.free_map.map x ≡ true))
            λ o. v.used k x (before k h) o;
    }
  where
    before : (k : ℕ) → 1 ≤ refs (i ∷ held) opened fs k → 1 ≤ refs held opened fs k
    before k h = elim (Bool-cases (i == k)) [
      | inl t ↦ let p : i ≡ k = ground arith in subst (λ j. 1 ≤ refs held opened fs j) p r
      | inr ne ↦ ground arith
    ]

    listed' :
        (k : ℕ)
        → ((i == k) ≡ true) ⊎ ((i == k) ≡ false)
        → count k fs.open_inodes ≡ min 1 (refs (i ∷ held) opened fs k)
    listed' k (inl t) =
        let p : i ≡ k = ground arith in
        let q : 1 ≤ refs held opened fs k = subst (λ j. 1 ≤ refs held opened fs j) p r in
        ground (arith, v.listed k)
    listed' k (inr ne) = rw ne (v.listed k)

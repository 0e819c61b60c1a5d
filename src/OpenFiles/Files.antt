-- ===== src/OpenFiles/Files.antt =====
-- The files of filesys/file.c keep the counts of the inodes: opening a file, and denying and allowing writes.
use pintos_vm.Base.{
  sym, ◌∙◌, ◌⊎◌, subst, ℕ, ◌+◌, ◌-◌, ◌≤◌, ◌≡◌, refl, Bool, true, false, some, List, ◌∷◌, arith,
  ◌==◌, leb, ltb, if◌then◌else◌, update, count, Returns, Bool-cases, inl, inr,
}
use pintos_vm.Inode.{Inode}
use pintos_vm.OpenFiles.{
  file_write_at, File, FileSystem, set_file, set_inode, inode_deny_write, inode_allow_write,
  file_open, file_deny_write, file_allow_write,
}
use pintos_vm.OpenFiles.Invariant.{
  IsValid, owns, has_data, openers, denials, refs, denials-le-openers, openers-update,
  denials-update,
}
use pintos_vm.Inode.Write.{inode_write_at_denied}

-- Two inodes that differ in the count of denials at most.
pub record AreAlike (x y : Inode) : Type 0 where
  pub cnt : y.open_cnt ≡ x.open_cnt
  pub sector : y.sector ≡ x.sector
  pub start : y.start ≡ x.start
  pub length : y.length ≡ x.length

owns-eq : (x y : Inode) → AreAlike x y → (k : ℕ) → owns y k ≡ owns x k
owns-eq x y a k = rw (a.sector, a.start, a.length) refl

has_data-eq : (x y : Inode) → AreAlike x y → has_data y y.sector ≡ has_data x x.sector
has_data-eq x y a = rw (a.sector, a.start, a.length) refl

-- If files and inodes change and the counts stay true, the invariant stays.
pub IsValid-kept :
    (held opened held' opened' : List ℕ) (fs : FileSystem) (inodes : ℕ → Inode) (files : ℕ → File)
    → IsValid held opened fs
    → ((k : ℕ) → AreAlike (fs.inodes k) (inodes k))
    → ((k : ℕ) → count k held' + openers files opened' k ≡ refs held opened fs k)
    → ((k : ℕ) → 1 ≤ refs held opened fs k → (inodes k).deny_write_cnt ≡ denials files opened' k)
    → ((k : ℕ) → count k opened' ≤ 1)
    → IsValid held' opened' (record fs { inodes = inodes; files = files })
IsValid-kept held opened held' opened' fs inodes files v same r d s = record {
  listed = λ k. rw (r k) (v.listed k);
  counted = λ k h. omega (arith, r k, v.counted k (omega (arith, r k)), (same k).cnt);
  denied = λ k h. d k (omega (arith, r k));
  single = s;
  disjoint = λ i j k h l ne o.
      let o' = owns-eq (fs.inodes i) (inodes i) (same i) k in
      let p = owns-eq (fs.inodes j) (inodes j) (same j) k in
      let q = v.disjoint i j k (omega (arith, r i)) (omega (arith, r j)) ne in ground arith;
  apart = λ i h. has_data-eq (fs.inodes i) (inodes i) (same i) ∙ v.apart i (omega (arith, r i));
  valid_map = v.valid_map;
  fits = λ i h. rw ((same i).start, (same i).length) (v.fits i (omega (arith, r i)));
  used = λ i k h o.
      v.used i k (omega (arith, r i)) (sym (owns-eq (fs.inodes i) (inodes i) (same i) k) ∙ o);
}

pub AreAlike-refl : (x : Inode) → AreAlike x x
AreAlike-refl x = record { cnt = refl; sector = refl; start = refl; length = refl }

-- With a reference to I that the caller holds, `file_open` makes a file of it, and takes the reference.
pub file_open-IsValid :
    (held opened : List ℕ) (i f : ℕ) (fs : FileSystem)
    → IsValid (i ∷ held) opened fs
    → count f opened ≡ 0
    → Returns
        (λ (r, fs'). (r ≡ some f) × IsValid held (f ∷ opened) fs')
        (file_open (some f) fs (some i))
unfolding file_open
file_open-IsValid held opened i f fs v h =
    let x : File = record { inode = i; pos = 0; deny_write = false } in
    (
      refl,
      IsValid-kept (i ∷ held) opened held (f ∷ opened) fs fs.inodes (update fs.files f x) v
          (λ k. AreAlike-refl (fs.inodes k))
          (λ k. ground (arith, openers-update fs.files f x opened k h))
          (λ k l. ground (arith, v.denied k l, denials-update fs.files f x opened k h))
          λ k. ground (arith, v.single k),
    )

module _ (held opened : List ℕ) (f : ℕ) (fs : FileSystem) (v : IsValid held (f ∷ opened) fs) where
  abbrev inode : ℕ
  inode = (fs.files f).inode

  absent : count f opened ≡ 0
  absent = ground (arith, v.single f)

  abbrev with_denials : ℕ → ℕ → Inode
  with_denials n k = update fs.inodes inode (record (fs.inodes inode) { deny_write_cnt = n }) k

  AreAlike-denials : (n k : ℕ) → AreAlike (fs.inodes k) (with_denials n k)
  AreAlike-denials n k = elim (Bool-cases (inode == k)) [
    | inl t ↦
        let e : inode ≡ k = ground arith in
        rw t (
          subst (λ j. AreAlike (fs.inodes k) (record (fs.inodes j) { deny_write_cnt = n })) (sym e)
            (record { cnt = refl; sector = refl; start = refl; length = refl }))
    | inr ne ↦ rw ne (AreAlike-refl (fs.inodes k))
  ]

  -- Setting the flag of F, and the count of its inode to fit.
  IsValid-flag :
      (b : Bool) (n : ℕ)
      → n ≡ (if b then 1 else 0) + denials fs.files opened inode
      → IsValid held (f ∷ opened) (
          set_inode inode
            (record (fs.inodes inode) { deny_write_cnt = n })
            (set_file f (record (fs.files f) { deny_write = b }) fs))
  IsValid-flag b n e =
      let x : File = record (fs.files f) { deny_write = b } in
      IsValid-kept held (f ∷ opened) held (f ∷ opened) fs _ (update fs.files f x) v
        (AreAlike-denials n) (λ k. ground (arith, openers-update fs.files f x opened k absent))
        (λ k l. flagged k l (Bool-cases (inode == k))) v.single
    where
      flagged :
          (k : ℕ)
          → 1 ≤ refs held (f ∷ opened) fs k
          → ((inode == k) ≡ true) ⊎ ((inode == k) ≡ false)
          → (with_denials n k).deny_write_cnt
            ≡ denials (update fs.files f (record (fs.files f) { deny_write = b })) (f ∷ opened) k
      flagged k l (inl t) =
          let x : File = record (fs.files f) { deny_write = b } in
          let p : inode ≡ k = ground arith in
          let q = denials-update fs.files f x opened k absent in
          let e' : n ≡ (if b then 1 else 0) + denials fs.files opened k =
            subst (λ j. n ≡ (if b then 1 else 0) + denials fs.files opened j) p e in
          ground (arith, q, e')
      flagged k l (inr ne) =
          let x : File = record (fs.files f) { deny_write = b } in
          let q = denials-update fs.files f x opened k absent in
          let d = v.denied k l in ground (arith, q, d)

  referred : 1 ≤ refs held (f ∷ opened) fs inode
  referred = ground arith

  -- Of an open file, `file_deny_write` fails no ASSERT and keeps all counts true; afterwards the file
  -- denies writing.
  pub file_deny_write-IsValid :
      Returns
        (λ fs'. IsValid held (f ∷ opened) fs' × ((fs'.files f).deny_write ≡ true))
        (file_deny_write fs f)
  unfolding file_deny_write inode_deny_write
  file_deny_write-IsValid = elim (Bool-cases (fs.files f).deny_write) [
    | inl t ↦ rw t (v, t)
    | inr ne ↦
        let n = (fs.inodes inode).deny_write_cnt + 1 in
        let d = v.denied inode referred in
        let c = v.counted inode referred in
        let l : leb n (fs.inodes inode).open_cnt ≡ true =
          ground (arith, denials-le-openers fs.files opened inode) in
        rw (ne, l) (IsValid-flag true n (ground arith), ground arith)
  ]

  -- Of an open file, `file_allow_write` fails no ASSERT and keeps all counts true; afterwards the file
  -- does not deny writing.
  pub file_allow_write-IsValid :
      Returns
        (λ fs'.
          IsValid held (f ∷ opened) fs'
          × ((fs'.files f).deny_write ≡ false)
          × ((fs'.files f).inode ≡ inode))
        (file_allow_write fs f)
  unfolding file_allow_write inode_allow_write
  file_allow_write-IsValid = elim (Bool-cases (fs.files f).deny_write) [
    | inr ne ↦ rw ne (v, ne, refl)
    | inl t ↦
        let n = (fs.inodes inode).deny_write_cnt - 1 in
        let d = v.denied inode referred in
        let c = v.counted inode referred in
        let l : leb (fs.inodes inode).deny_write_cnt (fs.inodes inode).open_cnt ≡ true =
          ground (arith, denials-le-openers fs.files opened inode) in
        let p : ltb 0 (fs.inodes inode).deny_write_cnt ≡ true = ground arith in
        rw (t, l, p) (IsValid-flag false n (ground arith), ground arith, ground arith)
  ]

  -- While an open file denies writing, writing to any file of its inode writes no byte and changes nothing.
  pub write_denied :
      (room : Bool) (g : ℕ) (buffer : ℕ → ℕ) (size offset : ℕ)
      → (fs.files f).deny_write ≡ true
      → (fs.files g).inode ≡ inode
      → file_write_at room fs g buffer size offset ≡ (0, fs)
  write_denied room g buffer size offset t e =
      let d = v.denied inode referred in
      let n : ((fs.inodes (fs.files g).inode).deny_write_cnt == 0) ≡ false =
        simp e (ground arith) in
      rw
        (inode_write_at_denied room (fs.inodes (fs.files g).inode) buffer size offset
          fs.filesys_disk.sectors n)
        refl

-- ===== src/OpenFiles/Inodes.antt =====
-- Closing an inode of filesys/inode.c keeps the counts of all the others and their sectors.
use pintos_vm.Base.{
  count-keep, Returns-if, Returns-mono, Returns-bind, ◌>>=◌, ◌<◌, ◌∙◌, sym, subst, keep, ℕ, ◌+◌,
  ◌-◌, ◌≤◌, ◌≡◌, refl, true, false, not, Option, none, some, List, ◌∷◌, arith, ◌==◌, ltb, Returns,
  Bool-cases, inl, inr,
}
use pintos_vm.Inode.{bytes_to_sectors, Inode}
use pintos_vm.OpenFiles.{FileSystem, inode_close, close_last}
use pintos_vm.OpenFiles.Invariant.{recounted, with_openers, IsValid, owns, has_data, denials, refs}
use pintos_vm.FreeMap.{free_map_release, FreeMap}
use pintos_vm.Bitmap.Bits.{IsSetTo, bit}
use pintos_vm.Bitmap.Ranges.{inside}
use pintos_vm.FreeMap.Allocate.{free_map_release_lem}

module _ (held opened : List ℕ) (i : ℕ) (fs : FileSystem) (v : IsValid (i ∷ held) opened fs) where
  more : (k : ℕ) → 1 ≤ refs held opened fs k → 1 ≤ refs (i ∷ held) opened fs k
  more k h = ground arith

  -- The inode with another number of openers.
  abbrev inodes' : ℕ → ℕ → Inode
  inodes' n = with_openers fs.inodes i n

  -- When the last reference goes, its inode leaves the list, and a map in which only its own sectors
  -- were released fits the others.
  IsValid-last :
      refs held opened fs i ≡ 0
      → (n : ℕ) (m : FreeMap) → pintos_vm.Bitmap.Bits.IsValid m.map
      → m.map.bit_cnt ≡ fs.free_map.map.bit_cnt
      → ((j : ℕ) → owns (fs.inodes i) j ≡ false → bit m.map j ≡ bit fs.free_map.map j)
      → IsValid held opened (record fs {
        inodes = inodes' n;
        open_inodes = keep (λ j. not (j == i)) fs.open_inodes;
        free_map = m;
      })
  IsValid-last z n m w size bits = record {
    listed = λ k. ground (arith, count-keep i k fs.open_inodes, v.listed k, z);
    counted = λ k h. let ne = other k h in rw ne (ground (arith, v.counted k (more k h)));
    denied = λ k h. let ne = other k h in rw ne (v.denied k (more k h));
    single = v.single;
    disjoint = λ j k x h l d o.
        let nj = other j h in
        let nk = other k l in
        rw nk
          (v.disjoint j k x (more j h) (more k l) d (subst (λ y. owns y x ≡ true) (kept j nj) o));
    apart = λ k h. let ne = other k h in rw ne (v.apart k (more k h));
    valid_map = w;
    fits = λ k h. let ne = other k h in rw (ne, size) (v.fits k (more k h));
    used = λ k x h o.
        let ne = other k h in
        let o' : owns (fs.inodes k) x ≡ true = subst (λ y. owns y x ≡ true) (kept k ne) o in
        let (l, b) = v.used k x (more k h) o' in
        let q = v.disjoint k i x (more k h) (ground arith) (ground arith) o' in
        (omega (arith, size), bits x q ∙ b);
  }
    where
      other : (k : ℕ) → 1 ≤ refs held opened fs k → (i == k) ≡ false
      other k h = elim (Bool-cases (i == k)) [
        | inl t ↦
            let e : i ≡ k = ground arith in
            let q : 1 ≤ refs held opened fs i = subst (λ j. 1 ≤ refs held opened fs j) (sym e) h in
            absurd (omega (arith, z))
        | inr ne ↦ ne
      ]

      kept : (k : ℕ) → (i == k) ≡ false → inodes' n k ≡ fs.inodes k
      kept k ne = rw ne refl

  -- While others still refer to the inode, only its count changes.
  IsValid-fewer :
      (n : ℕ)
      → 1 ≤ refs held opened fs i
      → n ≡ refs held opened fs i
      → IsValid held opened (record fs { inodes = inodes' n })
  IsValid-fewer n some_refs e = record {
    listed = λ k. ground (arith, v.listed k);
    counted = λ k h. elim (Bool-cases (i == k)) [
      | inl t ↦ let p : i ≡ k = ground arith in rw t (subst (λ j. n ≡ refs held opened fs j) p e)
      | inr ne ↦ rw ne (ground (arith, v.counted k (more k h)))
    ];
    denied = λ k h.
        recounted fs.inodes i n k (λ x. x.deny_write_cnt ≡ denials fs.files opened k)
          (v.denied k (more k h));
    single = v.single;
    disjoint = λ j k x h l d.
        recounted fs.inodes i n j (λ y. owns y x ≡ true → owns (inodes' n k) x ≡ false)
          λ o.
            recounted fs.inodes i n k (λ y. owns y x ≡ false)
              (v.disjoint j k x (more j h) (more k l) d o);
    apart =
        λ k h. recounted fs.inodes i n k (λ x. has_data x x.sector ≡ false) (v.apart k (more k h));
    valid_map = v.valid_map;
    fits = λ k h.
        recounted fs.inodes i n k
          (λ x. x.start + bytes_to_sectors x.length ≤ fs.free_map.map.bit_cnt)
          (v.fits k (more k h));
    used = λ k x h.
        recounted fs.inodes i n k
          (λ y. owns y x ≡ true → (x < fs.free_map.map.bit_cnt) × (bit fs.free_map.map x ≡ true))
          λ o. v.used k x (more k h) o;
  }

  used_self :
      (k : ℕ)
      → owns (fs.inodes i) k ≡ true
      → (k < fs.free_map.map.bit_cnt) × (bit fs.free_map.map k ≡ true)
  used_self k o = v.used i k (ground arith) o

  -- Releasing the sector of the inode leaves its data in use.
  still_used :
      (j : ℕ)
      → has_data (fs.inodes i) j ≡ true
      → (m : FreeMap) → IsSetTo fs.free_map.map false (inside (fs.inodes i).sector 1) m.map
      → bit m.map j ≡ true
  still_used j d m p = elim (Bool-cases ((fs.inodes i).sector == j)) [
    | inl t ↦
        let e : (fs.inodes i).sector ≡ j = ground arith in
        let a = subst (λ k. has_data (fs.inodes i) k ≡ false) e (v.apart i (ground arith)) in
        absurd (ground arith)
    | inr ne ↦ let (l, b) = used_self j (ground arith) in ground (arith, p.bits j)
  ]

  -- The two releases of `inode_close` of a removed inode.
  released :
      Returns
        (λ m. IsSetTo fs.free_map.map false (owns (fs.inodes i)) m.map)
        (free_map_release fs.free_map (fs.inodes i).sector 1 >>= λ m.
          free_map_release m (fs.inodes i).start (bytes_to_sectors (fs.inodes i).length))
  released =
      let x = fs.inodes i in
      let apart = v.apart i (ground arith) in
      Returns-bind (λ m. IsSetTo fs.free_map.map false (inside x.sector 1) m.map)
        (λ m. IsSetTo fs.free_map.map false (owns x) m.map)
        (free_map_release fs.free_map x.sector 1) _
        (free_map_release_lem fs.free_map x.sector 1 v.valid_map
          (omega (arith, (used_self x.sector (ground arith)).0))
          λ j lo hi. (used_self j (ground arith)).1)
        λ m p.
          Returns-mono (λ m'. IsSetTo m.map false (has_data x) m'.map)
            (λ m'. IsSetTo fs.free_map.map false (owns x) m'.map)
            (free_map_release m x.start (bytes_to_sectors x.length))
            (free_map_release_lem m x.start (bytes_to_sectors x.length) p.valid
              (omega (arith, p.size, v.fits i (ground arith)))
              λ j lo hi. still_used j (ground arith) m p)
            λ m' q. record {
              valid = q.valid;
              size = q.size ∙ p.size;
              bits = λ j. ground (arith, p.bits j, q.bits j);
            }

  close_last_lem :
      (n : ℕ)
      → refs held opened fs i ≡ 0
      → Returns
          (IsValid held opened)
          (close_last (record fs { inodes = inodes' n }) i (record (fs.inodes i) { open_cnt = n }))
  close_last_lem n z =
      Returns-if (IsValid held opened) (fs.inodes i).removed _ _
        (λ removed. freed n z (free_map_release fs.free_map (fs.inodes i).sector 1) released)
        λ kept. IsValid-last z n fs.free_map v.valid_map refl (λ j o. refl)
    where
      freed :
          (n : ℕ)
          → refs held opened fs i ≡ 0
          → (o : Option FreeMap)
          → Returns
              (λ m. IsSetTo fs.free_map.map false (owns (fs.inodes i)) m.map)
              (o >>= λ m.
                free_map_release m (fs.inodes i).start (bytes_to_sectors (fs.inodes i).length))
          → Returns (IsValid held opened) (
              o >>= λ m.
              free_map_release m (fs.inodes i).start (bytes_to_sectors (fs.inodes i).length)
              >>= λ m'. some (record fs {
                inodes = inodes' n;
                open_inodes = keep (λ j. not (j == i)) fs.open_inodes;
                free_map = m';
              }))
      freed n z none r = r
      freed n z (some m) r =
          Returns-bind (λ m. IsSetTo fs.free_map.map false (owns (fs.inodes i)) m.map)
            (IsValid held opened)
            (free_map_release m (fs.inodes i).start (bytes_to_sectors (fs.inodes i).length)) _ r
            λ m' q. IsValid-last z n m' q.valid q.size λ j o. ground (arith, q.bits j)

  -- `inode_close` of a reference that its caller holds fails no ASSERT, and leaves the counts of all
  -- inodes true; the blocks it frees belong to no other open inode.
  pub inode_close-IsValid : Returns (IsValid held opened) (inode_close fs (some i))
  unfolding inode_close
  inode_close-IsValid =
      let c = v.counted i (ground arith) in
      let p : ltb 0 (fs.inodes i).open_cnt ≡ true = ground arith in
      elim (Bool-cases ((fs.inodes i).open_cnt == 1)) [
        | inr more_refs ↦
            rw (p, more_refs)
              (IsValid-fewer ((fs.inodes i).open_cnt - 1) (ground arith) (ground arith))
        | inl last ↦ rw (p, last) (close_last_lem ((fs.inodes i).open_cnt - 1) (ground arith))
      ]

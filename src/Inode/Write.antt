-- ===== src/Inode/Write.antt =====
-- `inode_write_at` of filesys/inode.c changes the bytes of the inode that it is given, and no others.
use pintos_vm.Base.{
  ℕ, zero, suc, ◌+◌, ◌-◌, ◌/◌, ◌%◌, ◌≤◌, ◌<◌, ◌≡◌, ◌≢◌, refl, sym, ap, Bool, true, false, ◌==◌,
  arith, ltb, leb, if◌then◌else◌, ◌∙◌, ◌||◌, ◌&&◌, Bool-cases, ◌⊎◌, inl, inr, update,
}
use pintos_vm.Inode.{
  Disk, Inode, bytes, bytes_to_sectors, chunk_size, sector_left, is_whole, new_sector, write_from,
  inode_write_at, inode_read_at,
}
use pintos_vm.Inode.Read.{inode_read_at_lem}
use pintos_vm.Inode.Bytes.{content, within, bytes_agree, chunk-le, chunk-sector, within-chunk}

-- The disk after `n` bytes of the buffer, from its byte `from` on, were written at an offset.
pub record IsWritten (inode : Inode) (buffer : ℕ → ℕ) (from offset n : ℕ) (disk disk' : Disk)
    : Type 0 where
  pub inside :
      (i : ℕ)
      → content disk' inode i ≡ (
          if leb offset i && ltb i (offset + n)
          then buffer (from + (i - offset))
          else content disk inode i)
  pub outside :
      (s : ℕ)
      → (s < inode.start) ⊎ (inode.start + bytes_to_sectors inode.length ≤ s)
      → disk' s ≡ disk s

module _ (inode : Inode) (buffer : ℕ → ℕ) (from size offset : ℕ) (disk : Disk) where
  abbrev chunk : ℕ
  chunk = chunk_size inode size offset

  abbrev after : Disk
  after =
      update disk (inode.start + offset / 512)
        (new_sector disk (inode.start + offset / 512) buffer from offset chunk)

  abbrev target : ℕ
  target = inode.start + offset / 512

  abbrev hit : ℕ → Bool
  hit j = leb (offset % 512) j && ltb j (offset % 512 + chunk)

  -- A byte of the sector that a round keeps is read first.
  keeps_old :
      (j : ℕ)
      → j < 512
      → is_whole offset chunk ≡ false
      → hit j ≡ false
      → (ltb 0 (offset % 512) || ltb chunk (sector_left offset)) ≡ true
  keeps_old j l w h = ground (arith, h, l)

  -- One byte of the sector that a round writes.
  sector-byte :
      (j : ℕ)
      → j < 512
      → new_sector disk target buffer from offset chunk j
        ≡ (if hit j then buffer (from + (j - offset % 512)) else disk target j)
  sector-byte j l = elim (Bool-cases (is_whole offset chunk)) [
    | inl t ↦
        let h : hit j ≡ true = ground (arith, t, l) in rw (t, h) (ap buffer (ground (arith, t)))
    | inr f ↦ elim (Bool-cases (hit j)) [
      | inl h ↦ rw (f, h) refl
      | inr h ↦ rw (f, h, keeps_old j l f h) refl
    ]
  ]

  abbrev in_range : ℕ → Bool
  in_range i = leb offset i && ltb i (offset + chunk)

  same-sector :
      (i : ℕ)
      → offset / 512 ≡ i / 512
      → (hit (i % 512) ≡ in_range i) × (i % 512 - offset % 512 ≡ i - offset)
  same-sector i q = (ground arith, omega (arith, q))

  other-sector : (i : ℕ) → (target == (inode.start + i / 512)) ≡ false → in_range i ≡ false
  other-sector i ne = let c = chunk-le inode size offset in ground (arith, ne, c.2)

  round-inside :
      (i : ℕ)
      → content after inode i
        ≡ (if in_range i then buffer (from + (i - offset)) else content disk inode i)
  round-inside i = elim (Bool-cases (target == (inode.start + i / 512))) [
    | inl t ↦
        let (h, d) = same-sector i (ground (arith, t)) in
        rw (t, sector-byte (i % 512) (omega arith), h, d)
          (ap (λ s. if in_range i then buffer (from + (i - offset)) else disk s (i % 512))
            (let e : target ≡ inode.start + i / 512 = ground arith in e))
    | inr f ↦ rw (f, other-sector i f) refl
  ]

  round-IsWritten : 1 ≤ chunk → IsWritten inode buffer from offset chunk disk after
  round-IsWritten p = record {
    inside = round-inside;
    outside = λ s h.
        let c = chunk-le inode size offset in
        let f : (target == s) ≡ false = ground (arith, p, c.1) in rw f refl;
  }

IsWritten-nothing :
    (inode : Inode) (buffer : ℕ → ℕ) (from offset : ℕ) (disk : Disk)
    → IsWritten inode buffer from offset 0 disk disk
IsWritten-nothing inode buffer from offset disk = record {
  inside = λ i. let f : (leb offset i && ltb i (offset + 0)) ≡ false = ground arith in rw f refl;
  outside = λ s h. refl;
}

IsWritten-more :
    (inode : Inode) (buffer : ℕ → ℕ) (from offset c n : ℕ) (disk disk₁ disk₂ : Disk)
    → IsWritten inode buffer from offset c disk disk₁
    → IsWritten inode buffer (from + c) (offset + c) n disk₁ disk₂
    → IsWritten inode buffer from offset (c + n) disk disk₂
IsWritten-more inode buffer from offset c n disk disk₁ disk₂ w v = record {
  inside = λ i. v.inside i ∙ joined i;
  outside = λ s h. v.outside s h ∙ w.outside s h;
}
  where
    joined :
        (i : ℕ)
        → (if leb (offset + c) i && ltb i (offset + c + n)
            then buffer (from + c + (i - (offset + c)))
            else content disk₁ inode i)
          ≡ (if leb offset i && ltb i (offset + (c + n))
              then buffer (from + (i - offset))
              else content disk inode i)
    joined i = elim (Bool-cases (leb (offset + c) i && ltb i (offset + c + n))) [
      | inl t ↦
          let h : (leb offset i && ltb i (offset + (c + n))) ≡ true = ground (arith, t) in
          rw (t, h) (ap buffer (ground (arith, t)))
      | inr f ↦ elim (Bool-cases (leb offset i && ltb i (offset + c))) [
        | inl t ↦
            let h : (leb offset i && ltb i (offset + (c + n))) ≡ true = ground (arith, t) in
            rw (f, h, w.inside i, t) refl
        | inr g ↦
            let h : (leb offset i && ltb i (offset + (c + n))) ≡ false = ground (arith, f, g) in
            rw (f, h, w.inside i, g) refl
      ]
    ]

-- What `inode_write_at` returns and does: it wrote the first `count` bytes.
pub record AreWritten (room : Bool) (inode : Inode) (buffer : ℕ → ℕ) (from size offset : ℕ)
    (disk disk' : Disk) (result : ℕ) : Type 0 where
  pub count : ℕ
  pub returned : result ≡ from + count
  pub at_most : count ≤ within inode size offset
  pub complete : room ≡ true → count ≡ within inode size offset
  pub written : IsWritten inode buffer from offset count disk disk'

module _ (room : Bool) (inode : Inode) (buffer : ℕ → ℕ) where
  stopped :
      (from size offset : ℕ) (disk : Disk)
      → (room ≡ true → 0 ≡ within inode size offset)
      → AreWritten room inode buffer from size offset disk disk from
  stopped from size offset disk h = record {
    count = 0;
    returned = omega arith;
    at_most = omega arith;
    complete = h;
    written = IsWritten-nothing inode buffer from offset disk;
  }

  further :
      (from size offset : ℕ) (disk : Disk)
      → 1 ≤ chunk_size inode size offset
      → (disk' : Disk) (result : ℕ)
      → let c = chunk_size inode size offset in
        AreWritten room inode buffer
          (from + c)
          (size - c)
          (offset + c)
          (after inode buffer from size offset disk)
          disk'
          result
        → AreWritten room inode buffer from size offset disk disk' result
  further from size offset disk p disk' result r =
      let c = chunk_size inode size offset in
      record {
        count = c + r.count;
        returned = omega (arith, r.returned);
        at_most = omega (arith, r.at_most, within-chunk inode size offset);
        complete = λ e. omega (arith, r.complete e, within-chunk inode size offset);
        written =
            IsWritten-more inode buffer from offset c r.count disk _ disk'
              (round-IsWritten inode buffer from size offset disk p) r.written;
      }

  write_from-AreWritten :
      (fuel from size offset : ℕ) (disk : Disk)
      → size ≤ fuel
      → let r = write_from room inode buffer fuel from size offset disk in
        AreWritten room inode buffer from size offset disk r.0 r.1
  unfolding write_from
  write_from-AreWritten zero from size offset disk l =
      stopped from size offset disk (λ _. ground arith)
  write_from-AreWritten (suc fuel) from size offset disk l =
      elim (Bool-cases (chunk_size inode size offset == 0)) [
        | inl z ↦ rw z (
            stopped from size offset disk
              (λ _. sym ((chunk-le inode size offset).3 (ground arith))))
        | inr n ↦ rw n (elim (Bool-cases (is_whole offset (chunk_size inode size offset) || room)) [
          | inl go ↦
              let p : 1 ≤ chunk_size inode size offset = ground (arith, n) in
              let c = chunk_size inode size offset in
              rw (go, chunk-sector inode size offset p)
                (further from size offset disk p _ _ (
                  write_from-AreWritten fuel (from + c) (size - c) (offset + c)
                    (after inode buffer from size offset disk) (omega (arith, l, p))))
          | inr stop ↦ rw stop (
              stopped from size offset disk
                λ r. let q = no_room (is_whole offset (chunk_size inode size offset)) stop in cc)
        ])
      ]
    where
      no_room : (b : Bool) → (b || room) ≡ false → room ≡ false
      no_room true h = cc
      no_room false h = h

pub inode_write_at_lem :
    (room : Bool) (inode : Inode) (buffer : ℕ → ℕ) (size offset : ℕ) (disk : Disk)
    → let r = inode_write_at room inode buffer size offset disk in
      (inode.deny_write_cnt ≢ 0 → r ≡ (disk, 0))
      × (inode.deny_write_cnt ≡ 0 → AreWritten room inode buffer 0 size offset disk r.0 r.1)
unfolding inode_write_at
inode_write_at_lem room inode buffer size offset disk = (
  λ ne. rw (let f : (inode.deny_write_cnt == 0) ≡ false = ground arith in f) refl,
  λ e.
      rw (let t : (inode.deny_write_cnt == 0) ≡ true = ground arith in t)
        (write_from-AreWritten room inode buffer size 0 size offset disk (omega arith)),
)

pub read-write :
    (inode : Inode) (buffer : ℕ → ℕ) (size offset : ℕ) (disk : Disk)
    → inode.deny_write_cnt ≡ 0
    → let r = inode_write_at true inode buffer size offset disk in
      inode_read_at true r.0 inode size offset ≡ bytes buffer 0 r.1
read-write inode buffer size offset disk d =
    let w = (inode_write_at_lem true inode buffer size offset disk).1 d in
    let r =
      inode_read_at_lem true (inode_write_at true inode buffer size offset disk).0 inode size
        offset in
    r.bytes_of
    ∙ ap (bytes (content (inode_write_at true inode buffer size offset disk).0 inode) offset)
        (let e : r.count ≡ w.count = omega (arith, r.complete refl, w.complete refl) in e)
    ∙ bytes_agree (content (inode_write_at true inode buffer size offset disk).0 inode) buffer
        offset 0 w.count
        (λ i l.
          let t : (leb offset (offset + i) && ltb (offset + i) (offset + w.count)) ≡ true =
            ground (arith, l) in
          w.written.inside (offset + i) ∙ rw t (ap buffer (omega arith)))
    ∙ ap (bytes buffer 0) (omega (arith, w.returned))

-- A count of denials forbids all writes.
pub inode_write_at_denied :
    (room : Bool) (inode : Inode) (buffer : ℕ → ℕ) (size offset : ℕ) (disk : Disk)
    → (inode.deny_write_cnt == 0) ≡ false
    → inode_write_at room inode buffer size offset disk ≡ (disk, 0)
unfolding inode_write_at
inode_write_at_denied room inode buffer size offset disk h = rw h refl

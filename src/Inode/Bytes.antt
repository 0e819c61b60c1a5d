-- ===== src/Inode/Bytes.antt =====
-- An inode of filesys/inode.c as one sequence of bytes.
use pintos_vm.Base.{
  ℕ, zero, suc, ◌+◌, ◌-◌, ◌/◌, ◌%◌, ◌≤◌, ◌<◌, ◌≡◌, refl, ap, ◌∷◌, ◌++◌, arith, lt→ltb, ◌∙◌,
}
use pintos_vm.Inode.{Disk, Inode, bytes, chunk_size, lesser, byte_to_sector}

-- Byte `i` of the inode.
abbrev pub content : Disk → Inode → ℕ → ℕ
content disk inode i = disk (inode.start + i / 512) (i % 512)

-- How many of `size` bytes from `offset` on lie in the inode.
abbrev pub within : Inode → ℕ → ℕ → ℕ
within inode size offset = lesser size (inode.length - offset)

pub bytes-append : (s : ℕ → ℕ) (a m n : ℕ) → bytes s a m ++ bytes s (a + m) n ≡ bytes s a (m + n)
bytes-append s a zero n = ap (λ b. bytes s b n) (omega arith) ∙ ap (bytes s a) (omega arith)
bytes-append s a (suc m) n =
    ap (◌∷◌ (s a))
      (ap (λ b. bytes s (a + 1) m ++ bytes s b n) (omega arith) ∙ bytes-append s (a + 1) m n)
    ∙ ap (bytes s a) (let e : suc (m + n) ≡ suc m + n = omega arith in e)

-- Two sources that agree.
pub bytes_agree :
    (s t : ℕ → ℕ) (a b n : ℕ)
    → ((i : ℕ) → i < n → s (a + i) ≡ t (b + i))
    → bytes s a n ≡ bytes t b n
bytes_agree s t a b zero h = refl
bytes_agree s t a b (suc n) h =
    let p : s a ≡ t b =
      ap s (let e : a ≡ a + 0 = omega arith in e)
      ∙ h 0 (omega arith)
      ∙ ap t (let e : b + 0 ≡ b = omega arith in e) in
    ap (λ x. x ∷ bytes s (a + 1) n) p
    ∙ ap (◌∷◌ (t b)) (
        bytes_agree s t (a + 1) (b + 1) n λ i l.
          ap s (let e : a + 1 + i ≡ a + suc i = omega arith in e)
          ∙ h (suc i) (omega arith)
          ∙ ap t (let e : b + suc i ≡ b + 1 + i = omega arith in e))

-- A chunk is not longer than what is left of the size, of the inode and of the sector, and is only
-- empty if nothing is left of the first two.
pub chunk-le :
    (inode : Inode) (size offset : ℕ)
    → (chunk_size inode size offset ≤ size)
      × (chunk_size inode size offset ≤ inode.length - offset)
      × (chunk_size inode size offset + offset % 512 ≤ 512)
      × (chunk_size inode size offset ≡ 0 → within inode size offset ≡ 0)
chunk-le inode size offset = (ground arith, ground arith, ground arith, λ e. ground arith)

-- A chunk stays in one sector.
pub chunk-content :
    (disk : Disk) (inode : Inode) (size offset : ℕ)
    → bytes (disk (inode.start + offset / 512)) (offset % 512) (chunk_size inode size offset)
      ≡ bytes (content disk inode) offset (chunk_size inode size offset)
chunk-content disk inode size offset =
    bytes_agree _ (content disk inode) (offset % 512) offset (chunk_size inode size offset) λ i l.
      let c = chunk-le inode size offset in
      let q : offset / 512 ≡ (offset + i) / 512 = omega arith in
      let r : offset % 512 + i ≡ (offset + i) % 512 = omega arith in
      ap (λ j. disk (inode.start + j) (offset % 512 + i)) q
      ∙ ap (disk (inode.start + (offset + i) / 512)) r

-- A chunk that is not empty starts in the inode.
pub chunk-sector :
    (inode : Inode) (size offset : ℕ)
    → 1 ≤ chunk_size inode size offset
    → byte_to_sector inode offset ≡ inode.start + offset / 512
chunk-sector inode size offset h =
    let c = chunk-le inode size offset in rw (lt→ltb offset inode.length (omega (arith, c.1))) refl

-- What lies in the inode of the rest behind a chunk.
pub within-chunk :
    (inode : Inode) (size offset : ℕ)
    → chunk_size inode size offset
        + within inode (size - chunk_size inode size offset) (offset + chunk_size inode size offset)
      ≡ within inode size offset
within-chunk inode size offset = ground arith

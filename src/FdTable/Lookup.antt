-- ===== src/FdTable/Lookup.antt =====
-- What the file descriptor table of userprog/syscall.c finds after a file was added or removed.
use pintos_vm.Base.{
  ℕ, zero, suc, ◌+◌, ◌-◌, ◌≤◌, ◌<◌, ◌≡◌, refl, true, false, Option, some, leb, arith, Bool-cases,
  ◌⊎◌, inl, inr, ◌==◌,
}
use pintos_vm.Base.Int.{ℤ, pos, negsuc}
use pintos_vm.FdTable.{FdTable, fdcount_limit, is_open, skip_open, add_file_to_fdt, find_file_by_fd}

-- The first slot from `i` on that is not open, or the slot `n` places further.
record IsFirstFree (fdt : ℕ → Option ℕ) (n i r : ℕ) : Type 0 where
  above : i ≤ r
  below : r ≤ i + n
  taken : (j : ℕ) → i ≤ j → j < r → is_open (fdt j) ≡ true
  free : r < i + n → is_open (fdt r) ≡ false

skip_open-IsFirstFree : (fdt : ℕ → Option ℕ) (n i : ℕ) → IsFirstFree fdt n i (skip_open fdt n i)
unfolding skip_open
skip_open-IsFirstFree fdt zero i = record {
  above = omega arith;
  below = omega arith;
  taken = λ j l h. absurd (omega arith);
  free = λ h. absurd (omega arith);
}
skip_open-IsFirstFree fdt (suc n) i = elim (Bool-cases (is_open (fdt i))) [
  | inl t ↦
      let r = skip_open-IsFirstFree fdt n (i + 1) in
      rw t (record {
        above = omega (arith, r.above);
        below = omega (arith, r.below);
        taken = λ j l h. elim (Bool-cases (i == j)) [
          | inl q ↦ let e : i ≡ j = ground arith in cc
          | inr q ↦ r.taken j (ground (arith, l, q)) h
        ];
        free = λ h. r.free (omega (arith, h));
      })
  | inr f ↦ rw f (record {
    above = omega arith;
    below = omega arith;
    taken = λ j l h. absurd (omega arith);
    free = λ h. f;
  })
]

-- What `add_file_to_fdt` does: the file stands in the first free slot from `fd_index` on, which is
-- returned and found, and every other slot is as before; or all of these slots are taken.
pub record IsAdded (file : ℕ) (t : FdTable) (fd : ℤ) (t' : FdTable) : Type 0 where
  pub taken : (j : ℕ) → t.fd_index ≤ j → j < t'.fd_index → is_open (t.fdt j) ≡ true
  pub result :
      ((fd ≡ negsuc 0) × (t'.fd_index ≡ fdcount_limit) × (t'.fdt ≡ t.fdt))
      ⊎ ((fd ≡ pos t'.fd_index)
          × (t'.fd_index < fdcount_limit)
          × (is_open (t.fdt t'.fd_index) ≡ false)
          × (find_file_by_fd fd t' ≡ some (some file))
          × ((j : ℕ) → (j == t'.fd_index) ≡ false → t'.fdt j ≡ t.fdt j))

-- `add_file_to_fdt` with an index up to the limit puts the file in the first free slot from `fd_index`
-- on, where `find_file_by_fd` of the descriptor that is returned finds it, and changes no other slot;
-- it returns -1, and changes no slot, exactly if none of them is free.
pub add_file_to_fdt_lem :
    (file : ℕ) (t : FdTable)
    → t.fd_index ≤ fdcount_limit
    → IsAdded file t (add_file_to_fdt file t).0 (add_file_to_fdt file t).1
unfolding add_file_to_fdt find_file_by_fd
add_file_to_fdt_lem file t l = elim (Bool-cases (leb fdcount_limit i)) [
  | inl full ↦
      rw full
        (record { taken = r.taken; result = inl (refl, ground (arith, r.below, l, full), refl) })
  | inr some_left ↦ rw some_left (record {
    taken = r.taken;
    result = inr (
      refl,
      ground (arith, some_left),
      r.free (ground (arith, l, some_left)),
      ground (arith, some_left),
      λ j ne. ground arith,
    );
  })
]
  where
    i : ℕ
    i = skip_open t.fdt (fdcount_limit - t.fd_index) t.fd_index

    r : IsFirstFree t.fdt (fdcount_limit - t.fd_index) t.fd_index i
    r = skip_open-IsFirstFree t.fdt (fdcount_limit - t.fd_index) t.fd_index

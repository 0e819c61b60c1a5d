-- ===== src/OpenFiles/Close.antt =====
-- Closing, reopening and duplicating a file of filesys/file.c keep the counts of all inodes true.
use pintos_vm.Base.{
  ap, Returns-mono, Returns-if, if◌then◌else◌, none, sym, subst, refl, Option, update, Returns-bind,
  some, Returns, ℕ, ◌≡◌, true, false, List, ◌∷◌, arith, ◌==◌, count,
}
use pintos_vm.OpenFiles.{
  file_deny_write, copy_attributes, reopened, file_open, File, inode_reopen, file_duplicate,
  file_reopen, set_file, FileSystem,
}
use pintos_vm.OpenFiles.Invariant.{denials-update, openers-update, IsValid}
use pintos_vm.OpenFiles.Files.{
  IsValid-kept, AreAlike-refl, file_deny_write-IsValid, file_open-IsValid,
}
use pintos_vm.OpenFiles.Reopen.{reopened-IsValid}

module _ (held opened : List ℕ) (f g : ℕ) (fs : FileSystem) where
  -- The new file is open beside the old one, which is as it was.
  abbrev pub IsReopened : Option ℕ × FileSystem → Type 0
  IsReopened (none, fs') = ⊥
  IsReopened (some h, fs') =
      (h ≡ g) × IsValid held (g ∷ f ∷ opened) fs' × (fs'.files f ≡ fs.files f)

  -- The new file denies writing if the old one does.
  abbrev pub IsDuplicate : Option ℕ × FileSystem → Type 0
  IsDuplicate (none, fs') = ⊥
  IsDuplicate (some h, fs') =
      (h ≡ g)
      × IsValid held (g ∷ f ∷ opened) fs'
      × ((fs.files f).deny_write ≡ true → (fs'.files g).deny_write ≡ true)

  abbrev IsCopied : FileSystem → Type 0
  IsCopied fs' =
      IsValid held (g ∷ f ∷ opened) fs'
      × ((fs.files f).deny_write ≡ true → (fs'.files g).deny_write ≡ true)

module _ (held opened : List ℕ) (f g : ℕ) (fs : FileSystem) (v : IsValid held (f ∷ opened) fs)
    (new : count g (f ∷ opened) ≡ 0) where
  -- `file_reopen` with room for the new file opens the inode of the file once more, and leaves the counts of all inodes true.
  pub file_reopen-IsValid : Returns (IsReopened held opened f g fs) (file_reopen (some g) fs f)
  unfolding file_reopen inode_reopen file_open
  file_reopen-IsValid =
      let i = (fs.files f).inode in
      let w = reopened-IsValid held (f ∷ opened) i fs v (ground arith) in
      let p = file_open-IsValid held (f ∷ opened) i g (reopened fs i) w new in
      let ne : (g == f) ≡ false = ground arith in (refl, p.1, rw ne refl)

  -- Setting the position of a file.
  IsValid-pos :
      (fs' : FileSystem) (pos : ℕ)
      → IsValid held (g ∷ f ∷ opened) fs'
      → IsValid held (g ∷ f ∷ opened) (set_file g (record (fs'.files g) { pos = pos }) fs')
  IsValid-pos fs' pos w =
      let x : File = record (fs'.files g) { pos = pos } in
      IsValid-kept held (g ∷ f ∷ opened) held (g ∷ f ∷ opened) fs' fs'.inodes (update fs'.files g x)
        w (λ k. AreAlike-refl (fs'.inodes k))
        (λ k. ground (arith, openers-update fs'.files g x (f ∷ opened) k new))
        (λ k l. ground (arith, w.denied k l, denials-update fs'.files g x (f ∷ opened) k new))
        w.single

  -- `file_duplicate` with room for the new file leaves the counts of all inodes true, and the new file
  -- denies writing exactly if the old one does.
  pub file_duplicate-IsValid :
      Returns (IsDuplicate held opened f g fs) (file_duplicate (some g) fs f)
  unfolding file_duplicate
  file_duplicate-IsValid =
      Returns-bind (IsReopened held opened f g fs) (IsDuplicate held opened f g fs)
        (file_reopen (some g) fs f) _ file_reopen-IsValid copied
    where
      attributes :
          (fs' : FileSystem)
          → IsValid held (g ∷ f ∷ opened) fs'
          → fs'.files f ≡ fs.files f
          → Returns (IsDuplicate held opened f g fs) (copy_attributes fs' f (some g))
      attributes fs' w same =
          let pos = (fs'.files f).pos in
          let fs₁ = set_file g (record (fs'.files g) { pos = pos }) fs' in
          let w₁ = IsValid-pos fs' pos w in
          Returns-bind (IsCopied held opened f g fs) (IsDuplicate held opened f g fs)
            (if (fs'.files f).deny_write then file_deny_write fs₁ g else some fs₁) _
            (Returns-if (IsCopied held opened f g fs) (fs'.files f).deny_write
              (file_deny_write fs₁ g) (some fs₁)
              (λ t.
                Returns-mono _ (IsCopied held opened f g fs) (file_deny_write fs₁ g)
                  (file_deny_write-IsValid held (f ∷ opened) g fs₁ w₁) λ fs₂ (q, d). (q, λ _. d))
              λ ne. (w₁, λ t. absurd (let e = ap (λ x. x.deny_write) same in cc)))
            λ fs₂ (q, d). (refl, q, d)

      copied :
          (a : Option ℕ × FileSystem)
          → (IsReopened held opened f g fs) a
          → Returns (IsDuplicate held opened f g fs) (copy_attributes a.1 f a.0)
      copied (none, fs') r = absurd r
      copied (some h, fs') (e, w, same) =
          subst (λ j. Returns (IsDuplicate held opened f g fs) (copy_attributes fs' f (some j)))
            (sym e) (attributes fs' w same)

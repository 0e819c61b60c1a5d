-- ===== src/Vm/Claim/Evict.antt =====
-- Frames and pages of vm/vm.c point at each other, before and after `vm_get_frame`.
use pintos_vm.Base.{
  some_inj, count-keep, not, keep, sym, ◌∙◌, subst, ap, inr, inl, count-append, suc, Bool-cases,
  ◌==◌, if◌then◌else◌, ◌%◌, ℕ, ◌+◌, ◌≤◌, ◌≡◌, refl, true, false, Option, none, some, List, [], ◌∷◌,
  ◌++◌, arith, count, Returns,
}
use pintos_vm.Vm.{set_page, Entry, set_frame, Vm}
use pintos_vm.Vm.Swap.{HasSwap}
use pintos_vm.Vm.Claim.{unlink}
use pintos_vm.Bitmap.{Bitmap}
use pintos_vm.Device.{Device}
use pintos_vm.Bitmap.Bits.{IsValid}

abbrev pub IsListed : Vm → ℕ → Type 0
IsListed vm f = count f vm.frame_list ≡ 1

-- Each frame of the list points at a page or at none, and a page points at a frame exactly if the frame
-- points at it; no two frames have the same page of memory, and none that is free to be given out.
pub record AreLinked (vm : Vm) : Type 0 where
  pub single : (f : ℕ) → count f vm.frame_list ≤ 1
  pub to_page :
      (f p : ℕ) → IsListed vm f → (vm.frames f).page ≡ some p → (vm.pages p).frame ≡ some f
  pub to_frame :
      (p f : ℕ) → (vm.pages p).frame ≡ some f → IsListed vm f × ((vm.frames f).page ≡ some p)
  pub distinct :
      (f g : ℕ) → IsListed vm f → IsListed vm g → (vm.frames f).kva ≡ (vm.frames g).kva → f ≡ g
  pub aligned : (f : ℕ) → IsListed vm f → (vm.frames f).kva % 4096 ≡ 0
  pub in_use : (f : ℕ) → IsListed vm f → count (vm.frames f).kva vm.pool ≡ 0
  pub pool_single : (a : ℕ) → count a vm.pool ≤ 1
  pub pool_aligned : (a : ℕ) → count a vm.pool ≡ 1 → a % 4096 ≡ 0
  pub allocated : (f : ℕ) → IsListed vm f → count f vm.heap ≡ 0
  pub heap_single : (a : ℕ) → count a vm.heap ≤ 1

-- What `vm_get_frame` leaves: the frame is in the list and has no page, all else is linked, and no page
-- got a frame or moved to another address.
pub record IsGotten (vm : Vm) (f : ℕ) (vm' : Vm) : Type 0 where
  pub linked : AreLinked vm'
  pub listed : IsListed vm' f
  pub unused : (vm'.frames f).page ≡ none
  pub no_frame : (q : ℕ) → (vm.pages q).frame ≡ none → (vm'.pages q).frame ≡ none
  pub others : (q : ℕ) → (vm.pages q).frame ≡ none → vm'.pages q ≡ vm.pages q
  pub swap : HasSwap vm'
  pub slots : vm'.swap_bitmap.bit_cnt ≡ vm.swap_bitmap.bit_cnt
  pub tables : vm'.tables ≡ vm.tables

abbrev pub ReturnsFrame : Vm → Option (ℕ × Vm) → Type 0
ReturnsFrame vm m = Returns (λ (f, vm'). IsGotten vm f vm') m

-- Pushing the frame at the end.
abbrev pub pushed : ℕ → Vm → Vm
pushed f vm =
    let vm' = record vm { frame_list = vm.frame_list ++ f ∷ [] } in
    set_frame f (record (vm'.frames f) { page = none }) vm'

count-push :
    (g f : ℕ) (xs : List ℕ) → count g (xs ++ f ∷ []) ≡ count g xs + (if f == g then 1 else 0)
count-push g f xs = count-append g xs (f ∷ []) ∙ ap (λ n. count g xs + n) (ground arith)

-- A free page of memory in a new frame.
module _ (vm : Vm) (kva f : ℕ) (pool heap : List ℕ) (l : AreLinked vm) (s : HasSwap vm)
    (e : vm.pool ≡ kva ∷ pool) (e' : vm.heap ≡ f ∷ heap) where
  abbrev pub new_frame : Vm
  new_frame =
      pushed f
        (set_frame f (record { kva = kva; page = none }) (record vm { pool = pool; heap = heap }))

  count-pool : (a : ℕ) → count a vm.pool ≡ (if kva == a then suc (count a pool) else count a pool)
  count-pool a = ap (count a) e

  count-heap : (a : ℕ) → count a vm.heap ≡ (if f == a then suc (count a heap) else count a heap)
  count-heap a = ap (count a) e'

  absent : count f vm.frame_list ≡ 0
  absent = elim (Bool-cases (count f vm.frame_list == 0)) [
    | inl t ↦ ground arith
    | inr ne ↦
        let q = l.allocated f (ground (arith, l.single f)) in absurd (ground (arith, count-heap f))
  ]

  old : (g : ℕ) → IsListed new_frame g → (f == g) ≡ false → IsListed vm g
  old g m ne = ground (arith, count-push g f vm.frame_list)

  self : (f == f) ≡ true
  self = ground arith

  clash : (g : ℕ) → IsListed vm g → kva ≡ (vm.frames g).kva → ⊥
  clash g m q =
      let i = subst (λ k. count k vm.pool ≡ 0) (sym q) (l.in_use g m) in
      ground (arith, count-pool kva)

  pub fresh_lem : IsGotten vm f new_frame
  fresh_lem = record {
    linked = record {
      single = λ g. elim (Bool-cases (f == g)) [
        | inl t ↦
            let p : f ≡ g = ground arith in
            let z = subst (λ j. count j vm.frame_list ≡ 0) p absent in
            ground (arith, count-push g f vm.frame_list)
        | inr ne ↦ ground (arith, count-push g f vm.frame_list, l.single g)
      ];
      to_page = λ g p m. elim (Bool-cases (f == g)) [
        | inl t ↦ rw t λ q. cc
        | inr ne ↦ rw ne (l.to_page g p (old g m ne))
      ];
      to_frame = λ p g q. elim (Bool-cases (f == g)) [
        | inl t ↦
            let (m, r) = l.to_frame p g q in
            let p' : f ≡ g = ground arith in
            let z = subst (λ j. count j vm.frame_list ≡ 0) p' absent in absurd (omega arith)
        | inr ne ↦
            let (m, r) = l.to_frame p g q in rw ne (ground (arith, count-push g f vm.frame_list), r)
      ];
      distinct = λ g g' m m'. elim (Bool-cases (f == g)) [
        | inl t ↦ elim (Bool-cases (f == g')) [
          | inl u ↦ λ q. ground arith
          | inr ne ↦ rw (t, ne, self) λ q. absurd (clash g' (old g' m' ne) q)
        ]
        | inr ne ↦ elim (Bool-cases (f == g')) [
          | inl u ↦ rw (u, ne, self) λ q. absurd (clash g (old g m ne) (sym q))
          | inr ne' ↦ rw (ne, ne') (l.distinct g g' (old g m ne) (old g' m' ne'))
        ]
      ];
      aligned = λ g m. elim (Bool-cases (f == g)) [
        | inl t ↦
            rw (t, self) (l.pool_aligned kva (ground (arith, count-pool kva, l.pool_single kva)))
        | inr ne ↦ rw ne (l.aligned g (old g m ne))
      ];
      in_use = λ g m. elim (Bool-cases (f == g)) [
        | inl t ↦ rw (t, self) (ground (arith, count-pool kva, l.pool_single kva))
        | inr ne ↦ rw ne (ground (arith, count-pool (vm.frames g).kva, l.in_use g (old g m ne)))
      ];
      pool_single = λ a. ground (arith, count-pool a, l.pool_single a);
      pool_aligned = λ a m. l.pool_aligned a (ground (arith, count-pool a, l.pool_single a));
      allocated = λ g m. elim (Bool-cases (f == g)) [
        | inl t ↦ ground (arith, count-heap g, l.heap_single g)
        | inr ne ↦ ground (arith, count-heap g, l.allocated g (old g m ne))
      ];
      heap_single = λ a. ground (arith, count-heap a, l.heap_single a);
    };
    listed = ground (arith, count-push f f vm.frame_list, absent);
    unused = ground arith;
    no_frame = λ q h. h;
    others = λ q h. refl;
    swap = record {
      valid = s.valid;
      sectors = s.sectors;
      small = s.small;
      some_slot = s.some_slot;
    };
    slots = refl;
    tables = refl;
  }

-- The frame of a page that was swapped out.
module _ (vm : Vm) (f p : ℕ) (l : AreLinked vm) (s : HasSwap vm) (front : IsListed vm f)
    (used : (vm.frames f).page ≡ some p) (slot : ℕ) (b : Bitmap) (d : Device) (table : ℕ → Entry)
    (valid : IsValid b) (size : b.bit_cnt ≡ vm.swap_bitmap.bit_cnt)
    (capacity : d.capacity ≡ vm.swap_disk.capacity) where
  abbrev pub old_frame : Vm
  old_frame = pushed f (
      unlink f p (record (set_page p (record (vm.pages p) { swap_slot = slot }) vm) {
        swap_bitmap = b;
        swap_disk = d;
        pml4 = table;
      }))

  same_list : (g : ℕ) → count g old_frame.frame_list ≡ count g vm.frame_list
  same_list g = elim (Bool-cases (f == g)) [
    | inl t ↦
        let e : f ≡ g = ground arith in
        let c = subst (λ j. count j vm.frame_list ≡ 1) e front in
        ground (
          arith,
          count-push g f (keep (λ j. not (j == f)) vm.frame_list),
          count-keep f g vm.frame_list,
        )
    | inr ne ↦ ground (
      arith,
      count-push g f (keep (λ j. not (j == f)) vm.frame_list),
      count-keep f g vm.frame_list,
    )
  ]

  kept_kva : (g : ℕ) → (old_frame.frames g).kva ≡ (vm.frames g).kva
  kept_kva g = elim (Bool-cases (f == g)) [
    | inl t ↦
        let e : f ≡ g = ground arith in
        let self : (f == f) ≡ true = ground arith in rw (t, ← e, self) refl
    | inr ne ↦ rw ne refl
  ]

  only_one :
      (g q : ℕ)
      → p ≡ q
      → (vm.pages q).frame ≡ some g
      → (vm.pages p).frame ≡ some f
      → (f == g) ≡ false
      → ⊥
  only_one g q e r r' ne =
      let r'' = subst (λ j. (vm.pages j).frame ≡ some g) (sym e) r in
      let i : f ≡ g = some_inj f g (sym r' ∙ r'') in ground arith

  other_page : (q g : ℕ) → (f == g) ≡ true → (vm.frames g).page ≡ some q → (p == q) ≡ false → ⊥
  other_page q g t r ne =
      let e : f ≡ g = ground arith in
      let r' = subst (λ j. (vm.frames j).page ≡ some q) (sym e) r in
      let i : p ≡ q = some_inj p q (sym used ∙ r') in ground arith

  has_frame : (q : ℕ) → (p == q) ≡ true → (vm.pages q).frame ≡ none → ⊥
  has_frame q u h =
      let e : p ≡ q = ground arith in
      let h' = subst (λ j. (vm.pages j).frame ≡ none) (sym e) h in
      let r = l.to_page f p front used in cc

  pub evicted_lem : IsGotten vm f old_frame
  evicted_lem = record {
    linked = record {
      single = λ g. omega (arith, same_list g, l.single g);
      to_page = λ g q m. elim (Bool-cases (f == g)) [
        | inl t ↦ rw t λ h. cc
        | inr ne ↦ elim (Bool-cases (p == q)) [
          | inl u ↦
              rw (ne, u)
                λ h.
                  let e : p ≡ q = ground arith in
                  let r = l.to_page g q (sym (same_list g) ∙ m) h in
                  let r' = l.to_page f p front used in absurd (only_one g q e r r' ne)
          | inr ne' ↦ rw (ne, ne') (l.to_page g q (sym (same_list g) ∙ m))
        ]
      ];
      to_frame = λ q g. elim (Bool-cases (p == q)) [
        | inl u ↦ rw u λ h. cc
        | inr ne' ↦ rw ne' λ h.
            let (m, r) = l.to_frame q g h in
            elim (Bool-cases (f == g)) [
              | inl t ↦ absurd (other_page q g t r ne')
              | inr ne ↦ rw ne (same_list g ∙ m, r)
            ]
      ];
      distinct = λ g g' m m' q.
          l.distinct g g' (sym (same_list g) ∙ m) (sym (same_list g') ∙ m')
            (sym (kept_kva g) ∙ q ∙ kept_kva g');
      aligned = λ g m. omega (arith, kept_kva g, l.aligned g (sym (same_list g) ∙ m));
      in_use = λ g m. ap (λ a. count a vm.pool) (kept_kva g) ∙ l.in_use g (sym (same_list g) ∙ m);
      pool_single = l.pool_single;
      pool_aligned = l.pool_aligned;
      allocated = λ g m. l.allocated g (sym (same_list g) ∙ m);
      heap_single = l.heap_single;
    };
    listed = same_list f ∙ front;
    unused = ground arith;
    no_frame = λ q h. elim (Bool-cases (p == q)) [ inl u ↦ rw u refl | inr ne ↦ rw ne h ];
    others = λ q h. elim (Bool-cases (p == q)) [
      | inl u ↦ absurd (has_frame q u h)
      | inr ne ↦ rw ne refl
    ];
    swap = record {
      valid = valid;
      sectors = omega (arith, size, capacity, s.sectors);
      small = omega (arith, capacity, s.small);
      some_slot = omega (arith, size, s.some_slot);
    };
    slots = size;
    tables = refl;
  }

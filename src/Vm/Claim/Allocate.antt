-- ===== src/Vm/Claim/Allocate.antt =====
-- `vm_alloc_page_with_initializer` of vm/vm.c puts a page in the supplemental page table.
use pintos_vm.Base.{
  sym, ◌∙◌, inr, inl, subst, Bool-cases, ℕ, ◌≤◌, ◌≡◌, refl, Bool, true, false, Option, none, some,
  List, ◌==◌, arith,
}
use pintos_vm.Hash.{Hash, hash_insert}
use pintos_vm.Hash.Rehash.{items}
use pintos_vm.Hash.Update.{IsInserted, hash_insert_lem, one_if}
use pintos_vm.Vm.{Vm, Page, Initializer, uninit_new, pg_round_down, set_page}
use pintos_vm.Vm.Claim.{va_of, spt_find_page, spt_insert_page, spt_hash_func, spt_hash_less_func}
use pintos_vm.Vm.Claim.Table.{
  has_va, IsTable, IsPageAt, IsPageAt-unique, IsTable-agree, callbacks, spt_find_page_lem,
}
use pintos_vm.Hash.Table.{IsFound}
use pintos_vm.Hash.Total.{total_mono}
use pintos_vm.Hash.Members.{total-agree}
use pintos_vm.Vm.Swap.{ReturnsTrue}

-- The table is valid, and the key that stands at address 0 is not in it.
pub record HasTable (vm : Vm) : Type 0 where
  pub table : IsTable (va_of vm) vm.spt
  pub no_key : items vm.spt (λ y. y == 0) ≡ 0

-- What a new page `p` at an address leaves: it is found there, and everything else as before.
pub record IsAllocated (vm : Vm) (p upage : ℕ) (page : Page) (vm' : Vm) : Type 0 where
  pub valid : HasTable vm'
  pub found : spt_find_page vm' upage ≡ some p
  pub is_page : vm'.pages p ≡ page
  pub others :
      (a : ℕ) → (pg_round_down a == upage) ≡ false → spt_find_page vm' a ≡ spt_find_page vm a
  pub kept : (q : ℕ) → (p == q) ≡ false → vm'.pages q ≡ vm.pages q

module _ (vm : Vm) (p upage : ℕ) (page : Page) (heap : List ℕ) (v : HasTable vm)
    (fresh : items vm.spt (λ y. y == p) ≡ 0) (not_key : (p == 0) ≡ false)
    (aligned : pg_round_down upage ≡ upage) (at_upage : page.va ≡ upage)
    (absent : spt_find_page vm upage ≡ none) where
  abbrev pub vm₁ : Vm
  vm₁ = set_page p page (record vm { heap = heap })

  same_va : (x : ℕ) → 1 ≤ items vm.spt (λ y. y == x) → va_of vm x ≡ va_of vm₁ x
  same_va x k = elim (Bool-cases (p == x)) [
    | inl t ↦
        let e : p ≡ x = ground arith in
        let z = subst (λ j. items vm.spt (λ y. y == j) ≡ 0) e fresh in absurd (omega arith)
    | inr ne ↦ rw (ne, va_of) refl
  ]

  va_self : va_of vm₁ p ≡ upage
  va_self = let t : (p == p) ≡ true = ground arith in rw (t, va_of) at_upage

  nothing_there : items vm.spt (λ y. va_of vm y == upage) ≡ 0
  nothing_there =
      subst (λ a. items vm.spt (λ y. va_of vm y == a) ≡ 0) aligned
        (subst (IsPageAt (va_of vm) vm.spt (pg_round_down upage)) absent
          (spt_find_page_lem vm upage v.table v.no_key))

  inserted :
      IsInserted
        (spt_hash_func (va_of vm₁))
        (spt_hash_less_func (va_of vm₁))
        vm.spt
        p
        (hash_insert
          (spt_hash_func (va_of vm₁))
          (spt_hash_less_func (va_of vm₁))
          vm.room
          vm.spt
          p).0
        (hash_insert
          (spt_hash_func (va_of vm₁))
          (spt_hash_less_func (va_of vm₁))
          vm.room
          vm.spt
          p).1
  inserted =
      hash_insert_lem (spt_hash_func (va_of vm₁)) (spt_hash_less_func (va_of vm₁))
        (callbacks (va_of vm₁)) vm.room vm.spt
        (IsTable-agree (va_of vm) (va_of vm₁) vm.spt v.table same_va) p

  is_new : (old : Option ℕ) → IsFound (spt_hash_less_func (va_of vm₁)) vm.spt p old → old ≡ none
  is_new none f = refl
  is_new (some x) (t, k) =
      let s = same_va x (omega arith) in
      let m =
        total_mono (λ y. y == x) (λ y. va_of vm y == upage) vm.spt.buckets vm.spt.bucket_cnt
          (λ y. has_va (va_of vm) x upage y (ground (arith, va_self))) in
      absurd (omega (arith, nothing_there))

  module _ (h : Hash)
      (r : IsInserted
        (spt_hash_func (va_of vm₁))
        (spt_hash_less_func (va_of vm₁))
        vm.spt
        p
        none
        h) where
    abbrev vm₂ : Vm
    vm₂ = record vm₁ { spt = h }

    HasTable-inserted : HasTable vm₂
    HasTable-inserted = record {
      table = r.valid;
      no_key = omega (
        arith,
        r.contents (λ y. y == 0),
        v.no_key,
        let e : one_if (λ y. y == 0) p ≡ 0 = ground arith in e,
      );
    }

    found_new : spt_find_page vm₂ upage ≡ some p
    found_new =
        IsPageAt-unique (va_of vm₂) h (pg_round_down upage) (spt_find_page vm₂ upage) (some p)
          r.valid (spt_find_page_lem vm₂ upage r.valid HasTable-inserted.no_key)
          (
            va_self ∙ sym aligned,
            omega (
              arith,
              r.contents (λ y. y == p),
              fresh,
              let e : one_if (λ y. y == p) p ≡ 1 = ground arith in e,
            ),
          )

    found_others :
        (a : ℕ) → (pg_round_down a == upage) ≡ false → spt_find_page vm₂ a ≡ spt_find_page vm a
    found_others a ne =
        IsPageAt-unique (va_of vm₂) h (pg_round_down a) (spt_find_page vm₂ a) (spt_find_page vm a)
          r.valid (spt_find_page_lem vm₂ a r.valid HasTable-inserted.no_key)
          (still (spt_find_page vm a) (spt_find_page_lem vm a v.table v.no_key))
      where
        still :
            (o : Option ℕ)
            → IsPageAt (va_of vm) vm.spt (pg_round_down a) o
            → IsPageAt (va_of vm₂) h (pg_round_down a) o
        still none f =
            let t =
              total-agree (λ y. va_of vm y == pg_round_down a) (λ y. va_of vm₁ y == pg_round_down a)
                vm.spt.buckets vm.spt.bucket_cnt (λ x k. let s = same_va x k in ground arith) in
            omega (
              arith,
              r.contents (λ y. va_of vm₁ y == pg_round_down a),
              let e : one_if (λ y. va_of vm₁ y == pg_round_down a) p ≡ 0 =
                    ground (arith, va_self) in
                  e,
            )
        still (some x) (e, k) =
            let s = same_va x (omega arith) in
            let z : one_if (λ y. y == x) p ≡ 0 = ground (arith, va_self) in
            (sym s ∙ e, omega (arith, r.contents (λ y. y == x)))

    IsAllocated-inserted : IsAllocated vm p upage page vm₂
    IsAllocated-inserted = record {
      valid = HasTable-inserted;
      found = found_new;
      is_page = ground arith;
      others = found_others;
      kept = λ q ne. rw ne refl;
    }

  pub insert_lem : ReturnsTrue (IsAllocated vm p upage page) (some (spt_insert_page vm₁ p))
  unfolding spt_insert_page
  insert_lem =
      step
        (hash_insert (spt_hash_func (va_of vm₁)) (spt_hash_less_func (va_of vm₁)) vm.room vm.spt
          p).0
        (hash_insert (spt_hash_func (va_of vm₁)) (spt_hash_less_func (va_of vm₁)) vm.room vm.spt
          p).1
        inserted
    where
      step :
          (old : Option ℕ) (h : Hash)
          → IsInserted (spt_hash_func (va_of vm₁)) (spt_hash_less_func (va_of vm₁)) vm.spt p old h
          → ((elim old [ none ↦ true | some q ↦ false ]) ≡ true)
            × IsAllocated vm p upage page (record vm₁ { spt = h })
      step none h r = (refl, IsAllocated-inserted h r)
      step (some x) h r = absurd (let e = is_new (some x) r.result in cc)

-- The page that is put in the table.
abbrev pub new_page : ℕ → ℕ → Bool → Bool → Option ℕ → Initializer → Page
new_page type upage writable init aux initializer =
    record (uninit_new upage init type aux initializer) { writable = writable }

-- ===== src/Vm/Claim/Table.antt =====
-- The supplemental page table of vm/vm.c: a page is found at the addresses in it, once it is allocated.
use Prim.Native.Nat.{bit_and}
use pintos_vm.Base.{
  sym, ◌-◌, ◌||◌, ◌∙◌, subst, ◌⊎◌, ap, inr, inl, Bool-cases, ℕ, ◌≤◌, ◌≡◌, refl, true, false, Option,
  none, some, ◌==◌, arith,
}
use pintos_vm.Hash.{bucket_idx, Hash, alike, hash_find}
use pintos_vm.Hash.Rehash.{items}
use pintos_vm.Hash.Table.{AreCallbacks, IsFound, hash_find_lem}
use pintos_vm.Hash.Members.{total-or, total-witness, total-agree, All-in}
use pintos_vm.Vm.{Vm, pg_round_down}
use pintos_vm.Vm.Claim.{spt_hash_func, spt_hash_less_func, va_of, with_key, spt_find_page}
use pintos_vm.Hash.Total.{total_mono, total_at}

pub callbacks : (va : ℕ → ℕ) → AreCallbacks (spt_hash_func va) (spt_hash_less_func va)
callbacks va = record {
  order = record { asym = λ a b h. ground arith; trans = λ a b c h k. ground arith };
  agree = λ a b h. let e : va a ≡ va b = ground arith in rw e refl;
}

-- The table is a valid hash table under the addresses of its pages.
abbrev pub IsTable : (ℕ → ℕ) → Hash → Type 0
IsTable va h = pintos_vm.Hash.Rehash.IsValid (spt_hash_func va) (spt_hash_less_func va) h

-- At most one page of the table has an address.
single_va : (va : ℕ → ℕ) (h : Hash) → IsTable va h → (a : ℕ) → items h (λ y. va y == a) ≤ 1
single_va va h v a = elim (Bool-cases (items h (λ y. va y == a) == 0)) [
  | inl t ↦ ground arith
  | inr ne ↦
      let (x, e, k) = total-witness (λ y. va y == a) h.buckets h.bucket_cnt (ground arith) in
      let m =
        total_mono (λ y. va y == a) (alike (spt_hash_less_func va) x) h.buckets h.bucket_cnt
          (λ y q. ground arith) in
      omega (arith, v.single x, m)
]

-- Other addresses that agree with these on the pages of the table.
pub IsTable-agree :
    (va va' : ℕ → ℕ) (h : Hash)
    → IsTable va h
    → ((x : ℕ) → 1 ≤ items h (λ y. y == x) → va x ≡ va' x)
    → IsTable va' h
IsTable-agree va va' h v same = record {
  some_buckets = v.some_buckets;
  placed = λ i l.
      All-in (λ x. bucket_idx (spt_hash_func va) h.bucket_cnt x ≡ i)
        (λ x. bucket_idx (spt_hash_func va') h.bucket_cnt x ≡ i) (h.buckets i)
        (λ x k e.
          let q = same x (omega (arith, k, total_at (λ y. y == x) h.buckets h.bucket_cnt i l)) in
          let r : spt_hash_func va' x ≡ spt_hash_func va x = rw q refl in
          subst (λ z. bit_and z (h.bucket_cnt - 1) ≡ i) (sym r) e)
        (v.placed i l);
  single = λ e.
      let q =
        total-agree (alike (spt_hash_less_func va') e) (λ y. va y == va' e) h.buckets h.bucket_cnt
          (λ x k. let r = same x k in ground arith) in
      omega (arith, q, single_va va h v (va' e));
  counted = v.counted;
}

-- What a search for an address finds: the page of the table that has it, or there is none.
abbrev pub IsPageAt : (ℕ → ℕ) → Hash → ℕ → Option ℕ → Type 0
IsPageAt va h a none = items h (λ y. va y == a) ≡ 0
IsPageAt va h a (some p) = (va p ≡ a) × (items h (λ y. y == p) ≡ 1)

pub has_va : (va : ℕ → ℕ) (q a y : ℕ) → va q ≡ a → (y == q) ≡ true → (va y == a) ≡ true
has_va va q a y e t = let i : y ≡ q = ground arith in rw i (ground arith)

-- There is only one such answer.
pub IsPageAt-unique :
    (va : ℕ → ℕ) (h : Hash) (a : ℕ) (r r' : Option ℕ)
    → IsTable va h
    → IsPageAt va h a r
    → IsPageAt va h a r'
    → r ≡ r'
IsPageAt-unique va h a none none v f g = refl
IsPageAt-unique va h a none (some q) v f (e, k) =
    let m =
      total_mono (λ y. y == q) (λ y. va y == a) h.buckets h.bucket_cnt (λ y. has_va va q a y e) in
    absurd (omega arith)
IsPageAt-unique va h a (some p) none v (e, k) f =
    let m =
      total_mono (λ y. y == p) (λ y. va y == a) h.buckets h.bucket_cnt (λ y. has_va va p a y e) in
    absurd (omega arith)
IsPageAt-unique va h a (some p) (some q) v (e, k) (e', k') = elim (Bool-cases (p == q)) [
  | inl t ↦ ap some (let i : p ≡ q = ground arith in i)
  | inr ne ↦
      let d = total-or (λ y. y == p) (λ y. y == q) h.buckets h.bucket_cnt (λ x t. ground arith) in
      let m =
        total_mono (λ y. (y == p) || (y == q)) (λ y. va y == a) h.buckets h.bucket_cnt
          (λ y t. elim (Bool-cases (y == p)) [
            | inl u ↦ has_va va p a y e u
            | inr u ↦ has_va va q a y e' (ground arith)
          ]) in
      absurd (omega (arith, single_va va h v a))
]

-- On a valid table that does not hold the key itself, `spt_find_page` returns the page whose address
-- is that of the page of memory that holds VA, and a null pointer only if there is none.
pub spt_find_page_lem :
    (vm : Vm) (va : ℕ)
    → IsTable (va_of vm) vm.spt
    → items vm.spt (λ y. y == 0) ≡ 0
    → IsPageAt (va_of vm) vm.spt (pg_round_down va) (spt_find_page vm va)
unfolding spt_find_page
spt_find_page_lem vm va v no_key = found (spt_find_page vm va) (
    hash_find_lem (spt_hash_func (with_key vm va)) (spt_hash_less_func (with_key vm va))
      (callbacks (with_key vm va)) vm.spt
      (IsTable-agree (va_of vm) (with_key vm va) vm.spt v (λ x k. same x k (Bool-cases (0 == x))))
      0)
  where
    same :
        (x : ℕ)
        → 1 ≤ items vm.spt (λ y. y == x)
        → ((0 == x) ≡ true) ⊎ ((0 == x) ≡ false)
        → va_of vm x ≡ with_key vm va x
    same x k (inl t) =
        let e : 0 ≡ x = ground arith in
        let z = subst (λ j. items vm.spt (λ y. y == j) ≡ 0) e no_key in absurd (omega arith)
    same x k (inr ne) = rw ne refl

    found :
        (r : Option ℕ)
        → IsFound (spt_hash_less_func (with_key vm va)) vm.spt 0 r
        → IsPageAt (va_of vm) vm.spt (pg_round_down va) r
    found none f =
        total-agree (λ y. va_of vm y == pg_round_down va)
          (alike (spt_hash_less_func (with_key vm va)) 0) vm.spt.buckets vm.spt.bucket_cnt
          (λ x k. let s = same x k (Bool-cases (0 == x)) in ground arith)
        ∙ f
    found (some x) (t, k) = let s = same x (omega arith) (Bool-cases (0 == x)) in (ground arith, k)

-- ===== src/Hash/Table.antt =====
-- The operations of lib/kernel/hash.c on a valid table.
use pintos_vm.Base.{
  ℕ, ◌-◌, ◌≤◌, ◌<◌, ◌≡◌, refl, sym, subst, Bool, true, false, Option, none, some, List, [], ◌∷◌,
  ◌==◌, arith, tally, tally-zero, All-mono, Bool-cases, inl, inr,
}
use Prim.Native.Nat.{bit_and}
use pintos_vm.KernelList.Sort.Order.{IsOrder}
use pintos_vm.Hash.{Hash, bucket_idx, find_bucket, alike, find_elem, hash_find}
use pintos_vm.Hash.Index.{bucket_idx-lt}
use pintos_vm.Hash.Total.{total_one, total_at, total_mono}
use pintos_vm.Hash.Rehash.{items, IsValid}

-- What the owner of a table owes: `less` is an order, and equal elements have equal hash values.
pub record AreCallbacks (hash : ℕ → ℕ) (less : ℕ → ℕ → Bool) : Type 0 where
  pub order : IsOrder less
  pub agree : (a b : ℕ) → alike less a b ≡ true → hash a ≡ hash b

-- Searching a bucket finds an element that is equal and stands there, or there is none.
abbrev pub IsSearch : (ℕ → ℕ → Bool) → List ℕ → ℕ → Option ℕ → Type 0
IsSearch less xs e none = tally (alike less e) xs ≡ 0
IsSearch less xs e (some x) = (alike less e x ≡ true) × (1 ≤ tally (λ y. y == x) xs)

pub find_elem-IsSearch :
    (less : ℕ → ℕ → Bool) (xs : List ℕ) (e : ℕ) → IsSearch less xs e (find_elem less xs e)
unfolding find_elem
find_elem-IsSearch less [] e = refl
find_elem-IsSearch less (x ∷ xs) e = elim (Bool-cases (alike less e x)) [
  | inl t ↦ rw t (t, ground arith)
  | inr f ↦ rw f (later f (find_elem less xs e) (find_elem-IsSearch less xs e))
]
  where
    later :
        alike less e x ≡ false → (r : Option ℕ) → IsSearch less xs e r → IsSearch less (x ∷ xs) e r
    later f none h = rw f (omega (arith, h))
    later f (some y) (h, k) = (h, omega (arith, k))

-- What a search of the table says: an equal element that stands in it, or none does.
abbrev pub IsFound : (ℕ → ℕ → Bool) → Hash → ℕ → Option ℕ → Type 0
IsFound less h e none = items h (alike less e) ≡ 0
IsFound less h e (some x) = (alike less e x ≡ true) × (items h (λ y. y == x) ≡ 1)

module _ (hash : ℕ → ℕ) (less : ℕ → ℕ → Bool) (c : AreCallbacks hash less) (h : Hash)
    (v : IsValid hash less h) where
  idx : ℕ → ℕ
  idx e = bucket_idx hash h.bucket_cnt e

  pub alike_refl : (x : ℕ) → alike less x x ≡ true
  alike_refl x = elim (Bool-cases (less x x)) [
    | inl t ↦ let q = c.order.asym x x t in cc
    | inr f ↦ ground arith
  ]

  alike-only :
      (e j : ℕ) → j < h.bucket_cnt → (idx e == j) ≡ false → tally (alike less e) (h.buckets j) ≡ 0
  unfolding idx
  alike-only e j l ne = tally-zero (alike less e) (h.buckets j) (
      All-mono (λ x. bucket_idx hash h.bucket_cnt x ≡ j) (λ x. alike less e x ≡ false) (h.buckets j)
        (λ x q. elim (Bool-cases (alike less e x)) [
          | inl t ↦
              let r : bucket_idx hash h.bucket_cnt e ≡ j =
                subst (λ a. bit_and a (h.bucket_cnt - 1) ≡ j) (sym (c.agree e x t)) q in
              absurd (ground arith)
          | inr f ↦ f
        ])
        (v.placed j l))

  items-alike : (e : ℕ) → items h (alike less e) ≡ tally (alike less e) (find_bucket hash h e)
  unfolding idx
  items-alike e =
      let l = bucket_idx-lt hash h.bucket_cnt e v.some_buckets in
      ground (arith, l, total_one (alike less e) h.buckets h.bucket_cnt (idx e) (alike-only e))

  items_self : (x : ℕ) → items h (λ y. y == x) ≤ 1
  items_self x = omega (
    arith,
    v.single x,
    total_mono (λ y. y == x) (alike less x) h.buckets h.bucket_cnt
        λ y q.
          subst (λ z. alike less x z ≡ true) (let e : x ≡ y = ground arith in e) (alike_refl x),
  )

  pub found : (e : ℕ) (r : Option ℕ) → IsSearch less (find_bucket hash h e) e r → IsFound less h e r
  found e none s = omega (arith, items-alike e, s)
  found e (some x) (s, k) = (
    s,
    omega (
      arith,
      items_self x,
      k,
      total_at (λ y. y == x) h.buckets h.bucket_cnt (bucket_idx hash h.bucket_cnt e)
          (bucket_idx-lt hash h.bucket_cnt e v.some_buckets),
    ),
  )

  -- With callbacks that keep their contract, `hash_find` on a valid table finds an element equal
  -- to E that stands in the table, and returns a null pointer only if no element of the whole
  -- table is equal to E.
  pub hash_find_lem : (e : ℕ) → IsFound less h e (hash_find hash less h e)
  unfolding hash_find
  hash_find_lem e = found e _ (find_elem-IsSearch less (find_bucket hash h e) e)

-- ===== src/Hash/Update.antt =====
-- `hash_insert`, `hash_replace` and `hash_delete` of lib/kernel/hash.c on a valid table.
use pintos_vm.Base.{
  ℕ, ◌+◌, ◌≤◌, ◌≡◌, refl, Bool, true, false, not, Option, none, some, List, [], ◌∷◌, ◌==◌, arith,
  if◌then◌else◌, keep, All, Bool-cases, ◌⊎◌, inl, inr,
}
use pintos_vm.Hash.{
  Hash, bucket_idx, find_bucket, insert_elem, remove_elem, alike, find_elem, rehash, insert_new,
  delete_found, remove_old, hash_insert, hash_replace, hash_delete, hash_init, hash_clear,
}
use pintos_vm.Hash.Index.{bucket_idx-lt}
use pintos_vm.Hash.Total.{total-push, total-keep, total_mono}
use pintos_vm.Hash.Rehash.{items, IsValid, rehash_lem, push-ArePlaced}
use pintos_vm.Hash.Table.{AreCallbacks, IsFound, find_elem-IsSearch, found}

-- One if an element passes a test.
abbrev pub one_if : (ℕ → Bool) → ℕ → ℕ
one_if p e = if p e then 1 else 0

abbrev pub taken : (ℕ → Bool) → Option ℕ → ℕ
taken p none = 0
taken p (some x) = one_if p x

-- What `hash_insert` of `e` leaves beside its result.
pub record IsInserted (hash : ℕ → ℕ) (less : ℕ → ℕ → Bool) (h : Hash) (e : ℕ) (old : Option ℕ)
    (h' : Hash) : Type 0 where
  pub valid : IsValid hash less h'
  pub result : IsFound less h e old
  pub contents :
      (p : ℕ → Bool) → items h' p ≡ items h p + elim old [ none ↦ one_if p e | some x ↦ 0 ]

-- What `hash_replace` leaves: the old element is gone, and the new one stands in the table.
pub record IsReplaced (hash : ℕ → ℕ) (less : ℕ → ℕ → Bool) (h : Hash) (e : ℕ) (old : Option ℕ)
    (h' : Hash) : Type 0 where
  pub valid : IsValid hash less h'
  pub result : IsFound less h e old
  pub contents : (p : ℕ → Bool) → items h' p + taken p old ≡ items h p + one_if p e

pub record IsDeleted (hash : ℕ → ℕ) (less : ℕ → ℕ → Bool) (h : Hash) (e : ℕ) (old : Option ℕ)
    (h' : Hash) : Type 0 where
  pub valid : IsValid hash less h'
  pub result : IsFound less h e old
  pub contents : (p : ℕ → Bool) → items h' p + taken p old ≡ items h p

module _ (hash : ℕ → ℕ) (less : ℕ → ℕ → Bool) (c : AreCallbacks hash less) where
  alike-through :
      (a b x : ℕ) → alike less a b ≡ true → alike less a x ≡ true → alike less b x ≡ true
  alike-through a b x h k = ground (arith, c.order.trans b a x, c.order.trans x a b)

  module _ (h : Hash) (v : IsValid hash less h) (e : ℕ) where
    abbrev place : ℕ
    place = bucket_idx hash h.bucket_cnt e

    items-insert : (p : ℕ → Bool) → items (insert_elem h place e) p ≡ items h p + one_if p e
    items-insert p = ground (
      arith,
      total-push p h.buckets h.bucket_cnt place e,
      bucket_idx-lt hash h.bucket_cnt e v.some_buckets,
    )

    insert-IsValid : items h (alike less e) ≡ 0 → IsValid hash less (insert_elem h place e)
    insert-IsValid z = record {
      some_buckets = v.some_buckets;
      placed = push-ArePlaced hash h.bucket_cnt v.some_buckets e h.buckets v.placed;
      single = λ a. alone a (Bool-cases (alike less a e));
      counted = omega (arith, v.counted, items-insert (λ x. true));
    }
      where
        alone :
            (a : ℕ)
            → (alike less a e ≡ true) ⊎ (alike less a e ≡ false)
            → items (insert_elem h place e) (alike less a) ≤ 1
        alone a (inl t) =
            let m =
              total_mono (alike less a) (alike less e) h.buckets h.bucket_cnt
                (λ x k. alike-through a e x t k) in
            let s : one_if (alike less a) e ≡ 1 = ground (arith, t) in
            omega (arith, items-insert (alike less a), s, m, z)
        alone a (inr f) =
            let s : one_if (alike less a) e ≡ 0 = rw f refl in
            omega (arith, items-insert (alike less a), s, v.single a)

  All-keep : (P : ℕ → Type 0) (e : ℕ) (xs : List ℕ) → All P xs → All P (keep (λ x. not (x == e)) xs)
  All-keep P e [] a = tt
  All-keep P e (x ∷ xs) a = elim (Bool-cases (x == e)) [
    | inl t ↦ rw t (All-keep P e xs a.1)
    | inr f ↦ rw f (a.0, All-keep P e xs a.1)
  ]

  module _ (h : Hash) (v : IsValid hash less h) (x : ℕ) (one : items h (λ y. y == x) ≡ 1) where
    items-remove : (p : ℕ → Bool) → items (remove_elem h x) p + one_if p x ≡ items h p
    items-remove p = elim (Bool-cases (p x)) [
      | inl t ↦ ground (arith, total-keep p h.buckets h.bucket_cnt x, one)
      | inr f ↦ ground (arith, total-keep p h.buckets h.bucket_cnt x)
    ]

    remove-IsValid : IsValid hash less (remove_elem h x)
    remove-IsValid = record {
      some_buckets = v.some_buckets;
      placed = λ i l. All-keep _ x (h.buckets i) (v.placed i l);
      single = λ a. omega (arith, v.single a, items-remove (alike less a));
      counted = omega (arith, v.counted, items-remove (λ y. true));
    }

  module _ (room : Bool) (h : Hash) (v : IsValid hash less h) (e : ℕ) where
    search : IsFound less h e (find_elem less (find_bucket hash h e) e)
    search = found hash less c h v e _ (find_elem-IsSearch less (find_bucket hash h e) e)

    insert_at :
        (old : Option ℕ)
        → IsFound less h e old
        → IsInserted hash less h e old (rehash hash room (insert_new hash less h e old))
    insert_at none f =
        let r =
          rehash_lem hash less (insert_elem h (place h v e) e) (insert-IsValid h v e f) room in
        record {
          valid = r.valid;
          result = f;
          contents = λ p. omega (arith, r.same p, items-insert h v e p);
        }
    insert_at (some x) f =
        let r = rehash_lem hash less h v room in
        record { valid = r.valid; result = f; contents = λ p. omega (arith, r.same p) }

    -- With callbacks that keep their contract, `hash_insert` on a valid table returns an element
    -- equal to NEW that stands in the table, and changes no contents, or there is none, and it
    -- adds NEW; the table stays valid, whether malloc has room for new buckets or not.
    pub hash_insert_lem :
        IsInserted hash less h e
          (hash_insert hash less room h e).0
          (hash_insert hash less room h e).1
    unfolding hash_insert
    hash_insert_lem = insert_at (find_elem less (find_bucket hash h e) e) search

    delete_at :
        (old : Option ℕ)
        → IsFound less h e old
        → IsDeleted hash less h e old (delete_found hash less room h old)
    delete_at none f = record { valid = v; result = f; contents = λ p. omega arith }
    delete_at (some x) f =
        let r = rehash_lem hash less (remove_elem h x) (remove-IsValid h v x f.1) room in
        record {
          valid = r.valid;
          result = f;
          contents = λ p. omega (arith, r.same p, items-remove h v x f.1 p);
        }

    -- With callbacks that keep their contract, `hash_delete` on a valid table returns an element
    -- equal to E and takes it out, and it alone, or there is none and nothing changes; the table
    -- stays valid.
    pub hash_delete_lem :
        IsDeleted hash less h e
          (hash_delete hash less room h e).0
          (hash_delete hash less room h e).1
    unfolding hash_delete
    hash_delete_lem = delete_at (find_elem less (find_bucket hash h e) e) search

    replace_at :
        (old : Option ℕ)
        → IsFound less h e old
        → IsReplaced hash less h e old (
            rehash hash room
              (insert_elem (remove_old hash less h old) (bucket_idx hash h.bucket_cnt e) e))
    replace_at none f =
        let r =
          rehash_lem hash less (insert_elem h (place h v e) e) (insert-IsValid h v e f) room in
        record {
          valid = r.valid;
          result = f;
          contents = λ p. omega (arith, r.same p, items-insert h v e p);
        }
    replace_at (some x) f =
        let w = remove-IsValid h v x f.1 in
        let s : one_if (alike less e) x ≡ 1 = rw f.0 refl in
        let z : items (remove_elem h x) (alike less e) ≡ 0 =
          omega (arith, items-remove h v x f.1 (alike less e), v.single e, s) in
        let r =
          rehash_lem hash less (insert_elem (remove_elem h x) (place h v e) e)
            (insert-IsValid (remove_elem h x) w e z) room in
        record {
          valid = r.valid;
          result = f;
          contents = λ p.
              omega
                (arith, r.same p, items-insert (remove_elem h x) w e p, items-remove h v x f.1 p);
        }

    -- With callbacks that keep their contract, `hash_replace` on a valid table puts NEW in the
    -- place of the element equal to it, which it returns, or adds NEW if there is none; nothing
    -- else changes, and the table stays valid.
    pub hash_replace_lem :
        IsReplaced hash less h e
          (hash_replace hash less room h e).0
          (hash_replace hash less room h e).1
    unfolding hash_replace
    hash_replace_lem = replace_at (find_elem less (find_bucket hash h e) e) search

-- `hash_init` makes a valid table without elements, if malloc gives the block, whatever stands in it.
pub hash_init_lem :
    (hash : ℕ → ℕ) (less : ℕ → ℕ → Bool) (garbage : ℕ → List ℕ)
    → ((hash_init true garbage).0 ≡ true)
      × IsValid hash less (hash_init true garbage).1
      × ((p : ℕ → Bool) → items (hash_init true garbage).1 p ≡ 0)
unfolding hash_init hash_clear
hash_init_lem hash less garbage = (
  refl,
  record {
    some_buckets = omega arith;
    placed = λ i l. ground arith;
    single = λ e. omega arith;
    counted = refl;
  },
  λ p. refl,
)

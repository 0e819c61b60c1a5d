-- ===== src/Hash/Rehash.antt =====
-- `rehash` of lib/kernel/hash.c.
use pintos_vm.Base.{
  ℕ, zero, suc, ◌+◌, ◌≤◌, ◌<◌, ◌≡◌, refl, subst, Bool, true, false, List, [], ◌∷◌, ◌==◌, arith,
  if◌then◌else◌, tally, All, Bool-cases, inl, inr, ap,
}
use pintos_vm.Hash.{Hash, push, bucket_idx, move_bucket, move_from, new_bucket_cnt, rehash, alike}
use pintos_vm.Hash.Index.{bucket_idx-lt, new_bucket_cnt_lem}
use pintos_vm.Hash.Total.{total, total-push, total-empty}

-- How many elements of a table pass a test.
abbrev pub items : Hash → (ℕ → Bool) → ℕ
items h p = total p h.buckets h.bucket_cnt

-- Each element stands in the bucket that its hash value names.
abbrev pub ArePlaced : (ℕ → ℕ) → ℕ → (ℕ → List ℕ) → Type 0
ArePlaced hash cnt b = (i : ℕ) → i < cnt → All (λ x. bucket_idx hash cnt x ≡ i) (b i)

-- A table has buckets, each element stands where it is looked for, no two elements are equal, and
-- `elem_cnt` is their number.
pub record IsValid (hash : ℕ → ℕ) (less : ℕ → ℕ → Bool) (h : Hash) : Type 0 where
  pub some_buckets : 1 ≤ h.bucket_cnt
  pub placed : ArePlaced hash h.bucket_cnt h.buckets
  pub single : (e : ℕ) → items h (alike less e) ≤ 1
  pub counted : h.elem_cnt ≡ items h (λ x. true)

-- The elements of the buckets from `i` on, `n` of them.
total_from : (ℕ → Bool) → (ℕ → List ℕ) → ℕ → ℕ → ℕ
total_from p b i zero = 0
total_from p b i (suc n) = tally p (b i) + total_from p b (suc i) n

total_from-sum :
    (p : ℕ → Bool) (b : ℕ → List ℕ) (i n : ℕ) → total p b i + total_from p b i n ≡ total p b (i + n)
unfolding total_from
total_from-sum p b i zero = rw (let e : i + 0 ≡ i = omega arith in e) (omega arith)
total_from-sum p b i (suc n) =
    rw (let e : i + suc n ≡ suc i + n = omega arith in e)
      (omega (arith, total_from-sum p b (suc i) n))

total_from-all : (p : ℕ → Bool) (b : ℕ → List ℕ) (n : ℕ) → total_from p b 0 n ≡ total p b n
total_from-all p b n =
    let e : 0 + n ≡ n = omega arith in
    let q : total p b (0 + n) ≡ total p b n = ap (total p b) e in
    omega (arith, total_from-sum p b 0 n, q)

module _ (hash : ℕ → ℕ) (cnt : ℕ) (pos : 1 ≤ cnt) where
  total-move_bucket :
      (p : ℕ → Bool) (es : List ℕ) (to : ℕ → List ℕ)
      → total p (move_bucket hash cnt es to) cnt ≡ total p to cnt + tally p es
  unfolding move_bucket
  total-move_bucket p [] to = omega arith
  total-move_bucket p (e ∷ es) to = ground (
    arith,
    total-move_bucket p es (push (bucket_idx hash cnt e) e to),
    total-push p to cnt (bucket_idx hash cnt e) e,
    bucket_idx-lt hash cnt e pos,
  )

  total-move_from :
      (p : ℕ → Bool) (old : ℕ → List ℕ) (i n : ℕ) (to : ℕ → List ℕ)
      → total p (move_from hash cnt old i n to) cnt ≡ total p to cnt + total_from p old i n
  unfolding move_from total_from
  total-move_from p old i zero to = omega arith
  total-move_from p old i (suc n) to = omega (
    arith,
    total-move_from p old (suc i) n (move_bucket hash cnt (old i) to),
    total-move_bucket p (old i) to,
  )

  pub push-ArePlaced :
      (e : ℕ) (b : ℕ → List ℕ)
      → ArePlaced hash cnt b
      → ArePlaced hash cnt (push (bucket_idx hash cnt e) e b)
  push-ArePlaced e b a i l = elim (Bool-cases (bucket_idx hash cnt e == i)) [
    | inl t ↦
        let q : bucket_idx hash cnt e ≡ i = ground arith in
        rw t (
          q,
          subst (λ j. All (λ x. bucket_idx hash cnt x ≡ j) (b (bucket_idx hash cnt e))) q
              (a (bucket_idx hash cnt e) (bucket_idx-lt hash cnt e pos)),
        )
    | inr f ↦ rw f (a i l)
  ]

  move_bucket-ArePlaced :
      (es : List ℕ) (to : ℕ → List ℕ)
      → ArePlaced hash cnt to
      → ArePlaced hash cnt (move_bucket hash cnt es to)
  unfolding move_bucket
  move_bucket-ArePlaced [] to a = a
  move_bucket-ArePlaced (e ∷ es) to a = move_bucket-ArePlaced es _ (push-ArePlaced e to a)

  move_from-ArePlaced :
      (old : ℕ → List ℕ) (i n : ℕ) (to : ℕ → List ℕ)
      → ArePlaced hash cnt to
      → ArePlaced hash cnt (move_from hash cnt old i n to)
  unfolding move_from
  move_from-ArePlaced old i zero to a = a
  move_from-ArePlaced old i (suc n) to a =
      move_from-ArePlaced old (suc i) n _ (move_bucket-ArePlaced (old i) to a)

-- The same elements, in a valid table.
pub record IsRehashed (hash : ℕ → ℕ) (less : ℕ → ℕ → Bool) (h h' : Hash) : Type 0 where
  pub valid : IsValid hash less h'
  pub same : (p : ℕ → Bool) → items h' p ≡ items h p

module _ (hash : ℕ → ℕ) (less : ℕ → ℕ → Bool) (h : Hash) (v : IsValid hash less h) where
  abbrev moved : Hash
  moved =
      let cnt = new_bucket_cnt h.elem_cnt in
      record h { bucket_cnt = cnt; buckets = move_from hash cnt h.buckets 0 h.bucket_cnt (λ i. []) }

  items-moved : (p : ℕ → Bool) → items moved p ≡ items h p
  items-moved p =
      let cnt = new_bucket_cnt h.elem_cnt in
      let e : items moved p ≡ total p (λ i. []) cnt + total_from p h.buckets 0 h.bucket_cnt =
        total-move_from hash cnt (new_bucket_cnt_lem h.elem_cnt).positive p h.buckets 0 h.bucket_cnt
          (λ i. []) in
      omega (arith, e, total-empty p cnt, total_from-all p h.buckets h.bucket_cnt)

  moved-IsRehashed : IsRehashed hash less h moved
  moved-IsRehashed = record {
    valid = record {
      some_buckets = (new_bucket_cnt_lem h.elem_cnt).positive;
      placed =
          move_from-ArePlaced hash _ (new_bucket_cnt_lem h.elem_cnt).positive h.buckets 0
            h.bucket_cnt (λ i. []) (λ i l. tt);
      single = λ e. omega (arith, v.single e, items-moved (alike less e));
      counted = omega (arith, v.counted, items-moved (λ x. true));
    };
    same = items-moved;
  }

  unmoved-IsRehashed : IsRehashed hash less h h
  unmoved-IsRehashed = record { valid = v; same = λ p. refl }

  -- `rehash` of a valid table leaves a valid table with the same elements, whether malloc has room for
  -- the new buckets or not.
  pub rehash_lem : (room : Bool) → IsRehashed hash less h (rehash hash room h)
  unfolding rehash
  rehash_lem room = elim (Bool-cases (new_bucket_cnt h.elem_cnt == h.bucket_cnt)) [
    | inl t ↦ rw t unmoved-IsRehashed
    | inr f ↦ rw f (with_room room)
  ]
    where
      with_room : (room : Bool) → IsRehashed hash less h (if room then moved else h)
      with_room true = moved-IsRehashed
      with_room false = unmoved-IsRehashed

-- ===== src/Hash.antt =====
-- lib/kernel/hash.c: a hash table with chains. An element is its address; `hash` and `less` are the
-- callbacks of the table's owner, over what stands at the addresses. What malloc returns is a Boolean
-- argument `room` of the calls that use it.
pub mod Total
pub mod Index
pub mod Rehash
pub mod Table
pub mod Update
pub mod Iterate
pub mod Members
mod Tests
use pintos_vm.Base.{
  ◌^◌, ◌*◌, ◌%◌, ℕ, zero, suc, ◌+◌, ◌-◌, ◌/◌, Bool, true, false, not, ◌&&◌, Option, none, some,
  List, [], ◌∷◌, ◌==◌, ltb, if◌then◌else◌, update, keep,
}
use Prim.Native.Nat.{bit_and, bit_xor}

-- `struct hash` without its callbacks. The array of buckets is a function; Index shows that no index
-- reaches `bucket_cnt`.
pub record Hash : Type 0 where
  pub elem_cnt : ℕ
  pub bucket_cnt : ℕ
  pub buckets : ℕ → List ℕ

abbrev pub fnv_64_prime : ℕ
fnv_64_prime = 1099511628211

abbrev pub fnv_64_basis : ℕ
fnv_64_basis = 14695981039346656037

abbrev pub min_buckets : ℕ
min_buckets = 4

abbrev pub best_elems_per_bucket : ℕ
best_elems_per_bucket = 2

abbrev pub turn_off_least_1bit : ℕ → ℕ
turn_off_least_1bit x = bit_and x (x - 1)

abbrev pub is_power_of_2 : ℕ → Bool
is_power_of_2 x = not (x == 0) && (turn_off_least_1bit x == 0)

-- The `while` loop of `rehash`. Each round makes the number smaller, so it is fuel enough for itself.
pub shrink : ℕ → ℕ → ℕ
shrink zero n = n
shrink (suc fuel) n =
    let rest = shrink fuel (turn_off_least_1bit n) in if not (is_power_of_2 n) then rest else n

abbrev pub new_bucket_cnt : ℕ → ℕ
new_bucket_cnt elem_cnt =
    let n = elem_cnt / best_elems_per_bucket in
    let m = if ltb n 4 then min_buckets else n in shrink m m

pub hash_size : Hash → ℕ
hash_size h = h.elem_cnt

pub hash_empty : Hash → Bool
hash_empty h = h.elem_cnt == 0

-- Without a destructor.
pub hash_clear : Hash → Hash
hash_clear h = record h {
  elem_cnt = 0;
  buckets = λ i. if ltb i h.bucket_cnt then [] else h.buckets i;
}

-- `garbage` is what stands in the new block; the result says whether there is one.
pub hash_init : Bool → (ℕ → List ℕ) → Bool × Hash
unfolding hash_clear
hash_init room garbage =
    let h : Hash = record { elem_cnt = 0; bucket_cnt = min_buckets; buckets = garbage } in
    if room then (true, hash_clear h) else (false, h)

-- `list_push_front` on the bucket at an index.
abbrev pub push : ℕ → ℕ → (ℕ → List ℕ) → ℕ → List ℕ
push i e buckets = update buckets i (e ∷ buckets i)

abbrev pub insert_elem : Hash → ℕ → ℕ → Hash
insert_elem h i e = record h { elem_cnt = h.elem_cnt + 1; buckets = push i e h.buckets }

-- `list_remove` unlinks the element from the list that it is in.
abbrev pub remove_elem : Hash → ℕ → Hash
remove_elem h e = record h {
  elem_cnt = h.elem_cnt - 1;
  buckets = λ i. keep (λ x. not (x == e)) (h.buckets i);
}

module _ (less : ℕ → ℕ → Bool) where
  abbrev pub alike : ℕ → ℕ → Bool
  alike e x = not (less x e) && not (less e x)

  -- The first element of a bucket that is equal to `e`.
  pub find_elem : List ℕ → ℕ → Option ℕ
  find_elem [] e = none
  find_elem (hi ∷ rest) e = let later = find_elem rest e in if alike e hi then some hi else later

module _ (hash : ℕ → ℕ) where
  abbrev pub bucket_idx : ℕ → ℕ → ℕ
  bucket_idx bucket_cnt e = bit_and (hash e) (bucket_cnt - 1)

  abbrev pub find_bucket : Hash → ℕ → List ℕ
  find_bucket h e = h.buckets (bucket_idx h.bucket_cnt e)

  -- The inner `for` loop of `rehash` over one old bucket, into `cnt` new buckets.
  pub move_bucket : ℕ → List ℕ → (ℕ → List ℕ) → ℕ → List ℕ
  move_bucket cnt [] to = to
  move_bucket cnt (e ∷ es) to = move_bucket cnt es (push (bucket_idx cnt e) e to)

  -- The outer loop, from bucket `i` on, with `n` rounds left.
  pub move_from : ℕ → (ℕ → List ℕ) → ℕ → ℕ → (ℕ → List ℕ) → ℕ → List ℕ
  unfolding move_bucket
  move_from cnt old i zero to = to
  move_from cnt old i (suc n) to = move_from cnt old (suc i) n (move_bucket cnt (old i) to)

  pub rehash : Bool → Hash → Hash
  unfolding shrink move_from
  rehash room h =
      let cnt = new_bucket_cnt h.elem_cnt in
      if cnt == h.bucket_cnt
      then h
      else (if room
          then record h {
            bucket_cnt = cnt;
            buckets = move_from cnt h.buckets 0 h.bucket_cnt (λ i. []);
          }
          else h)

module _ (hash : ℕ → ℕ) (less : ℕ → ℕ → Bool) where
  pub hash_find : Hash → ℕ → Option ℕ
  unfolding find_elem
  hash_find h e = find_elem less (find_bucket hash h e) e

  -- `hash_insert` after the search.
  abbrev pub insert_new : Hash → ℕ → Option ℕ → Hash
  insert_new h new none = insert_elem h (bucket_idx hash h.bucket_cnt new) new
  insert_new h new (some old) = h

  pub hash_insert : Bool → Hash → ℕ → Option ℕ × Hash
  unfolding find_elem rehash
  hash_insert room h new =
      let old = find_elem less (find_bucket hash h new) new in
      (old, rehash hash room (insert_new h new old))

  abbrev pub remove_old : Hash → Option ℕ → Hash
  remove_old h none = h
  remove_old h (some old) = remove_elem h old

  pub hash_replace : Bool → Hash → ℕ → Option ℕ × Hash
  unfolding find_elem rehash
  hash_replace room h new =
      let old = find_elem less (find_bucket hash h new) new in
      (
        old,
        rehash hash room (insert_elem (remove_old h old) (bucket_idx hash h.bucket_cnt new) new),
      )

  -- `hash_delete` after the search.
  abbrev pub delete_found : Bool → Hash → Option ℕ → Hash
  delete_found room h none = h
  delete_found room h (some found) = rehash hash room (remove_elem h found)

  pub hash_delete : Bool → Hash → ℕ → Option ℕ × Hash
  unfolding find_elem rehash
  hash_delete room h e =
      let found = find_elem less (find_bucket hash h e) e in (found, delete_found room h found)

-- `hash_bytes` from a given hash on: the multiplication is one of 64 bits.
pub hash_bytes : ℕ → List ℕ → ℕ
hash_bytes hash [] = hash
hash_bytes hash (b ∷ bs) = hash_bytes (bit_xor (hash * fnv_64_prime % 2 ^ 64) b) bs

-- A string is the bytes before its terminating zero.
pub hash_string : List ℕ → ℕ
unfolding hash_bytes
hash_string s = hash_bytes fnv_64_basis s

-- The bytes of an `int`, here given as its 32 bits, least byte first.
pub hash_int : ℕ → ℕ
unfolding hash_bytes
hash_int i =
    hash_bytes fnv_64_basis (i % 256 ∷ i / 2 ^ 8 % 256 ∷ i / 2 ^ 16 % 256 ∷ i / 2 ^ 24 % 256 ∷ [])

-- `struct hash_iterator`: the bucket, and what stands in it behind the current element.
pub record HashIterator : Type 0 where
  pub bucket : ℕ
  pub rest : List ℕ

pub hash_first : Hash → HashIterator
hash_first h = record { bucket = 0; rest = h.buckets 0 }

-- The `while` loop of `hash_next` that looks for a bucket with elements, with `n` rounds left.
pub next_bucket : Hash → ℕ → ℕ → Option (ℕ × HashIterator)
next_bucket h zero bucket = none
next_bucket h (suc n) bucket =
    let later = next_bucket h n (bucket + 1) in
    elim (h.buckets (bucket + 1)) [
      | [] ↦ later
      | e ∷ es ↦ some (e, record { bucket = bucket + 1; rest = es })
    ]

-- The next element with the iterator that stands on it, or none at the end.
pub hash_next : Hash → HashIterator → Option (ℕ × HashIterator)
unfolding next_bucket
hash_next h i = elim i.rest [
  | [] ↦ next_bucket h (h.bucket_cnt - i.bucket - 1) i.bucket
  | e ∷ es ↦ some (e, record i { rest = es })
]

-- ===== src/Hash/Tests.antt =====
-- Runs of lib/kernel/hash.c: elements are numbers that are equal modulo 100, and hash to themselves.
use pintos_vm.Base.{
  ℕ, ◌%◌, ◌≡◌, refl, Bool, true, false, some, List, [], ◌∷◌, ltb, arith, ◌==◌, if◌then◌else◌,
}
use pintos_vm.Hash.{hash_first, Hash, hash_find, hash_insert, hash_delete, find_elem}
use pintos_vm.Hash.Rehash.{IsValid}
use pintos_vm.Hash.Table.{AreCallbacks}
use pintos_vm.Hash.Update.{IsInserted, IsDeleted, hash_insert_lem, hash_delete_lem}
use pintos_vm.Hash.Iterate.{hash_first_lem, visited}

abbrev key : ℕ → ℕ
key x = x % 100

abbrev less : ℕ → ℕ → Bool
less a b = ltb (key a) (key b)

callbacks : AreCallbacks key less
callbacks = record {
  order = record { asym = λ a b h. ground arith; trans = λ a b c h k. ground arith };
  agree = λ a b h. ground arith;
}

abbrev table : Hash
table = record { elem_cnt = 2; bucket_cnt = 4; buckets = buckets }
  where
    buckets : ℕ → List ℕ
    buckets i = if i == 1 then 105 ∷ [] else (if i == 3 then 7 ∷ [] else [])

found-table : hash_find key less table 5 ≡ some 105
unfolding hash_find find_elem
found-table = refl

table-IsValid : IsValid key less table
table-IsValid = record {
  some_buckets = omega arith;
  placed = λ i l. ground arith;
  single = λ e. ground arith;
  counted = refl;
}

hash_insert_lem_example :
    IsInserted key less table 8
      (hash_insert key less true table 8).0
      (hash_insert key less true table 8).1
hash_insert_lem_example = hash_insert_lem key less callbacks true table table-IsValid 8

hash_delete_lem_example :
    IsDeleted key less table 7
      (hash_delete key less false table 7).0
      (hash_delete key less false table 7).1
hash_delete_lem_example = hash_delete_lem key less callbacks false table table-IsValid 7

hash_first_lem_example : visited table 3 (hash_first table) ≡ 105 ∷ 7 ∷ []
hash_first_lem_example = hash_first_lem table (omega arith) 3 (omega arith)

-- ===== src/Hash/Index.antt =====
-- The number of buckets of lib/kernel/hash.c, and the index of an element's bucket.
use pintos_vm.Base.{
  ℕ, zero, suc, ◌-◌, ◌*◌, ◌/◌, ◌%◌, ◌≤◌, ◌<◌, ◌≡◌, sym, subst, true, arith, if◌then◌else◌, ltb, min,
  Bool-cases, ◌⊎◌, inl, inr,
}
use Prim.Native.Nat.{bit_and, bit_and-bitwise, digits}
use pintos_vm.Hash.{turn_off_least_1bit, is_power_of_2, shrink, new_bucket_cnt, bucket_idx}

min-le : (a b : ℕ) → min a b ≤ b
min-le a b = ground arith

digits-le : (n a b : ℕ) → digits (λ b. zero) min n a b ≤ b
digits-le zero a b = omega arith
digits-le (suc n) zero b = omega arith
digits-le (suc n) (suc a) b =
    omega (arith, digits-le n (suc a / 2) (b / 2), min-le (suc a % 2) (b % 2))

pub bit_and-le : (a b : ℕ) → bit_and a b ≤ b
bit_and-le a b = subst (λ x. x ≤ b) (sym (bit_and-bitwise a b)) (digits-le a a b)

-- The index of a bucket is in range.
pub bucket_idx-lt : (hash : ℕ → ℕ) (cnt e : ℕ) → 1 ≤ cnt → bucket_idx hash cnt e < cnt
bucket_idx-lt hash cnt e h = omega (arith, bit_and-le (hash e) (cnt - 1))

shrink-power :
    (fuel n : ℕ) → 1 ≤ n → n ≤ fuel → (is_power_of_2 (shrink fuel n) ≡ true) × (shrink fuel n ≤ n)
unfolding shrink
shrink-power zero n h k = absurd (omega arith)
shrink-power (suc fuel) n h k = elim (Bool-cases (is_power_of_2 n)) [
  | inl t ↦ rw t (t, omega arith)
  | inr f ↦
      let b = bit_and-le n (n - 1) in
      let (p, q) = shrink-power fuel (turn_off_least_1bit n) (ground (arith, f)) (omega arith) in
      rw f (p, omega arith)
]

-- A number of buckets for `n` elements.
pub record IsBucketCnt (n : ℕ) : Type 0 where
  pub power : is_power_of_2 (new_bucket_cnt n) ≡ true
  pub positive : 1 ≤ new_bucket_cnt n
  pub bounded : (new_bucket_cnt n ≤ 4) ⊎ (new_bucket_cnt n * 2 ≤ n)

-- Whatever the number of elements, the loop that chooses the number of buckets ends at a power of 2,
-- which is at most half that number, or 4 if that is more.
pub new_bucket_cnt_lem : (n : ℕ) → IsBucketCnt n
unfolding shrink
new_bucket_cnt_lem n =
    let m = if ltb (n / 2) 4 then 4 else n / 2 in
    let (p, q) = shrink-power m m (ground arith) (omega arith) in
    record { power = p; positive = ground arith; bounded = ground (arith, q) }

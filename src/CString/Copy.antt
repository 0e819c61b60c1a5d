-- ===== src/CString/Copy.antt =====
-- What the copies of lib/string.c leave in memory.
use pintos_vm.Base.{
  ap, ℕ, zero, suc, ◌+◌, ◌-◌, ◌≤◌, ◌≡◌, refl, ◌⊎◌, inl, inr, true, false, ◌&&◌, arith, ◌==◌, ltb,
  leb, if◌then◌else◌, update, Bool-cases,
}
use pintos_vm.CString.{Bytes, copy_up, copy_down, memmove}

-- The block of `size` bytes at `dst` holds what the block at `src` held, and the rest is unchanged.
abbrev pub IsCopied : ℕ → ℕ → ℕ → Bytes → Bytes → Type 0
IsCopied dst src size m m' =
    (a : ℕ) → m' a ≡ (if leb dst a && ltb a (dst + size) then m (src + (a - dst)) else m a)

pub copy_up_lem :
    (n dst src : ℕ) (m : Bytes)
    → (dst ≤ src) ⊎ (src + n ≤ dst)
    → IsCopied dst src n m (copy_up n dst src m)
unfolding copy_up
copy_up_lem zero dst src m apart = λ a. ground arith
copy_up_lem (suc n) dst src m apart = λ a. elim (Bool-cases (dst == a)) [
  | inl t ↦
      let e : src ≡ src + (a - dst) = ground arith in
      let r = ap m e in
      ground (arith, copy_up_lem n (dst + 1) (src + 1) (update m dst (m src)) later a)
  | inr ne ↦ elim (Bool-cases (leb (dst + 1) a && ltb a (dst + 1 + n))) [
    | inl t ↦
        let e : src + 1 + (a - (dst + 1)) ≡ src + (a - dst) = ground arith in
        let r = ap m e in
        let o : (dst == src + 1 + (a - (dst + 1))) ≡ false = away apart a ne t in
        ground (arith, copy_up_lem n (dst + 1) (src + 1) (update m dst (m src)) later a)
    | inr f ↦ ground (arith, copy_up_lem n (dst + 1) (src + 1) (update m dst (m src)) later a)
  ]
]
  where
    later : (dst + 1 ≤ src + 1) ⊎ (src + 1 + n ≤ dst + 1)
    later = shifted apart
      where
        shifted : (dst ≤ src) ⊎ (src + suc n ≤ dst) → (dst + 1 ≤ src + 1) ⊎ (src + 1 + n ≤ dst + 1)
        shifted (inl h) = inl (omega arith)
        shifted (inr h) = inr (omega arith)

    away :
        (dst ≤ src) ⊎ (src + suc n ≤ dst)
        → (a : ℕ) → (dst == a) ≡ false
        → (leb (dst + 1) a && ltb a (dst + 1 + n)) ≡ true
        → (dst == src + 1 + (a - (dst + 1))) ≡ false
    away (inl h) a ne t = ground arith
    away (inr h) a ne t = ground arith

pub copy_down_lem :
    (n dst src : ℕ) (m : Bytes) → src ≤ dst → IsCopied dst src n m (copy_down n dst src m)
unfolding copy_down
copy_down_lem zero dst src m h = λ a. ground arith
copy_down_lem (suc n) dst src m h = λ a. elim (Bool-cases (leb dst a && ltb a (dst + n))) [
  | inl t ↦
      let o : (dst + n == src + (a - dst)) ≡ false = ground arith in
      ground (arith, copy_down_lem n dst src (update m (dst + n) (m (src + n))) h a)
  | inr f ↦ elim (Bool-cases (dst + n == a)) [
    | inl u ↦
        let e : src + n ≡ src + (a - dst) = ground arith in
        let r = ap m e in
        ground (arith, copy_down_lem n dst src (update m (dst + n) (m (src + n))) h a)
    | inr ne ↦ ground (arith, copy_down_lem n dst src (update m (dst + n) (m (src + n))) h a)
  ]
]

-- Whether the blocks overlap or not, `memmove` leaves in the block at DST what the block at SRC held, and
-- changes nothing else. It returns DST if DST is not below SRC, and the end of the block otherwise.
pub memmove_lem :
    (dst src size : ℕ) (m : Bytes)
    → let r = memmove dst src size m in
      IsCopied dst src size m r.1 × (r.0 ≡ (if ltb dst src then dst + size else dst))
unfolding memmove
memmove_lem dst src size m = elim (Bool-cases (ltb dst src)) [
  | inl t ↦ rw t (copy_up_lem size dst src m (inl (ground arith)), refl)
  | inr f ↦ rw f (copy_down_lem size dst src m (ground arith), refl)
]

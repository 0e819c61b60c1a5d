-- ===== src/CString/Bounded.antt =====
-- `strlcpy` and `strlcat` of lib/string.c stay in the size that they are given.
use pintos_vm.Base.{
  ap, subst, ◌&&◌, ℕ, zero, suc, ◌+◌, ◌-◌, ◌≤◌, ◌<◌, ◌≡◌, refl, ◌⊎◌, inl, inr, true, false, some,
  arith, ◌==◌, ltb, leb, if◌then◌else◌, update, Bool-cases, Returns,
}
use pintos_vm.CString.{Bytes, strlen, strlcpy, copy_up}
use pintos_vm.CString.Copy.{copy_up_lem, IsCopied}

-- A string of `n` characters stands at `s`.
pub record IsString (m : Bytes) (s n : ℕ) : Type 0 where
  pub characters : (i : ℕ) → i < n → (m (s + i) == 0) ≡ false
  pub terminator : m (s + n) ≡ 0

tail-IsString : (m : Bytes) (s n : ℕ) → IsString m s (suc n) → IsString m (s + 1) n
tail-IsString m s n h = record {
  characters = λ i l.
      let e : s + suc i ≡ s + 1 + i = omega arith in
      subst (λ a. (m a == 0) ≡ false) e (h.characters (suc i) (omega arith));
  terminator = let e : s + suc n ≡ s + 1 + n = omega arith in subst (λ a. m a ≡ 0) e h.terminator;
}

pub strlen_lem : (fuel s n : ℕ) (m : Bytes) → IsString m s n → n < fuel → strlen fuel s m ≡ some n
unfolding strlen
strlen_lem zero s n m h l = absurd (omega arith)
strlen_lem (suc fuel) s zero m h l =
    let e : s + 0 ≡ s = omega arith in
    let z : m s ≡ 0 = subst (λ a. m a ≡ 0) e h.terminator in
    let t : (m s == 0) ≡ true = ground arith in rw t refl
strlen_lem (suc fuel) s (suc n) m h l =
    let e : s + 0 ≡ s = omega arith in
    let f : (m s == 0) ≡ false = subst (λ a. (m a == 0) ≡ false) e (h.characters 0 (omega arith)) in
    rw (f, strlen_lem fuel (s + 1) n m (tail-IsString m s n h) (omega arith)) refl

-- What a bounded copy to `dst` leaves: outside the `size` bytes nothing changes, and if there are any, a
-- string stands there whose characters from `from` on are the first `cnt` ones at `src`.
pub record IsBounded (m : Bytes) (dst size from cnt src : ℕ) (m' : Bytes) : Type 0 where
  pub outside : (a : ℕ) → (leb dst a && ltb a (dst + size)) ≡ false → m' a ≡ m a
  pub string : IsString m' dst (from + cnt)
  pub before : (i : ℕ) → i < from → m' (dst + i) ≡ m (dst + i)
  pub copied : (i : ℕ) → i < cnt → m' (dst + from + i) ≡ m (src + i)

-- Appending `cnt` characters of one string to another, within the size.
module _ (m : Bytes) (dst src n from cnt size : ℕ) (s : IsString m src n)
    (d : (i : ℕ) → i < from → (m (dst + i) == 0) ≡ false) (fits : from + cnt < size)
    (enough : cnt ≤ n) (apart : (dst + size ≤ src) ⊎ (src + n + 1 ≤ dst)) where
  abbrev m' : Bytes
  m' = update (copy_up cnt (dst + from) src m) (dst + from + cnt) 0

  no_overlap : (dst + from ≤ src) ⊎ (src + cnt ≤ dst + from)
  no_overlap = shifted apart
    where
      shifted :
          (dst + size ≤ src) ⊎ (src + n + 1 ≤ dst) → (dst + from ≤ src) ⊎ (src + cnt ≤ dst + from)
      shifted (inl h) = inl (omega arith)
      shifted (inr h) = inr (omega arith)

  copied : IsCopied (dst + from) src cnt m (copy_up cnt (dst + from) src m)
  copied = copy_up_lem cnt (dst + from) src m no_overlap

  at : (i : ℕ) → i < cnt → m' (dst + from + i) ≡ m (src + i)
  at i l =
      let e : src + (dst + from + i - (dst + from)) ≡ src + i = omega arith in
      let r = ap m e in ground (arith, copied (dst + from + i))

  IsBounded-appended : IsBounded m dst size from cnt src m'
  IsBounded-appended = record {
    outside = λ a h. ground (arith, copied a);
    string = record {
      characters = λ i l. elim (Bool-cases (ltb i from)) [
        | inl t ↦
            let c = d i (ground arith) in
            let u : m' (dst + i) ≡ m (dst + i) = ground (arith, copied (dst + i)) in rw u c
        | inr f ↦
            let e : dst + from + (i - from) ≡ dst + i = ground arith in
            let c = s.characters (i - from) (ground arith) in
            let u : m' (dst + i) ≡ m (src + (i - from)) =
              subst (λ a. m' a ≡ m (src + (i - from))) e (at (i - from) (ground arith)) in
            rw u c
      ];
      terminator = ground arith;
    };
    before = λ i l. ground (arith, copied (dst + i));
    copied = at;
  }

-- The lesser of the characters of a string and the room for them.
abbrev pub cut : ℕ → ℕ → ℕ
cut n room = if ltb n room then n else room

-- What `strlcpy` and `strlcat` return: the length that the whole string has, and the memory, in which
-- nothing changes if there is no room for a terminator.
abbrev pub IsCut : Bytes → ℕ → ℕ → ℕ → ℕ → ℕ → ℕ × Bytes → Type 0
IsCut m dst size from n src (len, m') =
    (len ≡ n + from)
    × (from < size → IsBounded m dst size from (cut n (size - from - 1)) src m')
    × (size ≤ from → m' ≡ m)

-- For a source string that does not overlap the SIZE bytes at DST, `strlcpy` writes no byte outside them,
-- and returns the length of the source; if SIZE is not zero, a terminated string stands at DST then, with as
-- many of the source's characters as fit, and if it is zero nothing changes.
pub strlcpy_lem :
    (fuel dst src n size : ℕ) (m : Bytes)
    → IsString m src n
    → n < fuel
    → (dst + size ≤ src) ⊎ (src + n + 1 ≤ dst)
    → Returns (IsCut m dst size 0 n src) (strlcpy fuel dst src size m)
unfolding strlcpy
strlcpy_lem fuel dst src n size m s l apart = rw (strlen_lem fuel src n m s l) (
  omega arith,
  λ h.
      let t : ltb 0 size ≡ true = ground arith in
      let e : size - 0 - 1 ≡ size - 1 = omega arith in
      let e' : dst + 0 ≡ dst = omega arith in
      rw (t, e)
        (subst
          (λ a.
            IsBounded m dst size 0 (cut n (size - 1)) src
              (update (copy_up (cut n (size - 1)) a src m) (a + cut n (size - 1)) 0))
          e'
          (IsBounded-appended m dst src n 0 (cut n (size - 1)) size s (λ i k. absurd (omega arith))
            (ground arith) (ground arith) apart)),
  λ h. let f : ltb 0 size ≡ false = ground arith in rw f refl,
)

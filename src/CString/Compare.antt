-- ===== src/CString/Compare.antt =====
-- `memcmp` and `strstr` of lib/string.c against what they are to find.
use pintos_vm.Base.{
  sym, subst, ◌∙◌, ap, ℕ, zero, suc, ◌+◌, ◌-◌, ◌<◌, ◌≡◌, refl, ◌⊎◌, inl, inr, Bool, true, false,
  Option, none, some, arith, ◌==◌, ltb, leb, if◌then◌else◌, Bool-cases, Returns,
}
use pintos_vm.Base.Int.{pos, negsuc}
use pintos_vm.CString.{is_zero, Bytes, memcmp, search_from, strstr}
use pintos_vm.CString.Bounded.{IsString, strlen_lem}

module _ (m : Bytes) where
  -- The blocks of `n` bytes are equal.
  abbrev pub AreEqual : ℕ → ℕ → ℕ → Type 0
  AreEqual a b n = (i : ℕ) → i < n → (m (a + i) == m (b + i)) ≡ true

  -- Byte `k` is the first in which they differ.
  abbrev pub IsDifference : ℕ → ℕ → ℕ → ℕ → Type 0
  IsDifference a b n k = (k < n) × ((m (a + k) == m (b + k)) ≡ false) × AreEqual a b k

  -- `memcmp` returns 0 if the blocks are equal; otherwise it returns 1 or -1, and tells by its sign which
  -- of the first two bytes that differ is greater.
  pub memcmp_lem :
      (a b n : ℕ)
      → (AreEqual a b n × (memcmp a b n m ≡ pos 0))
        ⊎ ((k : ℕ) × IsDifference a b n k
            × (memcmp a b n m ≡ (if ltb (m (b + k)) (m (a + k)) then pos 1 else negsuc 0)))
  unfolding memcmp
  memcmp_lem a b zero = inl (λ i l. absurd (omega arith), refl)
  memcmp_lem a b (suc n) = elim (Bool-cases (m a == m b)) [
    | inr ne ↦
        let p : a + 0 ≡ a = omega arith in
        let q : b + 0 ≡ b = omega arith in
        rw ne (inr (0, (omega arith, rw (p, q) ne, λ i l. absurd (omega arith)), rw (p, q) refl))
    | inl t ↦ rw t (elim (memcmp_lem (a + 1) (b + 1) n) [
      | inl (eq, e) ↦ inl (extend n t eq, e)
      | inr (k, (l, ne, eq), e) ↦
          let p : a + suc k ≡ a + 1 + k = omega arith in
          let q : b + suc k ≡ b + 1 + k = omega arith in
          inr (suc k, (omega arith, rw (p, q) ne, extend k t eq), rw (p, q) e)
    ])
  ]
    where
      extend : (n : ℕ) → (m a == m b) ≡ true → AreEqual (a + 1) (b + 1) n → AreEqual a b (suc n)
      extend n t eq zero l =
          let p : a + 0 ≡ a = omega arith in let q : b + 0 ≡ b = omega arith in rw (p, q) t
      extend n t eq (suc i) l =
          let p : a + suc i ≡ a + 1 + i = omega arith in
          let q : b + suc i ≡ b + 1 + i = omega arith in rw (p, q) (eq i (omega arith))

  module _ (needle len : ℕ) where
    -- The needle does not stand at `h`.
    abbrev pub IsElsewhere : ℕ → Type 0
    IsElsewhere h = (k : ℕ) × IsDifference h needle len k

    -- The first of `n` positions from `h` on where the needle stands, or it stands at none.
    abbrev pub IsOccurrence : ℕ → ℕ → Option ℕ → Type 0
    IsOccurrence h n none = (i : ℕ) → i < n → IsElsewhere (h + i)
    IsOccurrence h n (some p) =
        (j : ℕ) × (j < n)
        × (p ≡ h + j)
        × AreEqual p needle len
        × ((i : ℕ) → i < j → IsElsewhere (h + i))

    search_from_lem : (n h : ℕ) → IsOccurrence h n (search_from n h needle len m)
    unfolding search_from
    search_from_lem zero h = λ i l. absurd (omega arith)
    search_from_lem (suc n) h = elim (memcmp_lem h needle len) [
      | inl (eq, e) ↦
          let z : is_zero (memcmp h needle len m) ≡ true = ap is_zero e in
          rw (z, IsOccurrence)
            (0, omega arith, let p : h ≡ h + 0 = omega arith in p, eq, λ i l. absurd (omega arith))
      | inr (k, d, e) ↦
          let z : is_zero (memcmp h needle len m) ≡ false =
            ap is_zero e ∙ nonzero (ltb (m (needle + k)) (m (h + k))) in
          subst (IsOccurrence h (suc n)) (sym (rw z refl))
            (later (search_from n (h + 1) needle len m) (search_from_lem n (h + 1)) k d)
    ]
      where
        nonzero : (b : Bool) → is_zero (if b then pos 1 else negsuc 0) ≡ false
        nonzero true = refl
        nonzero false = refl

        step :
            (j k : ℕ)
            → IsDifference h needle len k
            → ((i : ℕ) → i < j → IsElsewhere (h + 1 + i))
            → (i : ℕ) → i < suc j
            → IsElsewhere (h + i)
        step j k d all zero l = let p : h + 0 ≡ h = omega arith in rw p (k, d)
        step j k d all (suc i) l =
            let p : h + suc i ≡ h + 1 + i = omega arith in rw p (all i (omega arith))

        later :
            (r : Option ℕ)
            → IsOccurrence (h + 1) n r
            → (k : ℕ) → IsDifference h needle len k
            → IsOccurrence h (suc n) r
        later none o k d = step n k d o
        later (some p) (j, l, e, eq, all) k d =
            (suc j, omega arith, omega arith, eq, step j k d all)

-- For strings of `n` and `len` characters, `strstr` returns the first position in the first string at which
-- the second one stands, or a null pointer if it stands nowhere in it.
pub strstr_lem :
    (fuel haystack needle n len : ℕ) (m : Bytes)
    → IsString m haystack n
    → IsString m needle len
    → n < fuel
    → len < fuel
    → Returns (IsOccurrence m needle len haystack (n + 1 - len)) (strstr fuel haystack needle m)
unfolding strstr search_from
strstr_lem fuel haystack needle n len m s s' l l' =
    rw (strlen_lem fuel haystack n m s l, strlen_lem fuel needle len m s' l')
      (elim (Bool-cases (leb len n)) [
        | inl t ↦
            let e : n - len + 1 ≡ n + 1 - len = ground arith in
            rw (t, e) (search_from_lem m needle len (n + 1 - len) haystack)
        | inr f ↦ rw f (λ i k. absurd (ground arith))
      ])

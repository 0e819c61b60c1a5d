-- ===== src/Sched/Wake.antt =====
-- `thread_awake` of threads/thread.c wakes every thread whose time has come.
use pintos_vm.Base.{
  ℕ, ◌≤◌, ◌≡◌, refl, inl, inr, ◌⊎◌, Bool, true, false, Option, none, some, List, [], ◌∷◌, ◌==◌,
  arith, if◌then◌else◌, count, Returns, Bool-cases, ◌>>=◌, assert,
}
use pintos_vm.Base.Int.{ℤ, leb_ℤ}
use pintos_vm.Sched.{
  ready, Kernel, is_ready, is_blocked, set_status, insert_ready, thread_unblock, awake_from,
  thread_awake,
}
use pintos_vm.Sched.Invariant.{IsValid}
use pintos_vm.Sched.Sleep.{awake-IsValid}

-- A thread that is ready, or stands in the list and is due at TICKS.
abbrev pub IsDue : ℤ → List ℕ → Kernel → ℕ → Type 0
IsDue ticks ts k t =
    (is_ready (k.threads t).status ≡ true)
    ⊎ ((1 ≤ count t ts) × (leb_ℤ (k.threads t).awake ticks ≡ true))

abbrev Wakes : ℤ → List ℕ → Kernel → Kernel → Type 0
Wakes ticks ts k k' = (t : ℕ) → IsDue ticks ts k t → is_ready (k'.threads t).status ≡ true

-- Where a call returns at all.
abbrev Always {ℓ} : {A : Type ℓ} → (A → Type 0) → Option A → Type 0
Always P none = Unit
Always P (some a) = P a

Always-bind {ℓ κ} :
    {A : Type ℓ} {B : Type κ} (P : A → Type 0) (Q : B → Type 0) (m : Option A) (f : A → Option B)
    → Always P m
    → ((a : A) → P a → Always Q (f a))
    → Always Q (m >>= f)
Always-bind P Q none f h k = tt
Always-bind P Q (some a) f h k = k a h

Always-if {ℓ} :
    {B : Type ℓ} (P : B → Type 0) (b : Bool) (m n : Option B)
    → (b ≡ true → Always P m)
    → (b ≡ false → Always P n)
    → Always P (if b then m else n)
Always-if P true m n h k = h refl
Always-if P false m n h k = k refl

both {ℓ} :
    {A : Type ℓ} (P Q : A → Type 0) (m : Option A)
    → Returns P m
    → Always Q m
    → Returns (λ a. P a × Q a) m
both P Q none h k = absurd h
both P Q (some a) h k = (h, k)

Always-assert {ℓ} :
    {B : Type ℓ} (P : B → Type 0) (b : Bool) (x : B) → P x → Always P (assert b >>= λ _. some x)
Always-assert P true x h = h
Always-assert P false x h = tt

Always-mono {ℓ} :
    {A : Type ℓ} (P Q : A → Type 0) (m : Option A) → Always P m → ((a : A) → P a → Q a) → Always Q m
Always-mono P Q none h k = tt
Always-mono P Q (some a) h k = k a h

-- The thread that is unblocked is ready, and the others are as they were.
step :
    (ticks : ℤ) (t : ℕ) (ts : List ℕ) (k : Kernel)
    → Always (λ k'. (u : ℕ) → IsDue ticks (t ∷ ts) k u → IsDue ticks ts k' u) (thread_unblock t k)
unfolding thread_unblock
step ticks t ts k = Always-assert _ (is_blocked (k.threads t).status) _ λ u d. due u d
  where
    due :
        (u : ℕ)
        → IsDue ticks (t ∷ ts) k u
        → IsDue ticks ts (set_status t ready (insert_ready t k)) u
    due u d = elim (Bool-cases (t == u)) [
      | inl e ↦ inl (ground arith)
      | inr n ↦ elim d [
        | inl r ↦ inl (ground arith)
        | inr (c, a) ↦ inr (ground arith, ground arith)
      ]
    ]

skip :
    (ticks : ℤ) (t : ℕ) (ts : List ℕ) (k : Kernel) (u : ℕ)
    → leb_ℤ (k.threads t).awake ticks ≡ false
    → IsDue ticks (t ∷ ts) k u
    → IsDue ticks ts k u
skip ticks t ts k u n (inl r) = inl r
skip ticks t ts k u n (inr (c, a)) = inr (ground arith, a)

awake_from-Wakes :
    (ticks : ℤ) (ts : List ℕ) (k : Kernel)
    → Always (λ (rest, k'). Wakes ticks ts k k') (awake_from ticks ts k)
unfolding awake_from
awake_from-Wakes ticks [] k = λ t d. elim d [ inl r ↦ r | inr (c, a) ↦ absurd (omega (arith, c)) ]
awake_from-Wakes ticks (t ∷ ts) k =
    Always-if (λ (rest, k'). Wakes ticks (t ∷ ts) k k') (leb_ℤ (k.threads t).awake ticks) _ _
      (λ due.
        Always-bind (λ k₁. (u : ℕ) → IsDue ticks (t ∷ ts) k u → IsDue ticks ts k₁ u)
          (λ (rest, k'). Wakes ticks (t ∷ ts) k k') (thread_unblock t k) (awake_from ticks ts)
          (step ticks t ts k)
          λ k₁ s.
            Always-mono (λ (rest, k'). Wakes ticks ts k₁ k')
              (λ (rest, k'). Wakes ticks (t ∷ ts) k k') (awake_from ticks ts k₁)
              (awake_from-Wakes ticks ts k₁) λ (rest, k') w u d. w u (s u d))
      λ late.
        Always-bind (λ (rest, k'). Wakes ticks ts k k') (λ (rest, k'). Wakes ticks (t ∷ ts) k k')
          (awake_from ticks ts k) _ (awake_from-Wakes ticks ts k)
          λ (rest, k') w u d. w u (skip ticks t ts k u late d)

thread_awake-Wakes :
    (ticks : ℤ) (k : Kernel) → Always (Wakes ticks k.sleep_list k) (thread_awake ticks k)
unfolding thread_awake
thread_awake-Wakes ticks k =
    Always-bind (λ (rest, k'). Wakes ticks k.sleep_list k k') (Wakes ticks k.sleep_list k)
      (awake_from ticks k.sleep_list k) _ (awake_from-Wakes ticks k.sleep_list k) λ (rest, k') w. w

-- On a well-formed kernel `thread_awake` returns, the kernel stays well formed, and every sleeper whose
-- time has come is ready.
pub thread_awake_lem :
    (ticks : ℤ) (k : Kernel)
    → IsValid k
    → Returns
        (λ k'.
          IsValid k'
          × ((t : ℕ) → IsDue ticks k.sleep_list k t → is_ready (k'.threads t).status ≡ true))
        (thread_awake ticks k)
thread_awake_lem ticks k v =
    both IsValid (Wakes ticks k.sleep_list k) (thread_awake ticks k) (awake-IsValid ticks k v)
      (thread_awake-Wakes ticks k)

-- ===== src/Sync/Locks.antt =====
-- The locks of threads/synch.c.
use pintos_vm.Base.{
  ℕ, ◌+◌, ◌-◌, ◌≤◌, ◌≡◌, ◌≢◌, refl, ap, subst, Bool, true, false, not, Option, none, some, ◌==◌,
  arith, if◌then◌else◌, ◌>>=◌, ◌>>◌, assert, Returns, Returns-bind,
}
use pintos_vm.KernelList.Sort.{list_insert_ordered}
use pintos_vm.Sched.{Kernel, is_idle, cmp_priority}
use pintos_vm.Sched.Invariant.{IsValid}
use pintos_vm.Sched.Same.{SameSchedule, SameSchedule-IsValid}
use pintos_vm.Sched.Frame.{SameObjects, Keeps, block-Keeps}
use pintos_vm.Sync.Semaphores.{sema_down-IsValid}
use pintos_vm.Sync.{set_sema, set_holder, set_wait, sema_down, lock_finish}

abbrev pub held : Option ℕ → ℕ
held none = 0
held (some t) = 1

-- A lock's semaphore is at 1 if the lock is free, and at 0 if it has a holder.
abbrev pub IsLock : ℕ → Kernel → Type 0
IsLock l k = (k.semas (k.locks l).semaphore).value + held (k.locks l).holder ≡ 1

-- What holds of the result where a call returns at all.
abbrev pub WhereReturns {ℓ} : {A : Type ℓ} → (A → Type 0) → Option A → Type 0
WhereReturns P none = Unit
WhereReturns P (some a) = P a

pub Returns-both {ℓ} :
    {A : Type ℓ} (P Q : A → Type 0) (m : Option A)
    → Returns P m
    → WhereReturns Q m
    → Returns (λ a. P a × Q a) m
Returns-both P Q none h w = h
Returns-both P Q (some a) h w = (h, w)

abbrev pub take_one : ℕ → Kernel → Kernel
take_one sema k = set_sema sema (record (k.semas sema) { value = (k.semas sema).value - 1 }) k

abbrev add_waiter : ℕ → Kernel → Kernel
add_waiter sema k =
    set_sema sema
      (record (k.semas sema) {
        waiters = list_insert_ordered (cmp_priority k) k.current (k.semas sema).waiters;
      })
      k

-- A round of `sema_down` takes one off a positive value, or else only adds a waiter.
record IsDown (sema : ℕ) (k : Kernel) (done : Bool) (k' : Kernel) : Type 0 where
  took : done ≡ true → (1 ≤ (k.semas sema).value) × (k' ≡ take_one sema k)
  slept : done ≡ false → ((k.semas sema).value ≡ 0) × SameObjects (add_waiter sema k) k'

blocked-IsDown :
    (sema : ℕ) (k : Kernel) (m : Option Kernel)
    → (k.semas sema).value ≡ 0
    → Keeps (add_waiter sema k) m
    → WhereReturns (λ (done, k'). IsDown sema k done k') (m >>= λ k'. some (false, k'))
blocked-IsDown sema k none z h = tt
blocked-IsDown sema k (some k') z h = record { took = λ e. cc; slept = λ e. (z, h) }

WhereReturns-if {ℓ} :
    {A : Type ℓ} (P : A → Type 0) (b : Bool) (m n : Option A)
    → (b ≡ true → WhereReturns P m)
    → (b ≡ false → WhereReturns P n)
    → WhereReturns P (if b then m else n)
WhereReturns-if P true m n h h' = h refl
WhereReturns-if P false m n h h' = h' refl

pub WhereReturns-assert {ℓ} :
    {A : Type ℓ} (P : A → Type 0) (b : Bool) (m : Option A)
    → WhereReturns P m
    → WhereReturns P (assert b >> m)
WhereReturns-assert P true m h = h
WhereReturns-assert P false m h = tt

sema_down-IsDown :
    (sema : ℕ) (k : Kernel) → WhereReturns (λ (done, k'). IsDown sema k done k') (sema_down sema k)
unfolding sema_down
sema_down-IsDown sema k = WhereReturns-assert _ (not k.in_interrupt) _ (
    WhereReturns-if _ ((k.semas sema).value == 0) _ _
      (λ z. blocked-IsDown sema k _ (ground arith) (block-Keeps (add_waiter sema k)))
      λ z. record { took = λ e. (ground arith, refl); slept = λ e. cc })

-- What `lock_acquire` leaves: the calling thread is the lock's holder, which had none, or it waits, and
-- the lock keeps its holder.
pub record IsAcquired (lock : ℕ) (k : Kernel) (done : Bool) (k' : Kernel) : Type 0 where
  pub valid : IsValid k'
  pub in_order : IsLock lock k'
  pub taken :
      done ≡ true → ((k.locks lock).holder ≡ none) × ((k'.locks lock).holder ≡ some k.current)
  pub waits : done ≡ false → ((k.locks lock).holder ≢ none) × (k'.locks ≡ k.locks)

pub free_of : (h : Option ℕ) → held h ≡ 0 → h ≡ none
free_of none e = refl
free_of (some t) e = absurd (omega arith)

pub busy_of : (h : Option ℕ) → held h ≡ 1 → h ≢ none
busy_of none e = absurd (omega arith)
busy_of (some t) e = λ n. cc

pub holder-IsValid : (l : ℕ) (h : Option ℕ) (k : Kernel) → IsValid k → IsValid (set_holder l h k)
holder-IsValid l h k v = record {
  runs = v.runs;
  only = v.only;
  queued = v.queued;
  parked = v.parked;
  apart = v.apart;
  idle = v.idle;
}

pub wait-SameSchedule : (t : ℕ) (w : Option ℕ) (k : Kernel) → SameSchedule k (set_wait t w k)
wait-SameSchedule t w k = record {
  statuses = λ u. ground arith;
  same_current = refl;
  same_idle = refl;
  same_ready = refl;
  same_sleep = refl;
  same_semas = refl;
  same_locks = refl;
  same_context = refl;
}

if-SameSchedule :
    (b : Bool) (k k' : Kernel) → SameSchedule k k' → SameSchedule k (if b then k else k')
if-SameSchedule true k k' s = record {
  statuses = λ u. refl;
  same_current = refl;
  same_idle = refl;
  same_ready = refl;
  same_sleep = refl;
  same_semas = refl;
  same_locks = refl;
  same_context = refl;
}
if-SameSchedule false k k' s = s

module _ (lock : ℕ) (k : Kernel) (e : IsLock lock k) where
  abbrev sema_of : ℕ
  sema_of = (k.locks lock).semaphore

  -- The rest of `lock_acquire` once `sema_down` took the value.
  abbrev owned : Kernel → Kernel
  owned k' =
      set_holder lock (some k'.current) (if k'.mlfqs then k' else set_wait k'.current none k')

  owned-IsAcquired :
      (t : ℕ) (k' : Kernel)
      → t ≡ k.current
      → 1 ≤ (k.semas sema_of).value
      → SameSchedule (take_one sema_of k) k'
      → IsValid k'
      → IsAcquired lock k true (set_holder lock (some t) k')
  owned-IsAcquired t k' q p s v = record {
    valid = holder-IsValid lock (some t) k' v;
    in_order = ground (arith, e, p, s.same_semas, s.same_locks);
    taken = λ _. (free_of (k.locks lock).holder (omega (arith, e, p)), ground (arith, q));
    waits = λ e. cc;
  }

  waits-IsAcquired :
      (k' : Kernel)
      → (k.semas sema_of).value ≡ 0
      → SameObjects (add_waiter sema_of k) k'
      → IsValid k'
      → IsAcquired lock k false k'
  waits-IsAcquired k' z s v = record {
    valid = v;
    in_order = ground (arith, e, z, s.semas, s.locks);
    taken = λ e. cc;
    waits = λ _. (busy_of (k.locks lock).holder (omega (arith, e, z)), s.locks);
  }

  abbrev outcome : Bool → Kernel → Bool × Kernel
  outcome done k' = if done then (true, owned k') else (false, k')

  owned-SameSchedule :
      (k' : Kernel)
      → k' ≡ take_one sema_of k
      → SameSchedule (take_one sema_of k) (if k'.mlfqs then k' else set_wait k'.current none k')
  owned-SameSchedule k' q =
      subst (λ x. SameSchedule x (if k'.mlfqs then k' else set_wait k'.current none k')) q
        (if-SameSchedule k'.mlfqs k' (set_wait k'.current none k')
          (wait-SameSchedule k'.current none k'))

  outcome-IsAcquired :
      (done : Bool) (k' : Kernel)
      → IsDown sema_of k done k'
      → IsValid k'
      → IsAcquired lock k (outcome done k').0 (outcome done k').1
  outcome-IsAcquired true k' d v =
      let s = owned-SameSchedule k' (d.took refl).1 in
      owned-IsAcquired k'.current (if k'.mlfqs then k' else set_wait k'.current none k')
        (ap (λ (x : Kernel). x.current) (d.took refl).1) (d.took refl).0 s
        (SameSchedule-IsValid _ _ s (subst IsValid (d.took refl).1 v))
  outcome-IsAcquired false k' d v = waits-IsAcquired k' (d.slept refl).0 (d.slept refl).1 v

  pub finish-IsAcquired :
      IsValid k
      → k.in_interrupt ≡ false
      → is_idle k k.current ≡ false
      → Returns (λ (done, k'). IsAcquired lock k done k') (lock_finish lock k)
  unfolding lock_finish
  finish-IsAcquired v n i =
      Returns-bind (λ (done, k'). IsValid k' × IsDown sema_of k done k')
        (λ (done, k'). IsAcquired lock k done k') (sema_down sema_of k) _
        (Returns-both _ _ (sema_down sema_of k) (sema_down-IsValid sema_of k v n i)
          (sema_down-IsDown sema_of k))
        λ (done, k') (v', d). outcome-IsAcquired done k' d v'

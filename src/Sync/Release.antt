-- ===== src/Sync/Release.antt =====
-- `lock_try_acquire` and `lock_release` of threads/synch.c.
use pintos_vm.Base.{
  ℕ, ◌+◌, ◌≡◌, ◌≢◌, refl, ◌∙◌, inl, inr, Bool, true, false, not, Option, none, some, List, [], ◌∷◌,
  ◌==◌, arith, ltb, same, ◌>>=◌, Returns, Returns-bind, Returns-mono, assert-true, Returns-if,
  Bool-cases,
}
use pintos_vm.KernelList.Sort.{list_sort}
use pintos_vm.Sched.{Kernel, thread_unblock, thread_compare_priority, cmp_priority}
use pintos_vm.Sched.Invariant.{IsValid}
use pintos_vm.Sched.Same.{SameSchedule, SameSchedule-IsValid}
use pintos_vm.Sched.Frame.{Keeps, compare-Keeps, unblock-Keeps}
use pintos_vm.Sched.Donation.{remove_donation, re_priority}
use pintos_vm.Sched.Donation.Priority.{IsRestored, re_priority_lem}
use pintos_vm.Sync.{
  set_sema, set_holder, wake_first, add_one, sema_try_down, sema_up, lock_held_by_current_thread,
  lock_try_acquire, lock_release,
}
use pintos_vm.Sync.Semaphores.{sema_up-IsValid}
use pintos_vm.Sync.Locks.{
  IsLock, held, WhereReturns, Returns-both, holder-IsValid, take_one, free_of, busy_of,
}
use pintos_vm.Sync.Acquire.{donations-SameSchedule}
use pintos_vm.Sched.Same.{same_schedule, SameSchedule-trans}

-- Where `sema_up` returns, the value is one higher, and no other value and no lock is changed.
record IsUp (sema : ℕ) (k k' : Kernel) : Type 0 where
  raised : (k'.semas sema).value ≡ (k.semas sema).value + 1
  others : (s : ℕ) → (sema == s) ≡ false → (k'.semas s).value ≡ (k.semas s).value
  locks : k'.locks ≡ k.locks

-- Waking a waiter changes no value.
record IsAwake (k k' : Kernel) : Type 0 where
  values : (s : ℕ) → (k'.semas s).value ≡ (k.semas s).value
  locks : k'.locks ≡ k.locks

wake-IsAwake :
    (sema : ℕ) (ts : List ℕ) (k : Kernel) → WhereReturns (IsAwake k) (wake_first sema ts k)
wake-IsAwake sema [] k = record { values = λ s. refl; locks = refl }
wake-IsAwake sema (t ∷ ts) k = from (thread_unblock t k₁) (unblock-Keeps t k₁)
  where
    k₁ : Kernel
    k₁ = set_sema sema (record (k.semas sema) { waiters = ts }) k

    from : (m : Option Kernel) → Keeps k₁ m → WhereReturns (IsAwake k) m
    from none h = tt
    from (some k') h = record { values = λ s. ground (arith, h.semas); locks = h.locks }

sema_up-IsUp : (sema : ℕ) (k : Kernel) → WhereReturns (IsUp sema k) (sema_up sema k)
unfolding sema_up
sema_up-IsUp sema k =
    let ts = list_sort (cmp_priority k) (k.semas sema).waiters in
    from (wake_first sema ts k) (wake-IsAwake sema ts k)
  where
    compared :
        (k₁ : Kernel) (m : Option Kernel)
        → IsAwake k k₁
        → Keeps (add_one sema k₁) m
        → WhereReturns (IsUp sema k) m
    compared k₁ none a h = tt
    compared k₁ (some k') a h = record {
      raised = ground (arith, h.semas, a.values sema);
      others = λ s e. ground (arith, h.semas, a.values s);
      locks = h.locks ∙ a.locks;
    }

    from :
        (m : Option Kernel)
        → WhereReturns (IsAwake k) m
        → WhereReturns (IsUp sema k) (m >>= λ k'. thread_compare_priority (add_one sema k'))
    from none a = tt
    from (some k₁) a = compared k₁ _ a (compare-Keeps (add_one sema k₁))

-- What `lock_release` leaves.
pub record IsReleased (lock : ℕ) (k k' : Kernel) : Type 0 where
  pub valid : IsValid k'
  pub free : (k'.locks lock).holder ≡ none
  pub in_order : IsLock lock k'
  pub others :
      (m : ℕ)
      → ((k.locks lock).semaphore == (k.locks m).semaphore) ≡ false
      → IsLock m k
      → IsLock m k'

held_by : (h : Option ℕ) (t : ℕ) → same h (some t) ≡ true → held h ≡ 1
held_by none t e = cc
held_by (some u) t e = refl

module _ (lock : ℕ) (k : Kernel) (v : IsValid k) (l : IsLock lock k)
    (h : held (k.locks lock).holder ≡ 1) where
  up-IsReleased :
      (k₁ : Kernel)
      → SameSchedule k k₁
      → Returns (IsReleased lock k) (sema_up (k.locks lock).semaphore (set_holder lock none k₁))
  up-IsReleased k₁ s =
      Returns-mono _ _ (sema_up (k.locks lock).semaphore k₂)
        (Returns-both IsValid (IsUp (k.locks lock).semaphore k₂) _
          (sema_up-IsValid (k.locks lock).semaphore k₂
            (holder-IsValid lock none k₁ (SameSchedule-IsValid k k₁ s v)))
          (sema_up-IsUp (k.locks lock).semaphore k₂))
        λ k' (w, u). record {
          valid = w;
          free = ground (arith, u.locks);
          in_order = ground (arith, u.locks, u.raised, l, h, s.same_semas, s.same_locks);
          others = λ m ne o. ground (
            arith,
            o,
            ne,
            u.others (k.locks m).semaphore ne,
            u.locks,
            s.same_semas,
            s.same_locks,
          );
        }
    where
      k₂ : Kernel
      k₂ = set_holder lock none k₁

remove-SameSchedule : (lock : ℕ) (k : Kernel) → SameSchedule k (remove_donation lock k)
unfolding remove_donation
remove-SameSchedule lock k = donations-SameSchedule k.current _ k

-- On a well-formed kernel `lock_release` of a lock in order that the current thread holds returns.
-- The lock then has no holder and is in order, so is any lock with another semaphore that was, and
-- the kernel is well formed.
pub lock_release_lem :
    (lock : ℕ) (k : Kernel)
    → IsValid k
    → IsLock lock k
    → lock_held_by_current_thread lock k ≡ true
    → Returns (IsReleased lock k) (lock_release lock k)
unfolding lock_release lock_held_by_current_thread
lock_release_lem lock k v l h =
    let b = held_by (k.locks lock).holder k.current h in
    let k₀ = remove_donation lock k in
    let s = remove-SameSchedule lock k in
    assert-true _ (lock_held_by_current_thread lock k) _ h (
      Returns-if _ k.mlfqs _ _ (λ _. up-IsReleased lock k v l b k (same_schedule k))
        λ _.
          Returns-bind (IsRestored k₀) _ (re_priority k₀) _ (re_priority_lem k₀)
            λ k₁ r. up-IsReleased lock k v l b k₁ (SameSchedule-trans k k₀ k₁ s r.schedule))

-- What `lock_try_acquire` leaves.
pub record IsTried (lock : ℕ) (k : Kernel) (success : Bool) (k' : Kernel) : Type 0 where
  pub valid : IsValid k'
  pub in_order : IsLock lock k'
  pub taken :
      success ≡ true → ((k.locks lock).holder ≡ none) × ((k'.locks lock).holder ≡ some k.current)
  pub failed : success ≡ false → ((k.locks lock).holder ≢ none) × (k' ≡ k)

-- On a well-formed kernel `lock_try_acquire` of a lock in order that the current thread does not
-- hold returns: it takes the lock if that has no holder, and else changes nothing; the lock stays
-- in order, and the kernel well formed.
pub try_acquire_lem :
    (lock : ℕ) (k : Kernel)
    → IsValid k
    → IsLock lock k
    → lock_held_by_current_thread lock k ≡ false
    → Returns (λ (success, k'). IsTried lock k success k') (lock_try_acquire lock k)
unfolding lock_try_acquire sema_try_down
try_acquire_lem lock k v l h =
    assert-true _ (not (lock_held_by_current_thread lock k)) _ (ground arith)
      (elim (Bool-cases (ltb 0 (k.semas (k.locks lock).semaphore).value)) [
        | inl t ↦ rw t (record {
          valid = holder-IsValid lock (some k.current) _ (lowered_value t);
          in_order = ground (arith, l);
          taken = λ _. (free_of (k.locks lock).holder (ground (arith, l)), ground arith);
          failed = λ e. cc;
        })
        | inr f ↦ rw f (record {
          valid = v;
          in_order = l;
          taken = λ e. cc;
          failed = λ _. (busy_of (k.locks lock).holder (ground (arith, l)), refl);
        })
      ])
  where
    lowered_value :
        ltb 0 (k.semas (k.locks lock).semaphore).value ≡ true
        → IsValid (take_one (k.locks lock).semaphore k)
    lowered_value t = record {
      runs = v.runs;
      only = v.only;
      queued = v.queued;
      parked = λ s u. ground (arith, v.parked s u);
      apart = λ r s u ne. ground (arith, v.apart r s u);
      idle = v.idle;
    }

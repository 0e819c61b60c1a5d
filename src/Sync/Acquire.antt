-- ===== src/Sync/Acquire.antt =====
-- `lock_acquire`, `lock_try_acquire` and `lock_release` of threads/synch.c.
use mathlib.Core.Path.{fun_ext}
use pintos_vm.Base.{
  ◌∙◌, ℕ, ◌≡◌, ◌≢◌, refl, sym, subst, Bool, false, not, Option, none, some, List, arith, Returns,
  Returns-bind, Returns-mono, assert-true, Returns-if,
}
use pintos_vm.Base.Int.{ℤ}
use pintos_vm.KernelList.Sort.{list_insert_ordered}
use pintos_vm.Sched.{Kernel, is_idle, priority_of}
use pintos_vm.Sched.Invariant.{IsValid}
use pintos_vm.Sched.Same.{SameSchedule, SameSchedule-IsValid, same_schedule, SameSchedule-trans}
use pintos_vm.Sched.Donation.{cmp_donation_priority, set_donations, priority_donation}
use pintos_vm.Sched.Donation.Chain.{chain, waits_of, Donates, priority_donation_lem}
use pintos_vm.Sync.{set_wait, lock_held_by_current_thread, lock_begin, lock_finish, lock_acquire}
use pintos_vm.Sync.Locks.{IsLock, IsAcquired, wait-SameSchedule, finish-IsAcquired}

pub donations-SameSchedule :
    (t : ℕ) (ds : List ℕ) (k : Kernel) → SameSchedule k (set_donations t ds k)
donations-SameSchedule t ds k = record {
  statuses = λ u. ground arith;
  same_current = refl;
  same_idle = refl;
  same_ready = refl;
  same_sleep = refl;
  same_semas = refl;
  same_locks = refl;
  same_context = refl;
}

waits-donations : (t : ℕ) (ds : List ℕ) (k : Kernel) → waits_of (set_donations t ds k) ≡ waits_of k
waits-donations t ds k = fun_ext λ u. ground arith

-- A donation along a chain of locks that all have holders.
donated-SameSchedule :
    (p : ℤ) (k : Kernel) (c : Option (List ℕ)) (r : Option Kernel)
    → c ≢ none
    → Donates p k c r
    → Returns (SameSchedule k) r
donated-SameSchedule p k none r n d = absurd (n refl)
donated-SameSchedule p k (some hs) r n d = Returns-mono _ _ r d λ k' h. h.schedule

module _ (lock : ℕ) (k : Kernel) where
  abbrev waiting : Kernel
  waiting = set_wait k.current (some lock) k

  -- No lock on the way from `lock` to the threads that its holder waits for lacks a holder, at depth 8.
  abbrev pub chain_of : Option (List ℕ)
  chain_of = chain (waits_of waiting) k.locks 8 k.current

  abbrev lender : Option ℕ → Option Kernel
  lender none = some k
  lender (some holder) = priority_donation (
      set_donations holder
        (list_insert_ordered (cmp_donation_priority waiting) k.current
          (waiting.threads holder).donations)
        waiting)

  lender-SameSchedule :
      (h : Option ℕ) → (h ≢ none → chain_of ≢ none) → Returns (SameSchedule k) (lender h)
  lender-SameSchedule none c = same_schedule k
  lender-SameSchedule (some h) c =
      let ds =
        list_insert_ordered (cmp_donation_priority waiting) k.current
          (waiting.threads h).donations in
      let k₁ = set_donations h ds waiting in
      let s =
        SameSchedule-trans k waiting k₁ (wait-SameSchedule k.current (some lock) k)
          (donations-SameSchedule h ds waiting) in
      Returns-mono (SameSchedule k₁) (SameSchedule k) (priority_donation k₁)
        (donated-SameSchedule (priority_of k₁ k.current) k₁ _ (priority_donation k₁)
          (subst (λ w. chain w k.locks 8 k.current ≢ none) (sym (waits-donations h ds waiting))
            (c λ e. cc))
          (priority_donation_lem k₁))
        λ k₂ r. SameSchedule-trans k k₁ k₂ s r

  begin-SameSchedule :
      ((k.locks lock).holder ≢ none → chain_of ≢ none)
      → Returns (SameSchedule k) (lock_begin lock k)
  unfolding lock_begin
  begin-SameSchedule c =
      Returns-if (SameSchedule k) k.mlfqs (some k) (lender (k.locks lock).holder)
        (λ _. same_schedule k) λ _. lender-SameSchedule (k.locks lock).holder c

later-IsAcquired :
    (lock : ℕ) (k k₁ : Kernel) (done : Bool) (k' : Kernel)
    → SameSchedule k k₁
    → IsAcquired lock k₁ done k'
    → IsAcquired lock k done k'
later-IsAcquired lock k k₁ done k' s a = record {
  valid = a.valid;
  in_order = a.in_order;
  taken = λ e.
      let (n, o) = a.taken e in
      (ground (arith, n, s.same_locks), ground (arith, o, s.same_current));
  waits =
      λ e. let (n, o) = a.waits e in (λ h. n (ground (arith, h, s.same_locks)), o ∙ s.same_locks);
}

-- On a well-formed kernel, outside interrupt handlers, a thread other than the idle thread calls
-- `lock_acquire` on a lock in order that it does not hold, and the chain of holders that the lock
-- leads to, if it has a holder, lacks none. Then the call returns: it takes the lock if that has
-- no holder, and else it has to wait, and no lock has changed; the kernel stays well formed and
-- the lock in order.
pub lock_acquire_lem :
    (lock : ℕ) (k : Kernel)
    → IsValid k
    → IsLock lock k
    → k.in_interrupt ≡ false
    → is_idle k k.current ≡ false
    → lock_held_by_current_thread lock k ≡ false
    → ((k.locks lock).holder ≢ none → chain_of lock k ≢ none)
    → Returns (λ (done, k'). IsAcquired lock k done k') (lock_acquire lock k)
unfolding lock_acquire
lock_acquire_lem lock k v l n i h c = assert-true _ (not k.in_interrupt) _ (ground arith) (
    assert-true _ (not (lock_held_by_current_thread lock k)) _ (ground arith) (
      Returns-bind (SameSchedule k) _ (lock_begin lock k) (lock_finish lock)
        (begin-SameSchedule lock k c)
        λ k₁ s.
          Returns-mono (λ (done, k'). IsAcquired lock k₁ done k') _ (lock_finish lock k₁)
            (finish-IsAcquired lock k₁ (ground (arith, l, s.same_locks, s.same_semas))
              (SameSchedule-IsValid k k₁ s v) (s.same_context ∙ n)
              (ground (arith, i, s.same_idle, s.same_current)))
            λ (done, k') a. later-IsAcquired lock k k₁ done k' s a))

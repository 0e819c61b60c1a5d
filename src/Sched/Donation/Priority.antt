-- ===== src/Sched/Donation/Priority.antt =====
-- `re_priority`, `remove_donation` and `thread_set_priority` of threads/thread.c.
use pintos_vm.Base.{
  ℕ, ◌≤◌, ◌≡◌, ◌≢◌, refl, sym, subst, ◌⊎◌, inl, inr, true, false, Option, none, some, List, [], ◌∷◌,
  ◌==◌, arith, if◌then◌else◌, update, keep, All, All-mono, All-SameItems, SameItems, tally,
  Bool-cases, Returns,
}
use pintos_vm.Base.Int.{ℤ, ltb_ℤ}
use pintos_vm.KernelList.Sort.{list_sort}
use pintos_vm.KernelList.Sort.Order.{IsSorted}
use pintos_vm.KernelList.Sort.Sorted.{list_sort_lem}
use pintos_vm.Sched.{Kernel, set_priority, priority_of, thread_compare_priority}
use pintos_vm.Sched.Invariant.{IsValid, compare-IsValid}
use pintos_vm.Sched.Same.{SameSchedule}
use pintos_vm.Sched.Policy.{IsOrdered, IsFair, compare-IsFair, higher, higher-IsOrder}
use pintos_vm.Sched.Donation.{set_donations, take_front, with_donors, re_priority}

-- No donor has a higher priority than the thread, which has its own priority or that of a donor.
abbrev pub IsRaised : ℤ → (ℕ → ℤ) → List ℕ → ℤ → Type 0
IsRaised own f donors p =
    (ltb_ℤ p own ≡ false)
    × All (λ d. ltb_ℤ p (f d) ≡ false) donors
    × ((p ≡ own) ⊎ ((d : ℕ) × (f d ≡ p) × (1 ≤ tally (λ x. x == d) donors)))

-- What `re_priority` leaves: only the current thread's priority and the order of its donors change.
pub record IsRestored (k k' : Kernel) : Type 0 where
  pub raised :
      IsRaised
        (k.threads k.current).init_priority
        (priority_of (set_priority k.current (k.threads k.current).init_priority k))
        (k.threads k.current).donations
        (priority_of k' k.current)
  pub donors : SameItems (k'.threads k.current).donations (k.threads k.current).donations
  pub others : (t : ℕ) → (t == k.current) ≡ false → k'.threads t ≡ k.threads t
  pub schedule : SameSchedule k k'

front_highest :
    (f : ℕ → ℤ) (front : ℕ) (ds donors : List ℕ)
    → IsSorted (higher f) (front ∷ ds)
    → SameItems (front ∷ ds) donors
    → All (λ d. ltb_ℤ (f front) (f d) ≡ false) donors
front_highest f front ds donors s p =
    All-SameItems (λ d. ltb_ℤ (f front) (f d)) (front ∷ ds) donors p (ground arith, s.0)

raised_lem :
    (own : ℤ) (f : ℕ → ℤ) (front : ℕ) (ds donors : List ℕ)
    → IsSorted (higher f) (front ∷ ds)
    → SameItems (front ∷ ds) donors
    → IsRaised own f donors (if ltb_ℤ own (f front) then f front else own)
raised_lem own f front ds donors s p = elim (Bool-cases (ltb_ℤ own (f front))) [
  | inl up ↦ simp up (
    ground arith,
    front_highest f front ds donors s p,
    inr (front, refl, ground (arith, p (λ x. x == front))),
  )
  | inr keep ↦ simp keep (
    ground arith,
    All-mono (λ d. ltb_ℤ (f front) (f d) ≡ false) (λ d. ltb_ℤ own (f d) ≡ false) donors
        (λ d h. ground arith) (front_highest f front ds donors s p),
    inl refl,
  )
]

module _ (k : Kernel) where
  abbrev own : ℤ
  own = (k.threads k.current).init_priority

  abbrev lowered : Kernel
  lowered = set_priority k.current own k

  abbrev donors_of : List ℕ
  donors_of = (k.threads k.current).donations

  -- The kernel after the donors were sorted and the front one was looked at.
  abbrev raised : ℕ → List ℕ → Kernel
  raised front sorted =
      let k' = set_donations k.current sorted lowered in
      if ltb_ℤ (priority_of k' k.current) (priority_of k' front)
      then set_priority k.current (priority_of k' front) k'
      else k'

  priority-raised :
      (front : ℕ) (sorted : List ℕ)
      → priority_of (raised front sorted) k.current
        ≡ (if ltb_ℤ own (priority_of lowered front) then priority_of lowered front else own)
  priority-raised front sorted = ground arith

  donations-raised :
      (front : ℕ) (sorted : List ℕ) → ((raised front sorted).threads k.current).donations ≡ sorted
  donations-raised front sorted = ground arith

  front-IsRestored :
      (sorted : List ℕ)
      → donors_of ≢ []
      → IsSorted (higher (priority_of lowered)) sorted
      → SameItems sorted donors_of
      → Returns (IsRestored k) (take_front (set_donations k.current sorted lowered) sorted)
  unfolding take_front
  front-IsRestored [] n s p = absurd (n (nonempty donors_of (p (λ x. true))))
    where
      nonempty : (xs : List ℕ) → 0 ≡ tally (λ x. true) xs → xs ≡ []
      nonempty [] h = refl
      nonempty (x ∷ xs) h = absurd (omega arith)
  front-IsRestored (front ∷ fs) n s p = record {
    raised =
        subst (IsRaised own (priority_of lowered) donors_of)
          (sym (priority-raised front (front ∷ fs)))
          (raised_lem own (priority_of lowered) front fs donors_of s p);
    donors = subst (λ l. SameItems l donors_of) (sym (donations-raised front (front ∷ fs))) p;
    others = λ t h. ground arith;
    schedule = record {
      statuses = λ t. ground arith;
      same_current = ground arith;
      same_idle = ground arith;
      same_ready = ground arith;
      same_sleep = ground arith;
      same_semas = ground arith;
      same_locks = ground arith;
      same_context = ground arith;
    };
  }

  with_donors-IsRestored :
      (ds : List ℕ) → donors_of ≡ ds → Returns (IsRestored k) (with_donors lowered ds)
  with_donors-IsRestored [] e = record {
    raised = (ground arith, rw e tt, inl (ground arith));
    donors = λ p. ground arith;
    others = λ t h. ground arith;
    schedule = record {
      statuses = λ t. ground arith;
      same_current = refl;
      same_idle = refl;
      same_ready = refl;
      same_sleep = refl;
      same_semas = refl;
      same_locks = refl;
      same_context = refl;
    };
  }
  with_donors-IsRestored (d ∷ ds) e =
      let (s, p, _) =
        list_sort_lem (higher (priority_of lowered)) (higher-IsOrder (priority_of lowered))
          (d ∷ ds) in
      front-IsRestored (list_sort (higher (priority_of lowered)) (d ∷ ds)) (λ n. cc) s
        (subst (SameItems (list_sort (higher (priority_of lowered)) (d ∷ ds))) (sym e) p)

-- `re_priority` returns; the current thread then has its own priority or the highest one among its
-- donors, whichever is higher, and the same donors. No other thread changes, and neither do a
-- status, the lists of the scheduler, the semaphores and the locks.
pub re_priority_lem : (k : Kernel) → Returns (IsRestored k) (re_priority k)
unfolding re_priority
re_priority_lem k = with_donors-IsRestored k (k.threads k.current).donations refl

-- What `thread_set_priority` leaves.
pub record IsSettled (k : Kernel) : Type 0 where
  pub valid : IsValid k
  pub fair : IsFair k

settled : (m : Option Kernel) → Returns IsValid m → Returns IsFair m → Returns IsSettled m
settled none v f = v
settled (some k) v f = record { valid = v; fair = f }

pub compare-IsSettled :
    (k : Kernel)
    → IsValid k
    → IsOrdered k
    → k.in_interrupt ≡ false
    → Returns IsSettled (thread_compare_priority k)
compare-IsSettled k v o n =
    settled (thread_compare_priority k) (compare-IsValid k v) (compare-IsFair k o n v.runs v.idle)

module _ (p : ℤ) (k : Kernel) where
  abbrev reset : Kernel
  reset = record k {
    threads = update k.threads k.current (record (k.threads k.current) { init_priority = p });
  }

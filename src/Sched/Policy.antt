-- ===== src/Sched/Policy.antt =====
-- Which thread the scheduler of threads/thread.c runs: one of the highest priority.
use mathlib.Core.Path.{fun_ext}
use pintos_vm.Base.{
  ℕ, ◌≡◌, refl, sym, subst, inl, inr, Bool, true, false, not, none, List, [], ◌∷◌, ◌++◌, arith,
  ◌==◌, if◌then◌else◌, All, Bool-cases, Option-cases, Returns, Returns-bind, assert-true,
  Returns-if, ◌≢◌,
}
use pintos_vm.Base.Int.{ℤ, ltb_ℤ}
use pintos_vm.KernelList.Sort.{list_insert_ordered}
use pintos_vm.KernelList.Sort.Order.{IsOrder, IsSorted, insert-IsSorted, All-ge}
use pintos_vm.Sched.{
  Status, running, ready, blocked, Kernel, is_running, is_blocked, set_status, cmp_priority,
  priority_of, is_idle, insert_ready, thread_unblock, next_of, next_thread_to_run, switch_to,
  schedule, do_schedule, thread_block, thread_yield, thread_compare_priority, outranked,
}

-- The order of the run queue, from the priorities alone.
abbrev pub higher : (ℕ → ℤ) → ℕ → ℕ → Bool
higher f a b = ltb_ℤ (f b) (f a)

pub higher-IsOrder : (f : ℕ → ℤ) → IsOrder (higher f)
higher-IsOrder f = record { asym = λ a b h. ground arith; trans = λ a b c h k. ground arith }

-- The run queue stands in order of falling priority.
abbrev pub IsOrdered : Kernel → Type 0
IsOrdered k = IsSorted (cmp_priority k) k.ready_list

-- No ready thread has a higher priority than the running one.
abbrev pub IsHighest : Kernel → Type 0
IsHighest k = All (λ t. ltb_ℤ (priority_of k k.current) (priority_of k t) ≡ false) k.ready_list

pub record IsFair (k : Kernel) : Type 0 where
  pub ordered : IsOrdered k
  pub highest : IsHighest k

priority-set_status :
    (t : ℕ) (s : Status) (k : Kernel) → priority_of (set_status t s k) ≡ priority_of k
priority-set_status t s k = fun_ext λ u. ground arith

-- Changes that keep all priorities keep the order.
pub ordered_by :
    (f g : ℕ → ℤ) (xs : List ℕ) → f ≡ g → IsSorted (higher f) xs → IsSorted (higher g) xs
ordered_by f g xs e h = subst (λ f. IsSorted (higher f) xs) e h

-- `thread_unblock` keeps the run queue in order.
pub unblock-IsOrdered :
    (t : ℕ) (k : Kernel)
    → IsOrdered k
    → is_blocked (k.threads t).status ≡ true
    → Returns IsOrdered (thread_unblock t k)
unfolding thread_unblock
unblock-IsOrdered t k o b = assert-true IsOrdered (is_blocked (k.threads t).status) _ b (
    ordered_by (priority_of k) (priority_of (set_status t ready (insert_ready t k)))
      (list_insert_ordered (cmp_priority k) t k.ready_list)
      (sym (priority-set_status t ready (insert_ready t k)))
      (insert-IsSorted (higher (priority_of k)) (higher-IsOrder (priority_of k)) t k.ready_list o))

switch-IsFair :
    (next : ℕ) (k : Kernel)
    → IsOrdered k
    → All (λ t. ltb_ℤ (priority_of k next) (priority_of k t) ≡ false) k.ready_list
    → IsFair (switch_to next k)
unfolding switch_to
switch-IsFair next k o h =
    let k' = set_status next running k in
    let o' =
      ordered_by (priority_of k) (priority_of k') k.ready_list
        (sym (priority-set_status next running k)) o in
    let h' =
      subst (λ f. All (λ t. ltb_ℤ (f next) (f t) ≡ false) k.ready_list)
        (sym (priority-set_status next running k)) h in
    elim (Bool-cases (k.current == next)) [
      | inl e ↦
          let q : next ≡ k.current = ground arith in
          simp e (record {
            ordered = o';
            highest =
                subst
                  (λ c. All (λ t. ltb_ℤ (priority_of k' c) (priority_of k' t) ≡ false) k.ready_list)
                  q h';
          })
      | inr ne ↦ simp ne (record { ordered = o'; highest = h' })
    ]

next-IsFair :
    (k : Kernel) (ts : List ℕ)
    → IsSorted (cmp_priority k) ts
    → k.ready_list ≡ ts
    → k.idle_thread ≢ none
    → Returns (λ (next, k'). IsFair (switch_to next k')) (next_of k ts)
next-IsFair k [] o e i = elim (Option-cases k.idle_thread) [
  | inl n ↦ absurd (i n)
  | inr (t, s) ↦ simp s (switch-IsFair t k (rw e tt) (rw e tt))
]
next-IsFair k (t ∷ ts) o e i = switch-IsFair t (record k { ready_list = ts }) o.1 o.0

-- From an ordered run queue, with a current thread that does not run any more and a known idle
-- thread, `schedule` returns; the queue is then ordered, and no ready thread outranks the running
-- one.
pub schedule-IsFair :
    (k : Kernel)
    → IsOrdered k
    → is_running (k.threads k.current).status ≡ false
    → k.idle_thread ≢ none
    → Returns IsFair (schedule k)
unfolding schedule next_thread_to_run
schedule-IsFair k o n i =
    Returns-bind (λ (next, k'). IsFair (switch_to next k')) IsFair (next_of k k.ready_list) _
      (next-IsFair k k.ready_list o refl i) λ (next, k') v. rw n v

status-set_status :
    (t : ℕ) (s : Status) (k : Kernel)
    → is_running s ≡ false
    → is_running ((set_status t s k).threads t).status ≡ false
status-set_status t s k h = ground arith

block-IsFair :
    (k : Kernel)
    → IsOrdered k
    → k.in_interrupt ≡ false
    → k.idle_thread ≢ none
    → Returns IsFair (thread_block k)
unfolding thread_block
block-IsFair k o n i = assert-true IsFair (not k.in_interrupt) _ (ground arith) (
    schedule-IsFair (set_status k.current blocked k)
      (ordered_by _ _ k.ready_list (sym (priority-set_status k.current blocked k)) o)
      (status-set_status k.current blocked k refl) i)

do_schedule-IsFair :
    (s : Status) (k : Kernel)
    → IsOrdered k
    → is_running s ≡ false
    → is_running (k.threads k.current).status ≡ true
    → k.idle_thread ≢ none
    → Returns IsFair (do_schedule s k)
unfolding do_schedule
do_schedule-IsFair s k o h r i =
    let k' = record k { destruction_req = []; freed = k.freed ++ k.destruction_req } in
    assert-true IsFair (is_running (k.threads k.current).status) _ r (
      schedule-IsFair (set_status k.current s k')
        (ordered_by (priority_of k) (priority_of (set_status k.current s k')) k.ready_list
          (sym (priority-set_status k.current s k')) o)
        (status-set_status k.current s k' h) i)

requeued-IsOrdered :
    (k : Kernel)
    → IsOrdered k
    → IsOrdered (if is_idle k k.current then k else insert_ready k.current k)
requeued-IsOrdered k o = elim (Bool-cases (is_idle k k.current)) [
  | inl e ↦ simp e o
  | inr e ↦ simp e (
      insert-IsSorted (higher (priority_of k)) (higher-IsOrder (priority_of k)) k.current
        k.ready_list o)
]

yield-IsFair :
    (k : Kernel)
    → IsOrdered k
    → k.in_interrupt ≡ false
    → is_running (k.threads k.current).status ≡ true
    → k.idle_thread ≢ none
    → Returns IsFair (thread_yield k)
unfolding thread_yield
yield-IsFair k o n r i = assert-true IsFair (not k.in_interrupt) _ (ground arith) (
    do_schedule-IsFair ready (if is_idle k k.current then k else insert_ready k.current k)
      (requeued-IsOrdered k o) refl (ground arith) (ground arith))

not_outranked :
    (k : Kernel) (ts : List ℕ)
    → IsSorted (cmp_priority k) ts
    → outranked k ts ≡ false
    → All (λ t. ltb_ℤ (priority_of k k.current) (priority_of k t) ≡ false) ts
not_outranked k [] o h = tt
not_outranked k (t ∷ ts) o h =
    (h, All-ge (higher (priority_of k)) (higher-IsOrder (priority_of k)) k.current t ts h o.0)

-- From an ordered run queue, outside an interrupt handler, with a running current thread and a
-- known idle thread, `thread_compare_priority` returns in a state in which the queue is ordered
-- and no ready thread outranks the running one.
pub compare-IsFair :
    (k : Kernel)
    → IsOrdered k
    → k.in_interrupt ≡ false
    → is_running (k.threads k.current).status ≡ true
    → k.idle_thread ≢ none
    → Returns IsFair (thread_compare_priority k)
unfolding thread_compare_priority
compare-IsFair k o n r i =
    Returns-if IsFair k.in_interrupt _ _ (λ h. cc)
      λ _.
        Returns-if IsFair (outranked k k.ready_list) _ _ (λ h. yield-IsFair k o n r i)
          λ h. record { ordered = o; highest = not_outranked k k.ready_list o h }

-- ===== src/Sched/Invariant.antt =====
-- The invariant of the scheduler in threads/thread.c.
use pintos_vm.Base.{
  ℕ, ◌+◌, ◌≡◌, refl, inl, inr, Bool, true, false, not, ◌&&◌, none, List, [], ◌∷◌, ◌++◌, arith, ◌==◌,
  if◌then◌else◌, keep, count, count-eq-tally, ◌≤◌, Option-cases, Returns, Returns-bind, assert-true,
  Returns-if, ◌≢◌,
}
use pintos_vm.KernelList.Sort.{list_insert_ordered}
use pintos_vm.KernelList.Sort.Order.{tally-insert}
use pintos_vm.Sched.{
  Status, ready, blocked, dying, Kernel, is_running, is_ready, is_blocked, set_status, cmp_priority,
  is_idle, insert_ready, thread_unblock, next_of, next_thread_to_run, switch_to, schedule,
  do_schedule, thread_block, thread_yield, thread_exit, thread_compare_priority, outranked,
}

-- How often a thread has to stand in the run queue.
abbrev pub places : Kernel → ℕ → ℕ
places k t = if is_ready (k.threads t).status && not (is_idle k t) then 1 else 0

-- How often it may stand in the lists of blocked threads.
abbrev pub beds : Kernel → ℕ → ℕ
beds k t = if is_blocked (k.threads t).status && not (is_idle k t) then 1 else 0

-- Just the current thread runs, and the run queue holds just the ready threads, once each; the idle
-- thread is known, and never stands in the queue; a thread in the list of sleepers or in the list of
-- waiters of a semaphore is blocked, and stands in one such list, once.
pub record IsValid (k : Kernel) : Type 0 where
  pub runs : is_running (k.threads k.current).status ≡ true
  pub only : (t : ℕ) → is_running (k.threads t).status ≡ true → t ≡ k.current
  pub queued : (t : ℕ) → count t k.ready_list ≡ places k t
  pub parked : (s t : ℕ) → count t (k.semas s).waiters + count t k.sleep_list ≤ beds k t
  pub apart :
      (r s t : ℕ) → (r == s) ≡ false → count t (k.semas r).waiters + count t (k.semas s).waiters ≤ 1
  pub idle : k.idle_thread ≢ none

-- Between the change of the current thread's status and the switch, no thread runs.
pub record IsHalted (k : Kernel) : Type 0 where
  pub halted : (t : ℕ) → is_running (k.threads t).status ≡ false
  pub queued : (t : ℕ) → count t k.ready_list ≡ places k t
  pub parked : (s t : ℕ) → count t (k.semas s).waiters + count t k.sleep_list ≤ beds k t
  pub apart :
      (r s t : ℕ) → (r == s) ≡ false → count t (k.semas r).waiters + count t (k.semas s).waiters ≤ 1
  pub idle : k.idle_thread ≢ none

pub count-insert :
    (less : ℕ → ℕ → Bool) (t x : ℕ) (xs : List ℕ)
    → count t (list_insert_ordered less x xs) ≡ count t (x ∷ xs)
count-insert less t x xs = omega (
  arith,
  count-eq-tally t (list_insert_ordered less x xs),
  count-eq-tally t (x ∷ xs),
  tally-insert less (λ y. y == t) x xs,
)

-- `thread_unblock` of a blocked thread that is not the idle thread and does not stand in the list of
-- sleepers or among the waiters of a semaphore returns, and keeps the invariant.
pub unblock-IsValid :
    (t : ℕ) (k : Kernel)
    → IsValid k
    → is_idle k t ≡ false
    → is_blocked (k.threads t).status ≡ true
    → count t k.sleep_list ≡ 0
    → ((s : ℕ) → count t (k.semas s).waiters ≡ 0)
    → Returns IsValid (thread_unblock t k)
unfolding thread_unblock
unblock-IsValid t k v idle b z w = rw b (record {
  runs = ground (arith, v.runs);
  only = λ u h. ground (arith, v.only u);
  queued = λ u. ground (arith, v.queued u, count-insert (cmp_priority k) u t k.ready_list);
  parked = λ s u. ground (arith, v.parked s u, w s);
  apart = v.apart;
  idle = v.idle;
})

switch-IsValid :
    (next : ℕ) (k : Kernel)
    → ((t : ℕ) → is_running (k.threads t).status ≡ false)
    → ((t : ℕ) → count t k.ready_list ≡ (if t == next then 0 else places k t))
    → ((s t : ℕ)
        → count t (k.semas s).waiters + count t k.sleep_list ≤ (if t == next then 0 else beds k t))
    → ((r s t : ℕ)
        → (r == s) ≡ false
        → count t (k.semas r).waiters + count t (k.semas s).waiters ≤ 1)
    → k.idle_thread ≢ none
    → IsValid (switch_to next k)
unfolding switch_to
switch-IsValid next k h q p a i = record {
  runs = ground arith;
  only = λ t e. ground (arith, h t);
  queued = λ t. ground (arith, q t);
  parked = λ s t. ground (arith, p s t);
  apart = λ r s t ne. ground (arith, a r s t);
  idle = ground arith;
}

next-IsValid :
    (k : Kernel) (ts : List ℕ)
    → IsHalted k
    → k.ready_list ≡ ts
    → Returns (λ (next, k'). IsValid (switch_to next k')) (next_of k ts)
next-IsValid k [] h e = elim (Option-cases k.idle_thread) [
  | inl n ↦ absurd (h.idle n)
  | inr (i, s) ↦ simp s (
      switch-IsValid i k h.halted (λ t. ground (arith, h.queued t))
        (λ q t. ground (arith, h.parked q t)) h.apart h.idle)
]
next-IsValid k (t ∷ ts) h e =
    switch-IsValid t (record k { ready_list = ts }) h.halted
      (λ u. ground (arith, h.queued u, h.queued t))
      (λ s u. ground (arith, h.queued t, h.parked s u)) h.apart h.idle

pub schedule-IsValid : (k : Kernel) → IsHalted k → Returns IsValid (schedule k)
unfolding schedule next_thread_to_run
schedule-IsValid k h =
    Returns-bind (λ (next, k'). IsValid (switch_to next k')) IsValid (next_of k k.ready_list) _
      (next-IsValid k k.ready_list h refl) λ (next, k') v. rw (h.halted k.current) v

pub block_halted :
    (k : Kernel)
    → IsHalted (set_status k.current blocked k)
    → k.in_interrupt ≡ false
    → Returns IsValid (thread_block k)
unfolding thread_block
block_halted k h n =
    assert-true IsValid (not k.in_interrupt) _ (ground arith)
      (schedule-IsValid (set_status k.current blocked k) h)

-- Outside an interrupt handler `thread_block` returns, and keeps the invariant.
pub block-IsValid :
    (k : Kernel) → IsValid k → k.in_interrupt ≡ false → Returns IsValid (thread_block k)
block-IsValid k v n =
    block_halted k
      (record {
        halted = λ t. ground (arith, v.only t);
        queued = λ t. ground (arith, v.queued t, v.runs);
        parked = λ s t. ground (arith, v.parked s t, v.runs);
        apart = v.apart;
        idle = v.idle;
      })
      n

do_schedule-IsValid :
    (s : Status) (k : Kernel)
    → is_running (k.threads k.current).status ≡ true
    → IsHalted (set_status k.current s k)
    → Returns IsValid (do_schedule s k)
unfolding do_schedule
do_schedule-IsValid s k r h = assert-true IsValid (is_running (k.threads k.current).status) _ r (
    schedule-IsValid
      (set_status k.current s
        (record k { destruction_req = []; freed = k.freed ++ k.destruction_req }))
      (record {
        halted = h.halted;
        queued = h.queued;
        parked = h.parked;
        apart = h.apart;
        idle = h.idle;
      }))

-- On a well-formed kernel, outside an interrupt handler, `thread_yield` returns, and the kernel
-- stays well formed.
pub yield-IsValid :
    (k : Kernel) → IsValid k → k.in_interrupt ≡ false → Returns IsValid (thread_yield k)
unfolding thread_yield
yield-IsValid k v n = assert-true IsValid (not k.in_interrupt) _ (ground arith) (
    do_schedule-IsValid ready (if is_idle k k.current then k else insert_ready k.current k)
      (ground (arith, v.runs))
      (record {
        halted = λ t. ground (arith, v.only t);
        queued = λ t.
            ground
              (arith, v.queued t, v.runs, count-insert (cmp_priority k) t k.current k.ready_list);
        parked = λ s t. ground (arith, v.parked s t, v.runs);
        apart = λ r s t ne. ground (arith, v.apart r s t);
        idle = ground (arith, v.idle);
      }))

-- On a well-formed kernel, outside an interrupt handler, `thread_exit` hands the processor on, and
-- the kernel stays well formed.
pub exit-IsValid :
    (k : Kernel) → IsValid k → k.in_interrupt ≡ false → Returns IsValid (thread_exit k)
unfolding thread_exit
exit-IsValid k v n = assert-true IsValid (not k.in_interrupt) _ (ground arith) (
    do_schedule-IsValid dying (record k { all_list = keep (λ t. not (t == k.current)) k.all_list })
      v.runs
      (record {
        halted = λ t. ground (arith, v.only t);
        queued = λ t. ground (arith, v.queued t, v.runs);
        parked = λ s t. ground (arith, v.parked s t, v.runs);
        apart = v.apart;
        idle = v.idle;
      }))

-- `thread_compare_priority` returns and keeps the invariant, whether it yields or not.
pub compare-IsValid : (k : Kernel) → IsValid k → Returns IsValid (thread_compare_priority k)
unfolding thread_compare_priority
compare-IsValid k v =
    Returns-if IsValid k.in_interrupt _ _ (λ i. v)
      λ n. Returns-if IsValid (outranked k k.ready_list) _ _ (λ o. yield-IsValid k v n) (λ o. v)

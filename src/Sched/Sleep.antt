-- ===== src/Sched/Sleep.antt =====
-- `thread_sleep` and `thread_awake` of threads/thread.c keep the invariant of the scheduler.
use pintos_vm.Base.{
  ℕ, ◌≡◌, sym, subst, false, not, some, List, [], ◌∷◌, ◌++◌, arith, update, count-append, Returns,
  Returns-bind, assert-true, Returns-if,
}
use mathlib.Core.List.{append_assoc}
use pintos_vm.Base.Int.{ℤ, leb_ℤ}
use pintos_vm.Sched.{
  blocked, Kernel, is_blocked, set_status, cmp_priority, is_idle, thread_unblock, thread_block,
  thread_sleep, awake_from, thread_awake,
}
use pintos_vm.Sched.Invariant.{schedule-IsValid, IsValid, count-insert}

-- On a well-formed kernel, outside an interrupt handler, `thread_sleep` returns, and the kernel
-- stays well formed.
pub sleep-IsValid :
    (ticks : ℤ) (k : Kernel)
    → IsValid k
    → k.in_interrupt ≡ false
    → Returns IsValid (thread_sleep ticks k)
unfolding thread_sleep thread_block
sleep-IsValid ticks k v n =
    Returns-if IsValid (is_idle k k.current) _ _ (λ i. v)
      λ i. assert-true IsValid (not k.in_interrupt) _ (ground arith) (
        schedule-IsValid
          (set_status k.current blocked (record k {
            threads = update k.threads k.current (record (k.threads k.current) { awake = ticks });
            sleep_list = k.sleep_list ++ (k.current ∷ []);
          }))
          (record {
            halted = λ t. ground (arith, v.only t);
            queued = λ t. ground (arith, v.queued t, v.runs);
            apart = v.apart;
            parked = λ s t.
                ground (arith, v.parked s t, v.runs, count-append t k.sleep_list (k.current ∷ []));
            idle = v.idle;
          }))

wake-IsValid :
    (t : ℕ) (ts kept : List ℕ) (k : Kernel)
    → IsValid (record k { sleep_list = kept ++ (t ∷ ts) })
    → Returns (λ k'. IsValid (record k' { sleep_list = kept ++ ts })) (thread_unblock t k)
unfolding thread_unblock
wake-IsValid t ts kept k v =
    assert-true (λ k'. IsValid (record k' { sleep_list = kept ++ ts }))
      (is_blocked (k.threads t).status) _
      (ground (arith, v.parked 0 t, count-append t kept (t ∷ ts)))
      (record {
        runs = ground (arith, v.runs, v.parked 0 t, count-append t kept (t ∷ ts));
        only = λ u h. ground (arith, v.only u);
        queued = λ u. ground (
          arith,
          v.queued u,
          v.parked 0 t,
          count-append t kept (t ∷ ts),
          count-insert (cmp_priority k) u t k.ready_list,
        );
        parked = λ s u.
            ground (arith, v.parked s u, count-append u kept (t ∷ ts), count-append u kept ts);
        apart = v.apart;
        idle = v.idle;
      })

-- The loop of `thread_awake`, with the sleepers that it has passed in `kept`.
awake_from-IsValid :
    (ticks : ℤ) (ts kept : List ℕ) (k : Kernel)
    → IsValid (record k { sleep_list = kept ++ ts })
    → Returns
        (λ (rest, k'). IsValid (record k' { sleep_list = kept ++ rest }))
        (awake_from ticks ts k)
unfolding awake_from
awake_from-IsValid ticks [] kept k v = v
awake_from-IsValid ticks (t ∷ ts) kept k v =
    Returns-if (λ (rest, k'). IsValid (record k' { sleep_list = kept ++ rest }))
      (leb_ℤ (k.threads t).awake ticks) _ _
      (λ due.
        Returns-bind (λ k'. IsValid (record k' { sleep_list = kept ++ ts }))
          (λ (rest, k'). IsValid (record k' { sleep_list = kept ++ rest })) (thread_unblock t k)
          (awake_from ticks ts) (wake-IsValid t ts kept k v)
          λ k' v'. awake_from-IsValid ticks ts kept k' v')
      λ asleep.
        Returns-bind (λ (rest, k'). IsValid (record k' { sleep_list = (kept ++ (t ∷ [])) ++ rest }))
          (λ (rest, k'). IsValid (record k' { sleep_list = kept ++ rest })) (awake_from ticks ts k)
          (λ (rest, k'). some (t ∷ rest, k'))
          (awake_from-IsValid ticks ts (kept ++ (t ∷ [])) k (
            subst (λ l. IsValid (record k { sleep_list = l })) (sym (append_assoc kept (t ∷ []) ts))
              v))
          λ (rest, k') v'.
            subst (λ l. IsValid (record k' { sleep_list = l })) (append_assoc kept (t ∷ []) rest) v'

-- On a well-formed kernel `thread_awake` returns, and the kernel stays well formed.
pub awake-IsValid : (ticks : ℤ) (k : Kernel) → IsValid k → Returns IsValid (thread_awake ticks k)
unfolding thread_awake
awake-IsValid ticks k v =
    Returns-bind (λ (rest, k'). IsValid (record k' { sleep_list = rest })) IsValid
      (awake_from ticks k.sleep_list k) _ (awake_from-IsValid ticks k.sleep_list [] k v)
      λ (rest, k') v'. v'

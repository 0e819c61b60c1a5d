-- ===== src/Sync/Semaphores.antt =====
-- The semaphores of threads/synch.c.
use pintos_vm.Base.{
  ℕ, ◌≡◌, false, not, List, [], ◌∷◌, ◌==◌, arith, count, count-eq-tally, SameItems, Returns,
  Returns-bind, Returns-mono, assert-true, Returns-if,
}
use pintos_vm.KernelList.Sort.{list_insert_ordered, list_sort}
use pintos_vm.KernelList.Sort.Sorted.{list_sort_lem}
use pintos_vm.Sched.{Kernel, is_idle, priority_of, cmp_priority, thread_unblock, thread_block}
use pintos_vm.Sched.Invariant.{
  IsValid, unblock-IsValid, block_halted, compare-IsValid, count-insert,
}
use pintos_vm.Sched.Policy.{higher, higher-IsOrder}
use pintos_vm.Sync.{set_sema, sema_down, sema_try_down, wake_first, add_one, sema_up}

pub sema_down-IsValid :
    (sema : ℕ) (k : Kernel)
    → IsValid k
    → k.in_interrupt ≡ false
    → is_idle k k.current ≡ false
    → Returns (λ (done, k'). IsValid k') (sema_down sema k)
unfolding sema_down
sema_down-IsValid sema k v n i = assert-true _ (not k.in_interrupt) _ (ground arith) (
    Returns-if _ ((k.semas sema).value == 0) _ _
      (λ z.
        Returns-bind IsValid (λ (done, k'). IsValid k') (thread_block k₁) _
          (block_halted k₁
            (record {
              halted = λ t. ground (arith, v.only t);
              queued = λ t. ground (arith, v.queued t, v.runs);
              parked = λ s t. ground (
                arith,
                v.parked s t,
                v.runs,
                count-insert (cmp_priority k) t k.current (k.semas sema).waiters,
              );
              apart = λ r s t ne. ground (
                arith,
                v.apart r s t,
                v.parked r t,
                v.parked s t,
                v.runs,
                count-insert (cmp_priority k) t k.current (k.semas sema).waiters,
              );
              idle = v.idle;
            })
            n)
          λ k' v'. v')
      λ z. record {
        runs = v.runs;
        only = v.only;
        queued = v.queued;
        parked = λ s t. ground (arith, v.parked s t);
        apart = λ r s t ne. ground (arith, v.apart r s t);
        idle = v.idle;
      })
  where
    k₁ : Kernel
    k₁ =
        set_sema sema
          (record (k.semas sema) {
            waiters = list_insert_ordered (cmp_priority k) k.current (k.semas sema).waiters;
          })
          k

pub try_down-IsValid : (sema : ℕ) (k : Kernel) → IsValid k → IsValid (sema_try_down sema k).1
unfolding sema_try_down
try_down-IsValid sema k v = record {
  runs = ground (arith, v.runs);
  only = λ t h. ground (arith, v.only t);
  queued = λ t. ground (arith, v.queued t);
  parked = λ s t. ground (arith, v.parked s t);
  apart = λ r s t ne. ground (arith, v.apart r s t);
  idle = ground (arith, v.idle);
}

count-SameItems : (xs ys : List ℕ) (t : ℕ) → SameItems xs ys → count t xs ≡ count t ys
count-SameItems xs ys t p = omega (arith, count-eq-tally t xs, count-eq-tally t ys, p (λ x. x == t))

-- Waking the first of the waiters, in any order of them, and adding one to the value.
wake-IsValid :
    (sema : ℕ) (ts : List ℕ) (k : Kernel)
    → IsValid k
    → ((t : ℕ) → count t ts ≡ count t (k.semas sema).waiters)
    → Returns (λ k'. IsValid (add_one sema k')) (wake_first sema ts k)
wake-IsValid sema [] k v c = record {
  runs = v.runs;
  only = v.only;
  queued = v.queued;
  parked = λ s t. ground (arith, v.parked s t);
  apart = λ r s t ne. ground (arith, v.apart r s t);
  idle = v.idle;
}
wake-IsValid sema (t ∷ ts) k v c =
    Returns-mono IsValid (λ k'. IsValid (add_one sema k')) (thread_unblock t k₁)
      (unblock-IsValid t k₁ v₁ (ground (arith, v.parked sema t, c t))
        (ground (arith, v.parked sema t, c t)) (ground (arith, v.parked sema t, c t))
        λ s. ground (arith, v.parked sema t, v.parked s t, c t, v.apart sema s t))
      λ k' v'. record {
        runs = v'.runs;
        only = v'.only;
        queued = v'.queued;
        parked = λ s t. ground (arith, v'.parked s t);
        apart = λ r s t ne. ground (arith, v'.apart r s t);
        idle = v'.idle;
      }
  where
    k₁ : Kernel
    k₁ = set_sema sema (record (k.semas sema) { waiters = ts }) k

    v₁ : IsValid k₁
    v₁ = record {
      runs = v.runs;
      only = v.only;
      queued = v.queued;
      parked = λ s u. ground (arith, v.parked s u, c u);
      apart = λ r s u ne. ground (arith, v.apart r s u, c u);
      idle = v.idle;
    }

pub sema_up-IsValid : (sema : ℕ) (k : Kernel) → IsValid k → Returns IsValid (sema_up sema k)
unfolding sema_up
sema_up-IsValid sema k v =
    let (_, p, _) =
      list_sort_lem (higher (priority_of k)) (higher-IsOrder (priority_of k))
        (k.semas sema).waiters in
    Returns-bind (λ k'. IsValid (add_one sema k')) IsValid _ _
      (wake-IsValid sema (list_sort (cmp_priority k) (k.semas sema).waiters) k v
        (λ t. count-SameItems _ (k.semas sema).waiters t p))
      λ k' v'. compare-IsValid (add_one sema k') v'

-- ===== src/Sched/Frame.antt =====
-- What the scheduling calls of threads/thread.c leave alone: locks, semaphores, condition variables.
use pintos_vm.Base.{
  ℕ, ◌≡◌, refl, ◌∙◌, Bool, true, false, not, Option, none, some, List, [], ◌∷◌, ◌++◌, arith,
  if◌then◌else◌, ◌>>=◌, ◌>>◌, assert,
}
use pintos_vm.Sched.{
  Status, ready, blocked, Kernel, is_running, set_status, is_idle, insert_ready, thread_unblock,
  next_of, next_thread_to_run, switch_to, schedule, do_schedule, thread_block, thread_yield,
  thread_compare_priority, outranked,
}

-- The same synchronisation objects, and the same fields of each thread but its status.
pub record SameObjects (k k' : Kernel) : Type 0 where
  pub locks : k'.locks ≡ k.locks
  pub semas : k'.semas ≡ k.semas
  pub waits : (t : ℕ) → (k'.threads t).wait_on_lock ≡ (k.threads t).wait_on_lock

-- Where a call returns at all, it keeps them.
abbrev pub Keeps : Kernel → Option Kernel → Type 0
Keeps k none = Unit
Keeps k (some k') = SameObjects k k'

same_objects : (k : Kernel) → SameObjects k k
same_objects k = record { locks = refl; semas = refl; waits = λ t. refl }

Keeps-assert : (k : Kernel) (b : Bool) (m : Option Kernel) → Keeps k m → Keeps k (assert b >> m)
Keeps-assert k true m h = h
Keeps-assert k false m h = tt

Keeps-if :
    (k : Kernel) (b : Bool) (m n : Option Kernel)
    → Keeps k m
    → Keeps k n
    → Keeps k (if b then m else n)
Keeps-if k true m n h h' = h
Keeps-if k false m n h h' = h'

Keeps-trans : (k k₁ : Kernel) (m : Option Kernel) → SameObjects k k₁ → Keeps k₁ m → Keeps k m
Keeps-trans k k₁ none s h = tt
Keeps-trans k k₁ (some k₂) s h = record {
  locks = h.locks ∙ s.locks;
  semas = h.semas ∙ s.semas;
  waits = λ t. h.waits t ∙ s.waits t;
}

set_status-SameObjects : (t : ℕ) (s : Status) (k : Kernel) → SameObjects k (set_status t s k)
set_status-SameObjects t s k = record { locks = refl; semas = refl; waits = λ u. ground arith }

switch-SameObjects : (next : ℕ) (k : Kernel) → SameObjects k (switch_to next k)
unfolding switch_to
switch-SameObjects next k = record {
  locks = ground arith;
  semas = ground arith;
  waits = λ t. ground arith;
}

schedule-Keeps : (k : Kernel) → Keeps k (schedule k)
unfolding schedule next_thread_to_run
schedule-Keeps k = chosen k.ready_list
  where
    chosen :
        (ts : List ℕ)
        → Keeps k (
            next_of k ts >>= λ (next, k').
            assert (not (is_running (k.threads k.current).status)) >> some (switch_to next k'))
    chosen [] = found k.idle_thread
      where
        found :
            (i : Option ℕ)
            → Keeps k (
                (i >>= λ t. some (t, k)) >>= λ (next, k').
                assert (not (is_running (k.threads k.current).status)) >> some (switch_to next k'))
        found none = tt
        found (some t) = Keeps-assert k _ (some (switch_to t k)) (switch-SameObjects t k)
    chosen (t ∷ ts) = Keeps-assert k _ (some (switch_to t (record k { ready_list = ts }))) (
        Keeps-trans k (record k { ready_list = ts })
          (some (switch_to t (record k { ready_list = ts })))
          (record { locks = refl; semas = refl; waits = λ u. refl })
          (switch-SameObjects t (record k { ready_list = ts })))

pub block-Keeps : (k : Kernel) → Keeps k (thread_block k)
unfolding thread_block
block-Keeps k = Keeps-assert k _ _ (
    Keeps-trans k (set_status k.current blocked k) _ (set_status-SameObjects k.current blocked k)
      (schedule-Keeps (set_status k.current blocked k)))

do_schedule-Keeps : (s : Status) (k : Kernel) → Keeps k (do_schedule s k)
unfolding do_schedule
do_schedule-Keeps s k = Keeps-assert k _ _ (
    Keeps-trans k (set_status k.current s k₁) (schedule (set_status k.current s k₁))
      (record { locks = refl; semas = refl; waits = λ u. ground arith })
      (schedule-Keeps (set_status k.current s k₁)))
  where
    k₁ : Kernel
    k₁ = record k { destruction_req = []; freed = k.freed ++ k.destruction_req }

requeue-SameObjects :
    (k : Kernel) (b : Bool) → SameObjects k (if b then k else insert_ready k.current k)
requeue-SameObjects k true = same_objects k
requeue-SameObjects k false = record { locks = refl; semas = refl; waits = λ u. refl }

yield-Keeps : (k : Kernel) → Keeps k (thread_yield k)
unfolding thread_yield
yield-Keeps k = Keeps-assert k _ _ (
    Keeps-trans k k₀ (do_schedule ready k₀) (requeue-SameObjects k (is_idle k k.current))
      (do_schedule-Keeps ready k₀))
  where
    k₀ : Kernel
    k₀ = if is_idle k k.current then k else insert_ready k.current k

pub compare-Keeps : (k : Kernel) → Keeps k (thread_compare_priority k)
unfolding thread_compare_priority
compare-Keeps k =
    Keeps-if k k.in_interrupt _ _ (same_objects k)
      (Keeps-if k (outranked k k.ready_list) _ _ (yield-Keeps k) (same_objects k))

pub unblock-Keeps : (t : ℕ) (k : Kernel) → Keeps k (thread_unblock t k)
unfolding thread_unblock
unblock-Keeps t k =
    Keeps-assert k _ (some (set_status t ready (insert_ready t k)))
      (record { locks = refl; semas = refl; waits = λ u. ground arith })

-- ===== src/Sched/Same.antt =====
-- Changes of the kernel of threads/thread.c that the invariant of the scheduler does not speak of.
use pintos_vm.Base.{ℕ, ◌≡◌, refl, ◌∙◌, arith}
use pintos_vm.Sched.{Kernel, thread_tick}
use pintos_vm.Sched.Invariant.{IsValid}

-- Two states that differ in nothing the invariant speaks of.
pub record SameSchedule (k k' : Kernel) : Type 0 where
  pub statuses : (t : ℕ) → (k'.threads t).status ≡ (k.threads t).status
  pub same_current : k'.current ≡ k.current
  pub same_idle : k'.idle_thread ≡ k.idle_thread
  pub same_ready : k'.ready_list ≡ k.ready_list
  pub same_sleep : k'.sleep_list ≡ k.sleep_list
  pub same_semas : k'.semas ≡ k.semas
  pub same_locks : k'.locks ≡ k.locks
  pub same_context : k'.in_interrupt ≡ k.in_interrupt

pub SameSchedule-IsValid : (k k' : Kernel) → SameSchedule k k' → IsValid k → IsValid k'
SameSchedule-IsValid k k' s v = record {
  runs = ground (arith, v.runs, s.statuses k.current, s.same_current);
  only = λ t h. ground (arith, v.only t, s.statuses t, s.same_current);
  queued = λ t. ground (arith, v.queued t, s.statuses t, s.same_idle, s.same_ready);
  parked =
      λ r t. ground (arith, v.parked r t, s.statuses t, s.same_idle, s.same_sleep, s.same_semas);
  apart = λ q r t ne. ground (arith, v.apart q r t, s.same_semas);
  idle = ground (arith, v.idle, s.same_idle);
}

pub SameSchedule-trans :
    (k k₁ k₂ : Kernel) → SameSchedule k k₁ → SameSchedule k₁ k₂ → SameSchedule k k₂
SameSchedule-trans k k₁ k₂ s r = record {
  statuses = λ t. r.statuses t ∙ s.statuses t;
  same_current = r.same_current ∙ s.same_current;
  same_idle = r.same_idle ∙ s.same_idle;
  same_ready = r.same_ready ∙ s.same_ready;
  same_sleep = r.same_sleep ∙ s.same_sleep;
  same_semas = r.same_semas ∙ s.same_semas;
  same_locks = r.same_locks ∙ s.same_locks;
  same_context = r.same_context ∙ s.same_context;
}

pub same_schedule : (k : Kernel) → SameSchedule k k
same_schedule k = record {
  statuses = λ u. refl;
  same_current = refl;
  same_idle = refl;
  same_ready = refl;
  same_sleep = refl;
  same_semas = refl;
  same_locks = refl;
  same_context = refl;
}

pub thread_tick-SameSchedule : (k : Kernel) → SameSchedule k (thread_tick k)
unfolding thread_tick
thread_tick-SameSchedule k = record {
  statuses = λ t. ground arith;
  same_current = ground arith;
  same_idle = ground arith;
  same_ready = ground arith;
  same_sleep = ground arith;
  same_semas = ground arith;
  same_locks = ground arith;
  same_context = ground arith;
}

pub thread_tick-rest :
    (k : Kernel) → ((thread_tick k).all_list ≡ k.all_list) × ((thread_tick k).threads ≡ k.threads)
unfolding thread_tick
thread_tick-rest k = ground arith

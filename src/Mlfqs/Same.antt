-- ===== src/Mlfqs/Same.antt =====
-- The functions of the advanced scheduler change no list, no status and no semaphore.
use pintos_vm.Base.{
  ℕ, ◌≡◌, refl, false, not, List, [], ◌∷◌, ◌==◌, length, arith, ◌∙◌, Bool, true, update,
  if◌then◌else◌, Returns, assert-true,
}
use pintos_vm.Base.Int.{ℤ, pos}
use pintos_vm.Sched.{Kernel, Thread, is_idle, set_priority}
use pintos_vm.Sched.Same.{SameSchedule, same_schedule, SameSchedule-trans}
use pintos_vm.Mlfqs.{
  calculate_priority, calculate_recent_cpu, calculate_load_avg, decay_from, rank_from,
  recalculate_recent_cpu, recalculate_priority, set_recent_cpu, decayed, priority_from, add_xandn,
}

-- Two states with the same schedule, the same list of all threads, and the same alarms.
pub record IsAlike (k k' : Kernel) : Type 0 where
  pub schedule : SameSchedule k k'
  pub all : k'.all_list ≡ k.all_list
  pub alarms : (t : ℕ) → (k'.threads t).awake ≡ (k.threads t).awake

alike : (k : Kernel) → IsAlike k k
alike k = record { schedule = same_schedule k; all = refl; alarms = λ t. refl }

if-IsAlike :
    (k a b : Kernel) (c : Bool) → IsAlike k a → IsAlike k b → IsAlike k (if c then a else b)
if-IsAlike k a b true x y = x
if-IsAlike k a b false x y = y

pub IsAlike-trans : (k k' k'' : Kernel) → IsAlike k k' → IsAlike k' k'' → IsAlike k k''
IsAlike-trans k k' k'' a b = record {
  schedule = SameSchedule-trans k k' k'' a.schedule b.schedule;
  all = b.all ∙ a.all;
  alarms = λ t. b.alarms t ∙ a.alarms t;
}

threads-IsAlike :
    (threads : ℕ → Thread) (k : Kernel)
    → ((t : ℕ) → (threads t).status ≡ (k.threads t).status)
    → ((t : ℕ) → (threads t).awake ≡ (k.threads t).awake)
    → IsAlike k (record k { threads = threads })
threads-IsAlike threads k h a = record {
  schedule = record {
    statuses = h;
    same_current = refl;
    same_idle = refl;
    same_ready = refl;
    same_sleep = refl;
    same_semas = refl;
    same_locks = refl;
    same_context = refl;
  };
  all = refl;
  alarms = a;
}

set_recent_cpu-IsAlike : (t : ℕ) (r : ℤ) (k : Kernel) → IsAlike k (set_recent_cpu t r k)
set_recent_cpu-IsAlike t r k =
    threads-IsAlike (update k.threads t (record (k.threads t) { recent_cpu = r })) k
      (λ u. ground arith) λ u. ground arith

set_priority-IsAlike : (t : ℕ) (p : ℤ) (k : Kernel) → IsAlike k (set_priority t p k)
set_priority-IsAlike t p k =
    threads-IsAlike (update k.threads t (record (k.threads t) { priority = p })) k
      (λ u. ground arith) λ u. ground arith

pub calculate_priority-IsAlike : (t : ℕ) (k : Kernel) → IsAlike k (calculate_priority t k)
unfolding calculate_priority
calculate_priority-IsAlike t k =
    if-IsAlike k k (set_priority t _ k) (is_idle k t) (alike k)
      (set_priority-IsAlike t (priority_from (k.threads t).recent_cpu (k.threads t).nice) k)

pub calculate_recent_cpu-IsAlike : (k : Kernel) → IsAlike k (calculate_recent_cpu k)
unfolding calculate_recent_cpu
calculate_recent_cpu-IsAlike k =
    if-IsAlike k (set_recent_cpu k.current _ k) k (not (is_idle k k.current))
      (set_recent_cpu-IsAlike k.current (add_xandn (k.threads k.current).recent_cpu (pos 1)) k)
      (alike k)

pub calculate_load_avg-IsAlike : (k : Kernel) → IsAlike k (calculate_load_avg k)
unfolding calculate_load_avg
calculate_load_avg-IsAlike k = record {
  schedule = record {
    statuses = λ t. refl;
    same_current = refl;
    same_idle = refl;
    same_ready = refl;
    same_sleep = refl;
    same_semas = refl;
    same_locks = refl;
    same_context = refl;
  };
  all = refl;
  alarms = λ t. refl;
}

decay_from-IsAlike : (ts : List ℕ) (k : Kernel) → IsAlike k (decay_from ts k)
unfolding decay_from
decay_from-IsAlike [] k = alike k
decay_from-IsAlike (t ∷ ts) k =
    let r = decayed k.load_avg (k.threads t).recent_cpu (k.threads t).nice in
    let k' = set_recent_cpu t r k in
    IsAlike-trans k k' (decay_from ts k') (set_recent_cpu-IsAlike t r k) (decay_from-IsAlike ts k')

rank_from-IsAlike : (ts : List ℕ) (k : Kernel) → IsAlike k (rank_from ts k)
unfolding rank_from
rank_from-IsAlike [] k = alike k
rank_from-IsAlike (t ∷ ts) k =
    let k' = calculate_priority t k in
    IsAlike-trans k k' (rank_from ts k') (calculate_priority-IsAlike t k) (rank_from-IsAlike ts k')

pub recalculate_recent_cpu-IsAlike :
    (k : Kernel) → (length k.all_list == 0) ≡ false → Returns (IsAlike k) (recalculate_recent_cpu k)
unfolding recalculate_recent_cpu
recalculate_recent_cpu-IsAlike k h =
    assert-true (IsAlike k) (not (length k.all_list == 0)) _ (ground arith)
      (decay_from-IsAlike k.all_list k)

pub recalculate_priority-IsAlike :
    (k : Kernel) → (length k.all_list == 0) ≡ false → Returns (IsAlike k) (recalculate_priority k)
unfolding recalculate_priority
recalculate_priority-IsAlike k h =
    assert-true (IsAlike k) (not (length k.all_list == 0)) _ (ground arith)
      (rank_from-IsAlike k.all_list k)

-- ===== src/Sched/Sample.antt =====
-- A small kernel for the tests of threads/thread.c and threads/synch.c.
use pintos_vm.Base.{
  ℕ, refl, false, Option, none, some, List, [], ◌∷◌, ◌==◌, update, arith, if◌then◌else◌,
}
use pintos_vm.Base.Int.{pos}
use pintos_vm.Sched.{Status, running, ready, blocked, dying, Thread, Semaphore, Lock, Kernel}
use pintos_vm.Sched.Invariant.{IsValid}
use pintos_vm.Sched.Policy.{IsOrdered}

abbrev pub thread_of : ℕ → Status → ℕ → Option ℕ → List ℕ → Thread
thread_of tid status priority lock donors = record {
  tid = tid;
  status = status;
  priority = pos priority;
  init_priority = pos 31;
  awake = pos 100;
  wait_on_lock = lock;
  donations = donors;
  nice = pos 0;
  recent_cpu = pos 0;
  user = false;
  child_list = [];
}

-- 1 runs, 2 and 6 are ready, 3 waits for semaphore 9, 4 is the idle thread, and 5 sleeps until tick 100.
-- 2 holds lock 7, and 1 holds lock 8, whose semaphore is 9, on which 3 waits.
abbrev pub threads : ℕ → Thread
threads t =
    if t == 1
    then thread_of 1 running 40 none (3 ∷ [])
    else (if t == 2
        then thread_of 2 ready 31 none []
        else (if t == 3
            then thread_of 3 blocked 40 (some 8) []
            else (if t == 4
                then thread_of 4 blocked 0 none []
                else (if t == 5
                    then thread_of 5 blocked 33 none []
                    else (if t == 6
                        then thread_of 6 ready 31 none []
                        else thread_of 0 dying 0 none [])))))

abbrev pub semas : ℕ → Semaphore
semas s =
    if s == 9
    then record { value = 0; waiters = 3 ∷ [] }
    else (if s == 11
        then record { value = 1; waiters = [] }
        else record { value = 0; waiters = [] })

abbrev pub locks : ℕ → Lock
locks l =
    if l == 7
    then record { holder = some 2; semaphore = 10 }
    else (if l == 8
        then record { holder = some 1; semaphore = 9 }
        else record { holder = none; semaphore = 11 })

abbrev pub kernel : Kernel
kernel = record {
  threads = threads;
  semas = semas;
  locks = locks;
  conds = λ c. [];
  current = 1;
  idle_thread = some 4;
  initial_thread = 6;
  all_list = 1 ∷ 2 ∷ 3 ∷ 4 ∷ 5 ∷ 6 ∷ [];
  ready_list = 6 ∷ 2 ∷ [];
  sleep_list = 5 ∷ [];
  destruction_req = [];
  freed = [];
  next_tid = 7;
  thread_ticks = 0;
  idle_ticks = 0;
  kernel_ticks = 0;
  user_ticks = 0;
  yield_on_return = false;
  in_interrupt = false;
  mlfqs = false;
  load_avg = pos 0;
}

pub kernel-IsValid : IsValid kernel
kernel-IsValid = record {
  runs = refl;
  only = λ t h. ground arith;
  queued = λ t. ground arith;
  parked = λ s t. ground arith;
  apart = λ r s t ne. ground arith;
  idle = λ e. cc;
}

-- Its run queue is in order.
pub kernel-IsOrdered : IsOrdered kernel
kernel-IsOrdered = ((refl, tt), (tt, tt))

-- The same while 1 waits for lock 7, which 2 holds.
abbrev pub waiting : Kernel
waiting = record kernel {
  threads = update threads 1 (record (threads 1) { wait_on_lock = some 7 });
}

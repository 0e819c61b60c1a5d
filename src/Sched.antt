-- ===== src/Sched.antt =====
-- threads/thread.c and include/threads/thread.h: threads, the run queue, and the scheduler. A thread is
-- its address, and so are locks, semaphores and condition variables. `none` is a failed ASSERT or a
-- null pointer that is followed. Interrupts are off wherever these functions change the state, so each
-- call is one step.
pub mod Invariant
pub mod Sleep
pub mod Wake
pub mod Same
pub mod Policy
pub mod Frame
pub mod Donation
pub mod Sample
mod Tests
use pintos_vm.Base.{
  ℕ, zero, suc, ◌+◌, ◌≡◌, Bool, true, false, not, ◌&&◌, ◌||◌, Option, none, some, List, [], ◌∷◌,
  ◌++◌, ◌==◌, leb, if◌then◌else◌, update, same, keep, ◌>>=◌, ◌>>◌, assert,
}
use pintos_vm.Base.Int.{ℤ, pos, ltb_ℤ, leb_ℤ}
use pintos_vm.KernelList.Sort.{list_insert_ordered}

-- `enum thread_status`
pub data Status : Type 0 where
  running ready blocked dying : Status

-- The fields of `struct thread` that the scheduler and the locks use; `user` says that `pml4` is set.
pub record Thread : Type 0 where
  pub tid : ℕ
  pub status : Status
  pub priority : ℤ
  pub init_priority : ℤ
  pub awake : ℤ
  pub wait_on_lock : Option ℕ
  pub donations : List ℕ
  pub nice : ℤ
  pub recent_cpu : ℤ
  pub user : Bool
  pub child_list : List ℕ

-- `struct semaphore` and `struct lock` of include/threads/synch.h; a lock names its semaphore.
pub record Semaphore : Type 0 where
  pub value : ℕ
  pub waiters : List ℕ

pub record Lock : Type 0 where
  pub holder : Option ℕ
  pub semaphore : ℕ

-- The objects in memory and the static variables of thread.c. `freed` lists the pages that were handed
-- to `palloc_free_page`.
pub record Kernel : Type 0 where
  pub threads : ℕ → Thread
  pub semas : ℕ → Semaphore
  pub locks : ℕ → Lock
  pub conds : ℕ → List ℕ
  pub current : ℕ
  pub idle_thread : Option ℕ
  pub initial_thread : ℕ
  pub all_list : List ℕ
  pub ready_list : List ℕ
  pub sleep_list : List ℕ
  pub destruction_req : List ℕ
  pub freed : List ℕ
  pub next_tid : ℕ
  pub thread_ticks : ℕ
  pub idle_ticks : ℕ
  pub kernel_ticks : ℕ
  pub user_ticks : ℕ
  pub yield_on_return : Bool
  pub in_interrupt : Bool
  pub mlfqs : Bool
  pub load_avg : ℤ

abbrev pub is_running : Status → Bool
is_running running = true
is_running ready = false
is_running blocked = false
is_running dying = false

abbrev pub is_ready : Status → Bool
is_ready running = false
is_ready ready = true
is_ready blocked = false
is_ready dying = false

abbrev pub is_blocked : Status → Bool
is_blocked running = false
is_blocked ready = false
is_blocked blocked = true
is_blocked dying = false

abbrev pub is_dying : Status → Bool
is_dying running = false
is_dying ready = false
is_dying blocked = false
is_dying dying = true

-- `TIME_SLICE`
abbrev pub time_slice : ℕ
time_slice = 4

-- Assignments to a thread's fields.
abbrev pub set_status : ℕ → Status → Kernel → Kernel
set_status t s k = record k { threads = update k.threads t (record (k.threads t) { status = s }) }

abbrev pub set_priority : ℕ → ℤ → Kernel → Kernel
set_priority t p k = record k {
  threads = update k.threads t (record (k.threads t) { priority = p });
}

abbrev pub priority_of : Kernel → ℕ → ℤ
priority_of k t = (k.threads t).priority

abbrev pub cmp_priority : Kernel → ℕ → ℕ → Bool
cmp_priority k a b = ltb_ℤ (priority_of k b) (priority_of k a)

abbrev pub is_idle : Kernel → ℕ → Bool
is_idle k t = same k.idle_thread (some t)

abbrev pub insert_ready : ℕ → Kernel → Kernel
insert_ready t k = record k { ready_list = list_insert_ordered (cmp_priority k) t k.ready_list }

pub thread_unblock : ℕ → Kernel → Option Kernel
thread_unblock t k = do
  assert (is_blocked (k.threads t).status)
  some (set_status t ready (insert_ready t k))

-- The thread to run, and the kernel without it in its run queue.
abbrev pub next_of : Kernel → List ℕ → Option (ℕ × Kernel)
next_of k [] = k.idle_thread >>= λ t. some (t, k)
next_of k (t ∷ ts) = some (t, record k { ready_list = ts })

pub next_thread_to_run : Kernel → Option (ℕ × Kernel)
next_thread_to_run k = next_of k k.ready_list

-- The end of `schedule`, once NEXT is chosen. `process_activate` and `thread_launch` change the address
-- space and the registers; here they make NEXT the running thread.
pub switch_to : ℕ → Kernel → Kernel
switch_to next k =
    let curr = k.current in
    let k' = record (set_status next running k) { thread_ticks = 0 } in
    if curr == next then k' else record k' {
      current = next;
      destruction_req =
          if is_dying (k'.threads curr).status && not (curr == k.initial_thread)
          then k.destruction_req ++ (curr ∷ [])
          else k.destruction_req;
    }

pub schedule : Kernel → Option Kernel
unfolding next_thread_to_run switch_to
schedule k = next_thread_to_run k >>= λ (next, k').
    assert (not (is_running (k.threads k.current).status)) >> some (switch_to next k')

pub do_schedule : Status → Kernel → Option Kernel
unfolding schedule
do_schedule status k = do
  assert (is_running (k.threads k.current).status)
  let k' = record k { destruction_req = []; freed = k.freed ++ k.destruction_req }
  schedule (set_status k'.current status k')

pub thread_block : Kernel → Option Kernel
unfolding schedule
thread_block k = do assert (not k.in_interrupt); schedule (set_status k.current blocked k)

pub thread_yield : Kernel → Option Kernel
unfolding do_schedule
thread_yield k = do
  assert (not k.in_interrupt)
  do_schedule ready (if is_idle k k.current then k else insert_ready k.current k)

-- Without USERPROG's `process_exit`.
pub thread_exit : Kernel → Option Kernel
unfolding do_schedule
thread_exit k = do
  assert (not k.in_interrupt)
  do_schedule dying (record k { all_list = keep (λ t. not (t == k.current)) k.all_list })

pub thread_sleep : ℤ → Kernel → Option Kernel
unfolding thread_block
thread_sleep ticks k =
    if is_idle k k.current
    then some k
    else thread_block (record k {
      threads = update k.threads k.current (record (k.threads k.current) { awake = ticks });
      sleep_list = k.sleep_list ++ (k.current ∷ []);
    })

-- The loop of `thread_awake`: the threads that sleep on, and the kernel.
pub awake_from : ℤ → List ℕ → Kernel → Option (List ℕ × Kernel)
unfolding thread_unblock
awake_from ticks [] k = some ([], k)
awake_from ticks (t ∷ ts) k =
    let woken = thread_unblock t k >>= awake_from ticks ts in
    let asleep = awake_from ticks ts k >>= λ (rest, k'). some (t ∷ rest, k') in
    if leb_ℤ (k.threads t).awake ticks then woken else asleep

pub thread_awake : ℤ → Kernel → Option Kernel
unfolding awake_from
thread_awake ticks k =
    awake_from ticks k.sleep_list k >>= λ (rest, k'). some (record k' { sleep_list = rest })

abbrev pub outranked : Kernel → List ℕ → Bool
outranked k [] = false
outranked k (t ∷ ts) = ltb_ℤ (priority_of k k.current) (priority_of k t)

pub thread_compare_priority : Kernel → Option Kernel
unfolding thread_yield
thread_compare_priority k =
    if k.in_interrupt then some k else (if outranked k k.ready_list then thread_yield k else some k)

pub thread_tick : Kernel → Kernel
thread_tick k = record k' {
  thread_ticks = k.thread_ticks + 1;
  yield_on_return = if leb time_slice (k.thread_ticks + 1) then true else k.yield_on_return;
}
  where
    k' : Kernel
    k' =
        if is_idle k k.current
        then record k { idle_ticks = k.idle_ticks + 1 }
        else (if (k.threads k.current).user
            then record k { user_ticks = k.user_ticks + 1 }
            else record k { kernel_ticks = k.kernel_ticks + 1 })

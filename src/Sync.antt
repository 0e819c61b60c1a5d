-- ===== src/Sync.antt =====
-- threads/synch.c: semaphores, locks and condition variables, over the kernel of threads/thread.c. A
-- call that blocks returns `false` beside the kernel in which another thread runs; the thread makes
-- the rest of the call (`sema_down` again, `lock_finish`) when it is scheduled next.
pub mod Semaphores
pub mod Locks
pub mod Acquire
pub mod Release
mod Tests
use pintos_vm.Base.{
  ℕ, zero, suc, ◌+◌, ◌-◌, ◌≡◌, Bool, true, false, not, ◌&&◌, Option, none, some, List, [], ◌∷◌,
  ◌==◌, ltb, if◌then◌else◌, update, same, ◌>>=◌, ◌>>◌, assert,
}
use pintos_vm.Base.Int.{ℤ, ltb_ℤ}
use pintos_vm.KernelList.Sort.{list_insert_ordered, list_sort}
use pintos_vm.Sched.{
  Thread, Semaphore, Lock, Kernel, priority_of, cmp_priority, thread_unblock, thread_block,
  thread_compare_priority,
}
use pintos_vm.Sched.Donation.{
  cmp_donation_priority, set_donations, remove_donation, re_priority, priority_donation,
}

abbrev pub set_sema : ℕ → Semaphore → Kernel → Kernel
set_sema s x k = record k { semas = update k.semas s x }

abbrev pub set_holder : ℕ → Option ℕ → Kernel → Kernel
set_holder l h k = record k { locks = update k.locks l (record (k.locks l) { holder = h }) }

abbrev pub set_wait : ℕ → Option ℕ → Kernel → Kernel
set_wait t w k = record k {
  threads = update k.threads t (record (k.threads t) { wait_on_lock = w });
}

pub sema_init : ℕ → ℕ → Kernel → Kernel
sema_init sema value k = set_sema sema (record { value = value; waiters = [] }) k

-- One round of the `while` loop of `sema_down`.
pub sema_down : ℕ → Kernel → Option (Bool × Kernel)
sema_down sema k = do
  assert (not k.in_interrupt)
  let x = k.semas sema
  if x.value == 0
      then (thread_block (
            set_sema sema
              (record x { waiters = list_insert_ordered (cmp_priority k) k.current x.waiters }) k)
          >>= λ k'. some (false, k'))
      else some (true, set_sema sema (record x { value = x.value - 1 }) k)

pub sema_try_down : ℕ → Kernel → Bool × Kernel
sema_try_down sema k =
    let x = k.semas sema in
    if ltb 0 x.value then (true, set_sema sema (record x { value = x.value - 1 }) k) else (false, k)

-- The first of the sorted waiters is taken out and unblocked.
abbrev pub wake_first : ℕ → List ℕ → Kernel → Option Kernel
wake_first sema [] k = some k
wake_first sema (t ∷ ts) k =
    thread_unblock t (set_sema sema (record (k.semas sema) { waiters = ts }) k)

abbrev pub add_one : ℕ → Kernel → Kernel
add_one sema k = set_sema sema (record (k.semas sema) { value = (k.semas sema).value + 1 }) k

pub sema_up : ℕ → Kernel → Option Kernel
sema_up sema k = do
  k' ← wake_first sema (list_sort (cmp_priority k) (k.semas sema).waiters) k
  thread_compare_priority (add_one sema k')

-- A lock's semaphore starts at 1.
pub lock_init : ℕ → Kernel → Kernel
unfolding sema_init
lock_init lock k = sema_init (k.locks lock).semaphore 1 (set_holder lock none k)

pub lock_held_by_current_thread : ℕ → Kernel → Bool
lock_held_by_current_thread lock k = same (k.locks lock).holder (some k.current)

-- What `lock_acquire` does before `sema_down`: it donates to the holder, if there is one.
pub lock_begin : ℕ → Kernel → Option Kernel
lock_begin lock k = if k.mlfqs then some k else elim (k.locks lock).holder [
  | none ↦ some k
  | some holder ↦
      let k' = set_wait k.current (some lock) k in
      priority_donation (
        set_donations holder
          (list_insert_ordered (cmp_donation_priority k') k.current (k'.threads holder).donations)
          k')
]

-- `sema_down`, and once it is passed, what `lock_acquire` does after it.
pub lock_finish : ℕ → Kernel → Option (Bool × Kernel)
unfolding sema_down
lock_finish lock k = sema_down (k.locks lock).semaphore k >>= λ (done, k'). some (
    if done
    then (
      true,
      set_holder lock (some k'.current) (if k'.mlfqs then k' else set_wait k'.current none k'),
    )
    else (false, k'))

pub lock_acquire : ℕ → Kernel → Option (Bool × Kernel)
unfolding lock_begin lock_finish lock_held_by_current_thread
lock_acquire lock k = do
  assert (not k.in_interrupt)
  assert (not (lock_held_by_current_thread lock k))
  k' ← lock_begin lock k
  lock_finish lock k'

pub lock_try_acquire : ℕ → Kernel → Option (Bool × Kernel)
unfolding sema_try_down lock_held_by_current_thread
lock_try_acquire lock k = do
  assert (not (lock_held_by_current_thread lock k))
  let (success, k') = sema_try_down (k.locks lock).semaphore k
  some (success, if success then set_holder lock (some k'.current) k' else k')

pub lock_release : ℕ → Kernel → Option Kernel
unfolding sema_up lock_held_by_current_thread
lock_release lock k = do
  assert (lock_held_by_current_thread lock k)
  if k.mlfqs
      then sema_up (k.locks lock).semaphore (set_holder lock none k)
      else (re_priority (remove_donation lock k) >>= λ k'.
          sema_up (k.locks lock).semaphore (set_holder lock none k'))

-- `cond->waiters` holds the semaphores of the `semaphore_elem`s. A semaphore without waiters has no
-- first thread: its list's tail is read as one.
pub cond_init : ℕ → Kernel → Kernel
cond_init cond k = record k { conds = update k.conds cond [] }

abbrev pub first_priority : Kernel → (ℕ → ℤ) → ℕ → ℤ
first_priority k stray s = of_first (k.semas s).waiters
  where
    of_first : List ℕ → ℤ
    of_first [] = stray s
    of_first (t ∷ ts) = priority_of k t

-- `stray s` is what stands in memory where the tail of the list of semaphore `s` is read as a thread.
abbrev pub sema_cmp_priority : Kernel → (ℕ → ℤ) → ℕ → ℕ → Bool
sema_cmp_priority k stray a b = ltb_ℤ (first_priority k stray b) (first_priority k stray a)

-- Up to `lock_release`; the thread then makes `sema_down` on `waiter` and `lock_acquire`.
pub cond_wait_begin : (ℕ → ℤ) → ℕ → ℕ → ℕ → Kernel → Option Kernel
unfolding sema_init lock_release lock_held_by_current_thread
cond_wait_begin stray cond lock waiter k = do
  assert (not k.in_interrupt)
  assert (lock_held_by_current_thread lock k)
  let k' = sema_init waiter 0 k
  lock_release lock (record k' {
    conds =
        update k'.conds cond
          (list_insert_ordered (sema_cmp_priority k' stray) waiter (k'.conds cond));
  })

-- The `if` of `cond_signal` covers the sort only, so `list_pop_front` is called on an empty list too,
-- where its ASSERT fails.
pub signal_first : ℕ → List ℕ → Kernel → Option Kernel
unfolding sema_up
signal_first cond [] k = none
signal_first cond (s ∷ ss) k = sema_up s (record k { conds = update k.conds cond ss })

pub cond_signal : (ℕ → ℤ) → ℕ → ℕ → Kernel → Option Kernel
unfolding signal_first lock_held_by_current_thread
cond_signal stray cond lock k = do
  assert (not k.in_interrupt)
  assert (lock_held_by_current_thread lock k)
  signal_first cond (list_sort (sema_cmp_priority k stray) (k.conds cond)) k

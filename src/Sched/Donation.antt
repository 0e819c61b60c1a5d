-- ===== src/Sched/Donation.antt =====
-- Priority donation in threads/thread.c.
pub mod Priority
pub mod Chain
mod Tests
use pintos_vm.Base.{
  ℕ, zero, suc, ◌≡◌, Bool, true, false, not, Option, none, some, List, [], ◌∷◌, ◌==◌, if◌then◌else◌,
  update, same, keep, ◌>>=◌, ◌>>◌,
}
use pintos_vm.Base.Int.{ℤ, ltb_ℤ}
use pintos_vm.KernelList.Sort.{list_sort}
use pintos_vm.Sched.{Thread, Lock, Kernel, set_priority, priority_of, thread_compare_priority}

abbrev pub cmp_donation_priority : Kernel → ℕ → ℕ → Bool
cmp_donation_priority k a b = ltb_ℤ (priority_of k b) (priority_of k a)

abbrev pub set_donations : ℕ → List ℕ → Kernel → Kernel
set_donations t ds k = record k {
  threads = update k.threads t (record (k.threads t) { donations = ds });
}

-- The rest of `re_priority` once the donors are sorted.
pub take_front : Kernel → List ℕ → Option Kernel
take_front k [] = none
take_front k (front ∷ ds) = some (
    if ltb_ℤ (priority_of k k.current) (priority_of k front)
    then set_priority k.current (priority_of k front) k
    else k)

abbrev pub with_donors : Kernel → List ℕ → Option Kernel
with_donors k [] = some k
with_donors k (d ∷ ds) =
    let sorted = list_sort (cmp_donation_priority k) (d ∷ ds) in
    take_front (set_donations k.current sorted k) sorted

pub re_priority : Kernel → Option Kernel
unfolding take_front
re_priority k =
    let curr = k.threads k.current in
    with_donors (set_priority k.current curr.init_priority k) curr.donations

-- The donors that the loop of `remove_donation` leaves in the list.
unfoldable pub remove_donation : ℕ → Kernel → Kernel
remove_donation lock k =
    set_donations k.current
      (keep (λ t. not (same (k.threads t).wait_on_lock (some lock)))
        (k.threads k.current).donations)
      k

-- The loop of `priority_donation`: `depth` rounds are left. A lock with no holder is a null pointer
-- that is followed.
pub donate_from : ℕ → ℕ → Kernel → Option Kernel
donate_from zero curr k = some k
donate_from (suc depth) curr k = elim (k.threads curr).wait_on_lock [
  | none ↦ some k
  | some lock ↦ elim (k.locks lock).holder [
    | none ↦ none
    | some holder ↦ donate_from depth holder (set_priority holder (priority_of k curr) k)
  ]
]

pub priority_donation : Kernel → Option Kernel
unfolding donate_from
priority_donation k = donate_from 8 k.current k

pub thread_set_priority : ℤ → Kernel → Option Kernel
unfolding re_priority
thread_set_priority new_priority k = if k.mlfqs then some k else (do
  k' ← re_priority (record k {
    threads =
        update k.threads k.current (record (k.threads k.current) { init_priority = new_priority });
  })
  thread_compare_priority k')

-- ===== src/Sched/Tests.antt =====
-- Runs of threads/thread.c on a small kernel.
use pintos_vm.Base.{ℕ, ◌≡◌, refl, Option, none, some, [], Returns}
use pintos_vm.Sched.{
  Kernel, next_thread_to_run, switch_to, schedule, thread_block, thread_compare_priority,
}
use pintos_vm.Sched.Policy.{IsFair, compare-IsFair}
use pintos_vm.Sched.Sample.{kernel, kernel-IsOrdered}

current_of : Option Kernel → Option ℕ
current_of none = none
current_of (some k) = some k.current

-- The first ready thread takes over.
block-current : current_of (thread_block kernel) ≡ some 6
unfolding thread_block schedule next_thread_to_run switch_to current_of
block-current = refl

-- The idle thread only runs if no thread is ready.
idle-current : current_of (thread_block (record kernel { ready_list = [] })) ≡ some 4
unfolding thread_block schedule next_thread_to_run switch_to current_of
idle-current = refl

compare-IsFair_example : Returns IsFair (thread_compare_priority kernel)
compare-IsFair_example = compare-IsFair kernel kernel-IsOrdered refl refl (λ e. cc)

-- ===== src/Sched/Donation/Tests.antt =====
-- Runs of the donation of priorities on a small kernel.
use pintos_vm.Base.{◌≡◌, refl, some, [], Returns, ◌>>=◌}
use pintos_vm.Base.Int.{pos}
use pintos_vm.Sched.{priority_of}
use pintos_vm.Sched.Policy.{IsOrdered}
use pintos_vm.Sched.Sample.{kernel, waiting}
use pintos_vm.KernelList.Sort.{list_sort, sort_passes, merge_pass, find_end_of_run}
use pintos_vm.Sched.Donation.{donate_from, priority_donation, take_front, re_priority}
use pintos_vm.Sched.Donation.Priority.{IsRestored, re_priority_lem}
use pintos_vm.Sched.Donation.Chain.{
  Donates, chain, waits_of, priority_donation_lem, donation_disorders,
}

-- Thread 1 waits for a lock of thread 2, and donates its priority of 40.
donated : (priority_donation waiting >>= λ k. some (priority_of k 2)) ≡ some (pos 40)
unfolding priority_donation donate_from
donated = refl

priority_donation_example :
    Donates
      (priority_of waiting 1)
      waiting
      (chain (waits_of waiting) waiting.locks 8 1)
      (priority_donation waiting)
priority_donation_example = priority_donation_lem waiting

donation_disorders_example : Returns (λ k. ¬ IsOrdered k) (priority_donation waiting)
donation_disorders_example = donation_disorders waiting 7 2 6 [] refl refl refl refl (λ e. cc) refl

-- Thread 3 donates 40 to thread 1, whose own priority is 31.
re_priority_example : Returns (IsRestored kernel) (re_priority kernel)
re_priority_example = re_priority_lem kernel

restored : (re_priority kernel >>= λ k. some (priority_of k 1)) ≡ some (pos 40)
unfolding re_priority take_front list_sort sort_passes merge_pass find_end_of_run
restored = refl

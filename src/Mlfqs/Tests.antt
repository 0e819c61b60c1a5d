-- ===== src/Mlfqs/Tests.antt =====
-- Runs of the advanced scheduler of threads/thread.c.
use pintos_vm.Base.{◌≡◌, refl}
use pintos_vm.Base.Int.{pos, negsuc, ◌*ℤ◌, ◌-ℤ◌, ◌+ℤ◌, ◌/ℤ◌}
use pintos_vm.Sched.{Kernel}
use pintos_vm.Sched.Sample.{kernel}
use pintos_vm.Mlfqs.{convert_xton, add_xandn, divide_xbyn, priority_from}
use pintos_vm.Mlfqs.Numbers.{IsNear}
use pintos_vm.Mlfqs.Priority.{priority_from_lem}

-- With nice at -20 the priority is 103, above the greatest that the kernel names.
priority-nice : priority_from (pos 0) (negsuc 19) ≡ pos 103
unfolding priority_from convert_xton add_xandn divide_xbyn ◌+ℤ◌ ◌-ℤ◌ ◌*ℤ◌ ◌/ℤ◌
priority-nice = refl

priority_from_lem_example :
    IsNear 32771
      (priority_from (pos 40000) (pos 5) *ℤ pos 65536)
      ((pos 63 -ℤ pos 5 *ℤ pos 2) *ℤ pos 65536 -ℤ pos 40000)
priority_from_lem_example = priority_from_lem (pos 40000) (pos 5)

abbrev loaded : Kernel
loaded = record kernel { load_avg = pos 16384 }

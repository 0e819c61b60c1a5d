-- ===== src/Timer/Tick.antt =====
-- The timer interrupt of devices/timer.c keeps the invariant of the scheduler.
use pintos_vm.Base.{ℕ, ◌+◌, ◌≡◌, true, false, ◌==◌, length}
use pintos_vm.Base.Int.{pos}
use pintos_vm.Sched.{Kernel, is_ready}
use pintos_vm.Sched.Invariant.{IsValid}
use pintos_vm.Sched.Wake.{IsDue}
use pintos_vm.Timer.{Timer}

-- No thread is in sight only before the first one starts.
abbrev pub HasThreads : Kernel → Type 0
HasThreads k = (length k.all_list == 0) ≡ false

-- One tick is counted, the kernel is well formed, and a thread that slept until now, or was ready, is ready.
pub record IsTicked (m m' : Timer) : Type 0 where
  pub counted : m'.ticks ≡ m.ticks + 1
  pub valid : IsValid m'.kernel
  pub woken :
      (t : ℕ)
      → IsDue (pos (m.ticks + 1)) m.kernel.sleep_list m.kernel t
      → is_ready (m'.kernel.threads t).status ≡ true

-- ===== src/Sync/Tests.antt =====
-- Runs of threads/synch.c on a small kernel.
use pintos_vm.Base.{refl, Returns}
use pintos_vm.Sched.Sample.{kernel, kernel-IsValid}
use pintos_vm.Sync.{lock_acquire, lock_release, lock_held_by_current_thread}
use pintos_vm.Sync.Locks.{IsAcquired}
use pintos_vm.Sync.Acquire.{lock_acquire_lem}
use pintos_vm.Sync.Release.{IsReleased, lock_release_lem}

-- Thread 2 holds lock 7.
lock_acquire_lem_example :
    Returns (λ (done, k'). IsAcquired 7 kernel done k') (lock_acquire 7 kernel)
unfolding lock_held_by_current_thread
lock_acquire_lem_example = lock_acquire_lem 7 kernel kernel-IsValid refl refl refl refl (λ _ e. cc)

lock_release_lem_example : Returns (IsReleased 8 kernel) (lock_release 8 kernel)
unfolding lock_held_by_current_thread
lock_release_lem_example = lock_release_lem 8 kernel kernel-IsValid refl refl

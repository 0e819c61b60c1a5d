-- ===== src/Timer.antt =====
-- devices/timer.c: the ticks, and what the timer interrupt does to the scheduler.
pub mod Tick
mod Tests
use pintos_vm.Base.{
  ℕ, ◌+◌, ◌%◌, Bool, not, Option, none, some, ◌==◌, if◌then◌else◌, ◌>>=◌, ◌>>◌, assert,
}
use pintos_vm.Base.Int.{ℤ, pos, ◌+ℤ◌, ◌-ℤ◌}
use pintos_vm.Sched.{Kernel, thread_tick, thread_awake, thread_sleep}
use pintos_vm.Mlfqs.{
  timer_freq, calculate_recent_cpu, recalculate_priority, calculate_load_avg,
  recalculate_recent_cpu,
}

-- The static `ticks` of devices/timer.c, beside the kernel.
pub record Timer : Type 0 where
  pub ticks : ℕ
  pub kernel : Kernel

pub timer_elapsed : ℤ → Timer → ℤ
unfolding ◌-ℤ◌
timer_elapsed since m = pos m.ticks -ℤ since

pub timer_sleep : ℤ → Timer → Option Timer
unfolding ◌+ℤ◌
timer_sleep ticks m =
    thread_sleep (ticks +ℤ pos m.ticks) m.kernel >>= λ k. some (record m { kernel = k })

-- What the handler does to the advanced scheduler, after tick `ticks`.
pub mlfqs_tick : ℕ → Kernel → Option Kernel
mlfqs_tick ticks k =
    let k₁ = calculate_recent_cpu k in
    if not (ticks % 4 == 0)
    then some k₁
    else (recalculate_priority k₁ >>= λ k₂.
        if ticks % timer_freq == 0 then recalculate_recent_cpu (calculate_load_avg k₂) else some k₂)

pub timer_interrupt : Timer → Option Timer
unfolding mlfqs_tick
timer_interrupt m =
    let ticks = m.ticks + 1 in
    let k = thread_tick m.kernel in
    (if k.mlfqs then mlfqs_tick ticks k else some k) >>= λ k₁.
    thread_awake (pos ticks) k₁ >>= λ k₂. some (record { ticks = ticks; kernel = k₂ })

-- ===== src/Timer/Tests.antt =====
-- Runs of the timer interrupt of devices/timer.c.
use pintos_vm.Base.{true}
use pintos_vm.Sched.Sample.{kernel}
use pintos_vm.Timer.{Timer}

-- Tick 100, at which thread 5 wakes, under the advanced scheduler.
abbrev evening : Timer
evening = record { ticks = 99; kernel = record kernel { mlfqs = true } }

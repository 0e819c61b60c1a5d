-- ===== src/IntQueue/Tests.antt =====
-- Concrete runs of the interrupt queue of devices/intq.c.
use pintos_vm.Base.{◌≡◌, refl, none, some, arith, replicate, set}
use pintos_vm.IntQueue.{IntQueue, handler, panicked, intq_getc, sleep_on}
use pintos_vm.IntQueue.Invariant.{IsValid}

-- Byte 7 at index 63, byte 8 at index 0; thread 5 waits for nothing.
abbrev wrapped : IntQueue
wrapped = record {
  lock = none;
  not_full = none;
  not_empty = none;
  buf = set (set (replicate 64 0) 63 7) 0 8;
  head = 1;
  tail = 63;
}

-- Thread 5 waits for a byte.
abbrev waiting : IntQueue
waiting = record {
  lock = some 5;
  not_full = none;
  not_empty = some 5;
  buf = replicate 64 0;
  head = 3;
  tail = 3;
}

waiting-IsValid : IsValid waiting
waiting-IsValid = record {
  storage = refl;
  head_in = omega arith;
  tail_in = omega arith;
  waits_empty = λ n. refl;
  waits_full = λ n. absurd (n refl);
}

-- A handler that finds the queue empty would have to sleep.
handler_may_not_sleep : intq_getc handler waiting ≡ panicked
unfolding intq_getc sleep_on
handler_may_not_sleep = refl

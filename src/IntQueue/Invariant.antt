-- ===== src/IntQueue/Invariant.antt =====
-- What every call on the interrupt queue of devices/intq.c keeps.
use pintos_vm.Base.{ℕ, ◌<◌, ◌≡◌, refl, ◌≢◌, none, List, arith, length, length-set}
use pintos_vm.IntQueue.{
  IntQueue, Caller, handler, thread, Outcome, returned, sleeping, lock_busy, panicked, bufsize,
  next, intq_init, intq_getc, intq_putc, sleep_on,
}

-- The indices lie in the buffer, and a thread is registered as a waiter only while its condition
-- fails: no wake-up is lost.
pub record IsValid (q : IntQueue) : Type 0 where
  pub storage : length q.buf ≡ bufsize
  pub head_in : q.head < bufsize
  pub tail_in : q.tail < bufsize
  pub waits_empty : q.not_empty ≢ none → q.head ≡ q.tail
  pub waits_full : q.not_full ≢ none → next q.head ≡ q.tail

-- A predicate of the queue that a call leaves behind.
abbrev pub Leaves {ℓ} : {A : Type ℓ} → (IntQueue → Type 0) → Outcome A → Type 0
Leaves P (returned a w q) = P q
Leaves P (sleeping q) = P q
Leaves P lock_busy = Unit
Leaves P panicked = Unit

pub intq_init-IsValid : (bytes : List ℕ) → length bytes ≡ bufsize → IsValid (intq_init bytes)
unfolding intq_init
intq_init-IsValid bytes h = record {
  storage = h;
  head_in = omega arith;
  tail_in = omega arith;
  waits_empty = λ _. refl;
  waits_full = λ n. absurd (n refl);
}

-- `intq_getc` keeps the queue well formed, whoever calls it and however it ends.
pub intq_getc-IsValid : (who : Caller) (q : IntQueue) → IsValid q → Leaves IsValid (intq_getc who q)
unfolding intq_getc sleep_on
intq_getc-IsValid handler q v = ground arith
intq_getc-IsValid (thread t) q v = ground arith

-- `intq_putc` keeps the queue well formed, whoever calls it and however it ends.
pub intq_putc-IsValid :
    (who : Caller) (byte : ℕ) (q : IntQueue) → IsValid q → Leaves IsValid (intq_putc who byte q)
unfolding intq_putc sleep_on
intq_putc-IsValid handler byte q v = ground (arith, length-set q.buf q.head byte)
intq_putc-IsValid (thread t) byte q v = ground (arith, length-set q.buf q.head byte)

-- ===== src/IntQueue.antt =====
-- devices/intq.c and include/devices/intq.h: the circular byte queue that interrupt handlers and
-- kernel threads share. A call that has to wait returns `sleeping`, with the waiter registered;
-- the thread makes the call again when it has been woken (`resume`).
pub mod Window
pub mod Invariant
pub mod Refine
mod Tests
use pintos_vm.Base.{
  ℕ, ◌+◌, ◌%◌, Bool, true, false, Option, none, some, List, [], ◌∷◌, ◌==◌, ltb, if◌then◌else◌, same,
  set, get_or, replicate,
}

-- `INTQ_BUFSIZE`
abbrev pub bufsize : ℕ
bufsize = 64

-- `struct intq`: the lock is the thread that holds it, the waiters are threads or NULL.
pub record IntQueue : Type 0 where
  pub lock : Option ℕ
  pub not_full : Option ℕ
  pub not_empty : Option ℕ
  pub buf : List ℕ
  pub head : ℕ
  pub tail : ℕ

-- Who calls: an interrupt handler, or a kernel thread.
pub data Caller : Type 0 where
  handler : Caller
  thread : ℕ → Caller

-- What a call does: it returns a value and unblocks a thread (or none), it goes to sleep, it has to
-- wait for the lock, or an ASSERT fails.
pub data Outcome {ℓ} (A : Type ℓ) : Type ℓ where
  returned : A → Option ℕ → IntQueue → Outcome A
  sleeping : IntQueue → Outcome A
  lock_busy : Outcome A
  panicked : Outcome A

abbrev pub next : ℕ → ℕ
next pos = (pos + 1) % bufsize

-- `intq_init`, over the bytes that the buffer held.
pub intq_init : List ℕ → IntQueue
intq_init bytes = record {
  lock = none;
  not_full = none;
  not_empty = none;
  buf = bytes;
  head = 0;
  tail = 0;
}

abbrev pub intq_empty : IntQueue → Bool
intq_empty q = q.head == q.tail

abbrev pub intq_full : IntQueue → Bool
intq_full q = next q.head == q.tail

-- The body of the `while` loops: take the lock, register as the waiter of a condition, block.
pub sleep_on {ℓ} : {A : Type ℓ} → Caller → IntQueue → (ℕ → IntQueue) → Outcome A
sleep_on handler q register = panicked
sleep_on (thread t) q register = elim q.lock [
  | none ↦ sleeping (register t)
  | some holder ↦ lock_busy
]

pub intq_getc : Caller → IntQueue → Outcome ℕ
unfolding sleep_on
intq_getc who q =
    if intq_empty q
    then sleep_on who q (λ t. record q { lock = some t; not_empty = some t })
    else returned (get_or q.buf q.tail 0) q.not_full
        (record q { tail = next q.tail; not_full = none })

pub intq_putc : Caller → ℕ → IntQueue → Outcome (Unit {0})
unfolding sleep_on
intq_putc who byte q =
    if intq_full q
    then sleep_on who q (λ t. record q { lock = some t; not_full = some t })
    else returned tt q.not_empty
        (record q { buf = set q.buf q.head byte; head = next q.head; not_empty = none })

-- After `thread_block` returns the loop releases the lock, and tests the condition again.
pub release : IntQueue → IntQueue
release q = record q { lock = none }

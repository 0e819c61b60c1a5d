-- ===== src/IntQueue/Refine.antt =====
-- The interrupt queue of devices/intq.c is a queue of at most 63 bytes.
use pintos_vm.Base.{
  ℕ, ◌≡◌, Option, none, some, List, [], ◌∷◌, ◌++◌, arith, length, if◌then◌else◌, ltb,
}
use pintos_vm.IntQueue.{
  IntQueue, Caller, handler, thread, Outcome, returned, sleeping, lock_busy, panicked, intq_putc,
  sleep_on,
}
use pintos_vm.IntQueue.Window.{used, contents, window-set, length-window}
use pintos_vm.IntQueue.Invariant.{IsValid}

-- What a caller learns of a call, beside the bytes that the queue then holds.
pub data Reply {ℓ} (A : Type ℓ) : Type ℓ where
  reply : A → Option ℕ → List ℕ → Reply A
  waits : List ℕ → Reply A
  busy : Reply A
  fault : Reply A

abbrev pub view {ℓ} : {A : Type ℓ} → Outcome A → Reply A
view (returned a w q) = reply a w (contents q)
view (sleeping q) = waits (contents q)
view lock_busy = busy
view panicked = fault

-- A call that cannot be served: a handler may not sleep, a thread needs the lock to do so.
abbrev pub refuse {ℓ} : {A : Type ℓ} → Caller → Option ℕ → List ℕ → Reply A
refuse handler lock bytes = fault
refuse (thread t) none bytes = waits bytes
refuse (thread t) (some holder) bytes = busy

-- The specification, over the bytes alone.
abbrev pub spec_getc : Caller → Option ℕ → Option ℕ → List ℕ → Reply ℕ
spec_getc who lock waiter [] = refuse who lock []
spec_getc who lock waiter (byte ∷ rest) = reply byte waiter rest

abbrev pub spec_putc : Caller → Option ℕ → Option ℕ → ℕ → List ℕ → Reply (Unit {0})
spec_putc who lock waiter byte bytes =
    if ltb (length bytes) 63 then reply tt waiter (bytes ++ (byte ∷ [])) else refuse who lock bytes

-- On a valid queue `intq_putc` appends its byte behind the others and wakes the thread that waits for a
-- byte if fewer than 63 are held; otherwise it sleeps, waits for the lock or fails, and keeps them.
pub intq_putc_refines :
    (who : Caller) (byte : ℕ) (q : IntQueue)
    → IsValid q
    → view (intq_putc who byte q) ≡ spec_putc who q.lock q.not_empty byte (contents q)
unfolding intq_putc sleep_on
intq_putc_refines handler byte q v =
    ground
      (arith, length-window q.buf q.tail (used q), window-set q.buf byte (used q) q.tail q.head)
intq_putc_refines (thread t) byte q v =
    ground
      (arith, length-window q.buf q.tail (used q), window-set q.buf byte (used q) q.tail q.head)

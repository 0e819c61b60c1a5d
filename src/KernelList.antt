-- ===== src/KernelList.antt =====
-- lib/kernel/list.c: the kernel's doubly linked lists. This file has the links, over a memory of list
-- elements; Sort has the operations that order a list, over the sequence of its elements. `none` is a
-- failed ASSERT, or a null pointer that is followed.
pub mod Sort
pub mod Links
pub mod Insert
pub mod Remove
mod Tests
use pintos_vm.Base.{
  ℕ, zero, suc, ◌+◌, Bool, true, false, not, ◌&&◌, ◌||◌, Option, none, some, ◌==◌, if◌then◌else◌,
  update, same, ◌>>=◌, ◌>>◌, assert,
}

-- The two pointers of each `struct list_elem`; `none` is NULL.
pub record Memory : Type 0 where
  pub prev : ℕ → Option ℕ
  pub next : ℕ → Option ℕ

-- `struct list`: its head and its tail element.
pub record KernelList : Type 0 where
  pub head : ℕ
  pub tail : ℕ

abbrev pub is_null : Option ℕ → Bool
is_null none = true
is_null (some a) = false

abbrev pub is_head : Memory → ℕ → Bool
is_head m elem = is_null (m.prev elem) && not (is_null (m.next elem))

abbrev pub is_interior : Memory → ℕ → Bool
is_interior m elem = not (is_null (m.prev elem)) && not (is_null (m.next elem))

abbrev pub is_tail : Memory → ℕ → Bool
is_tail m elem = not (is_null (m.prev elem)) && is_null (m.next elem)

abbrev pub set_prev : ℕ → Option ℕ → Memory → Memory
set_prev a v m = record m { prev = update m.prev a v }

abbrev pub set_next : ℕ → Option ℕ → Memory → Memory
set_next a v m = record m { next = update m.next a v }

pub list_init : KernelList → Memory → Memory
list_init list m = set_next list.tail none (
    set_prev list.tail (some list.head)
      (set_next list.head (some list.tail) (set_prev list.head none m)))

abbrev pub list_begin : KernelList → Memory → Option ℕ
list_begin list m = m.next list.head

abbrev pub list_end : KernelList → ℕ
list_end list = list.tail

abbrev pub list_next : Memory → ℕ → Option ℕ
list_next m elem = assert (is_head m elem || is_interior m elem) >> m.next elem

abbrev pub list_prev : Memory → ℕ → Option ℕ
list_prev m elem = assert (is_interior m elem || is_tail m elem) >> m.prev elem

pub list_insert : ℕ → ℕ → Memory → Option Memory
list_insert before elem m = do
  assert (is_interior m before || is_tail m before)
  let m₁ = set_next elem (some before) (set_prev elem (m.prev before) m)
  p ← m₁.prev before
  some (set_prev before (some elem) (set_next p (some elem) m₁))

pub list_push_front : KernelList → ℕ → Memory → Option Memory
unfolding list_insert
list_push_front list elem m = list_begin list m >>= λ b. list_insert b elem m

pub list_push_back : KernelList → ℕ → Memory → Option Memory
unfolding list_insert
list_push_back list elem m = list_insert (list_end list) elem m

-- The memory, and the element that followed.
pub list_remove : ℕ → Memory → Option (Memory × ℕ)
list_remove elem m = do
  assert (is_interior m elem)
  p ← m.prev elem
  let m₁ = set_next p (m.next elem) m
  n ← m₁.next elem
  some (set_prev n (m₁.prev elem) m₁, n)

abbrev pub list_empty : KernelList → Memory → Bool
list_empty list m = same (list_begin list m) (some (list_end list))

abbrev pub list_front : KernelList → Memory → Option ℕ
list_front list m = assert (not (list_empty list m)) >> m.next list.head

abbrev pub list_back : KernelList → Memory → Option ℕ
list_back list m = assert (not (list_empty list m)) >> m.prev list.tail

pub list_pop_front : KernelList → Memory → Option (Memory × ℕ)
unfolding list_remove
list_pop_front list m = do
  front ← list_front list m
  (m', after) ← list_remove front m
  some (m', front)

pub list_pop_back : KernelList → Memory → Option (Memory × ℕ)
unfolding list_remove
list_pop_back list m = do back ← list_back list m; (m', after) ← list_remove back m; some (m', back)

-- The loop of `list_size` from `e` on; `none` with no fuel left.
pub size_from : ℕ → Memory → ℕ → ℕ → Option ℕ
size_from zero m e end = none
size_from (suc fuel) m e end =
    if e == end
    then some 0
    else (list_next m e >>= λ n. size_from fuel m n end >>= λ cnt. some (cnt + 1))

pub list_size : ℕ → KernelList → Memory → Option ℕ
unfolding size_from
list_size fuel list m = list_begin list m >>= λ b. size_from fuel m b (list_end list)

-- ===== src/Mlfqs.antt =====
-- The advanced scheduler of threads/thread.c. Numbers with 14 bits
-- after the point are integers here; a C `int` holds them while load_avg and recent_cpu are in range.
pub mod Numbers
pub mod Load
pub mod Cpu
pub mod Priority
pub mod Same
mod Tests
use pintos_vm.Base.{
  ℕ, suc, zero, ◌+◌, ◌%◌, Bool, true, false, not, Option, none, some, List, [], ◌∷◌, ◌==◌, length,
  if◌then◌else◌, update, ◌>>=◌, ◌>>◌, assert,
}
use pintos_vm.Base.Int.{ℤ, pos, negsuc, ◌+ℤ◌, ◌-ℤ◌, ◌*ℤ◌, ◌/ℤ◌, leb_ℤ, ltb_ℤ}
use pintos_vm.Sched.{Kernel, is_idle, set_priority, thread_compare_priority}

-- `f`
abbrev pub scale : ℤ
scale = pos 16384

-- `TIMER_FREQ`, ticks in a second.
abbrev pub timer_freq : ℕ
timer_freq = 100

unfoldable pub convert_ntox : ℤ → ℤ
unfolding ◌*ℤ◌
convert_ntox n = n *ℤ scale

pub convert_xton : ℤ → ℤ
unfolding ◌+ℤ◌ ◌-ℤ◌ ◌/ℤ◌
convert_xton x =
    if leb_ℤ (pos 0) x then (x +ℤ (scale /ℤ pos 2)) /ℤ scale else (x -ℤ (scale /ℤ pos 2)) /ℤ scale

pub add_xandn : ℤ → ℤ → ℤ
unfolding ◌+ℤ◌ ◌*ℤ◌
add_xandn x n = x +ℤ n *ℤ scale

pub add_xandy : ℤ → ℤ → ℤ
unfolding ◌+ℤ◌
add_xandy x y = x +ℤ y

pub sub_nfromx : ℤ → ℤ → ℤ
unfolding ◌-ℤ◌ ◌*ℤ◌
sub_nfromx x n = x -ℤ n *ℤ scale

pub sub_yfromx : ℤ → ℤ → ℤ
unfolding ◌-ℤ◌
sub_yfromx x y = x -ℤ y

pub mult_xbyn : ℤ → ℤ → ℤ
unfolding ◌*ℤ◌
mult_xbyn x n = x *ℤ n

pub mult_xbyy : ℤ → ℤ → ℤ
unfolding ◌*ℤ◌ ◌/ℤ◌
mult_xbyy x y = x *ℤ y /ℤ scale

pub divide_xbyn : ℤ → ℤ → ℤ
unfolding ◌/ℤ◌
divide_xbyn x n = x /ℤ n

pub divide_xbyy : ℤ → ℤ → ℤ
unfolding ◌*ℤ◌ ◌/ℤ◌
divide_xbyy x y = x *ℤ scale /ℤ y

pub load_fir_co : ℤ
unfolding divide_xbyn convert_ntox
load_fir_co = divide_xbyn (convert_ntox (pos 59)) (pos 60)

pub load_sec_co : ℤ
unfolding divide_xbyn convert_ntox
load_sec_co = divide_xbyn (convert_ntox (pos 1)) (pos 60)

-- `t->recent_cpu = r;` and `t->nice = n;`
abbrev pub set_recent_cpu : ℕ → ℤ → Kernel → Kernel
set_recent_cpu t r k = record k {
  threads = update k.threads t (record (k.threads t) { recent_cpu = r });
}

abbrev pub set_nice : ℕ → ℤ → Kernel → Kernel
set_nice t n k = record k { threads = update k.threads t (record (k.threads t) { nice = n }) }

-- The right-hand side of `calculate_priority`.
pub priority_from : ℤ → ℤ → ℤ
unfolding convert_xton add_xandn divide_xbyn ◌-ℤ◌ ◌*ℤ◌
priority_from recent_cpu nice =
    convert_xton (add_xandn (divide_xbyn recent_cpu (negsuc 3)) (pos 63 -ℤ nice *ℤ pos 2))

pub calculate_priority : ℕ → Kernel → Kernel
unfolding priority_from
calculate_priority t k =
    if is_idle k t
    then k
    else set_priority t (priority_from (k.threads t).recent_cpu (k.threads t).nice) k

pub calculate_recent_cpu : Kernel → Kernel
unfolding add_xandn
calculate_recent_cpu k =
    if not (is_idle k k.current)
    then set_recent_cpu k.current (add_xandn (k.threads k.current).recent_cpu (pos 1)) k
    else k

pub ready_threads : Kernel → ℕ
ready_threads k = if is_idle k k.current then length k.ready_list else length k.ready_list + 1

pub calculate_load_avg : Kernel → Kernel
unfolding mult_xbyy mult_xbyn load_fir_co load_sec_co ready_threads ◌+ℤ◌
calculate_load_avg k = record k {
  load_avg = mult_xbyy load_fir_co k.load_avg +ℤ mult_xbyn load_sec_co (pos (ready_threads k));
}

-- The right-hand side of `recalculate_recent_cpu`.
pub decayed : ℤ → ℤ → ℤ → ℤ
unfolding mult_xbyy divide_xbyy mult_xbyn convert_ntox ◌+ℤ◌
decayed load_avg recent_cpu nice =
    mult_xbyy
      (divide_xbyy (mult_xbyn load_avg (pos 2))
        (mult_xbyn load_avg (pos 2) +ℤ convert_ntox (pos 1)))
      recent_cpu
    +ℤ convert_ntox nice

-- The loops over `all_list`.
pub decay_from : List ℕ → Kernel → Kernel
unfolding decayed
decay_from [] k = k
decay_from (t ∷ ts) k =
    decay_from ts
      (set_recent_cpu t (decayed k.load_avg (k.threads t).recent_cpu (k.threads t).nice) k)

pub rank_from : List ℕ → Kernel → Kernel
unfolding calculate_priority
rank_from [] k = k
rank_from (t ∷ ts) k = rank_from ts (calculate_priority t k)

pub recalculate_recent_cpu : Kernel → Option Kernel
unfolding decay_from
recalculate_recent_cpu k = assert (not (length k.all_list == 0)) >> some (decay_from k.all_list k)

pub recalculate_priority : Kernel → Option Kernel
unfolding rank_from
recalculate_priority k = assert (not (length k.all_list == 0)) >> some (rank_from k.all_list k)

pub thread_set_nice : ℤ → Kernel → Option Kernel
unfolding calculate_priority
thread_set_nice nice k =
    thread_compare_priority (calculate_priority k.current (set_nice k.current nice k))

pub thread_get_nice : Kernel → ℤ
thread_get_nice k = (k.threads k.current).nice

pub thread_get_load_avg : Kernel → ℤ
unfolding convert_xton mult_xbyn
thread_get_load_avg k = convert_xton (mult_xbyn k.load_avg (pos timer_freq))

pub thread_get_recent_cpu : Kernel → ℤ
unfolding convert_xton ◌*ℤ◌
thread_get_recent_cpu k = convert_xton (k.threads k.current).recent_cpu *ℤ pos timer_freq

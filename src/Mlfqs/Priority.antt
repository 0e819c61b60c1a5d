-- ===== src/Mlfqs/Priority.antt =====
-- The priority that the advanced scheduler of threads/thread.c gives a thread.
use pintos_vm.Base.{ℕ, ◌*◌, ◌≡◌, arith}
use pintos_vm.Base.Int.{ℤ, pos, negsuc, pos_part, neg_part, ◌+ℤ◌, ◌-ℤ◌, ◌*ℤ◌, +ℤ_parts, -ℤ_parts}
use pintos_vm.Mlfqs.{scale, convert_xton, divide_xbyn, add_xandn, priority_from}
use pintos_vm.Mlfqs.Numbers.{IsNear, convert_xton_lem, quarter_lem}

scale_parts :
    (a : ℤ) (n : ℕ)
    → (pos_part (a *ℤ pos n) ≡ pos_part a * n) × (neg_part (a *ℤ pos n) ≡ neg_part a * n)
unfolding ◌*ℤ◌
scale_parts a n = ground arith

-- 65536 times the priority is within 32771 of 65536 * (63 - nice * 2) - recent_cpu, for a
-- recent_cpu with 14 bits after the point: the priority is 63 - recent_cpu / 4 - nice * 2, rounded.
pub priority_from_lem :
    (recent_cpu nice : ℤ)
    → IsNear 32771
        (priority_from recent_cpu nice *ℤ pos 65536)
        ((pos 63 -ℤ nice *ℤ pos 2) *ℤ pos 65536 -ℤ recent_cpu)
unfolding priority_from add_xandn
priority_from_lem r n =
    let m = pos 63 -ℤ n *ℤ pos 2 in
    let q = divide_xbyn r (negsuc 3) in
    let x = q +ℤ m *ℤ scale in
    let p = convert_xton x in
    (
      omega (
        arith,
        convert_xton_lem x,
        quarter_lem r,
        scale_parts p 65536,
        scale_parts p 16384,
        scale_parts m 65536,
        scale_parts m 16384,
        scale_parts q 4,
        -ℤ_parts (m *ℤ pos 65536) r,
        -ℤ_parts (pos 0) r,
        +ℤ_parts q (m *ℤ scale),
      ),
      omega (
        arith,
        convert_xton_lem x,
        quarter_lem r,
        scale_parts p 65536,
        scale_parts p 16384,
        scale_parts m 65536,
        scale_parts m 16384,
        scale_parts q 4,
        -ℤ_parts (m *ℤ pos 65536) r,
        -ℤ_parts (pos 0) r,
        +ℤ_parts q (m *ℤ scale),
      ),
    )

-- ===== src/Mlfqs/Cpu.antt =====
-- recent_cpu in the advanced scheduler of threads/thread.c.
use native.Mathlib.Nat.{div-le_of_le-mul, mul-le-mul_right}
use pintos_vm.Base.{ℕ, ◌+◌, ◌*◌, ◌≤◌, ◌≡◌, arith}
use pintos_vm.Base.Int.{ℤ, pos, ◌+ℤ◌, ◌*ℤ◌}
use pintos_vm.Sched.{Kernel}
use pintos_vm.Mlfqs.{scale, convert_ntox, mult_xbyn, mult_xbyy, divide_xbyy, decayed}
use pintos_vm.Mlfqs.Numbers.{magnitude, magnitude-+ℤ, magnitude-*ℤ, magnitude-/ℤ}

divisor : (l : ℕ) → mult_xbyn (pos l) (pos 2) +ℤ convert_ntox (pos 1) ≡ pos (l * 2 + 16384)
unfolding mult_xbyn convert_ntox ◌+ℤ◌ ◌*ℤ◌
divisor l = ground arith

-- The factor of decay is at most 1.
coefficient :
    (l : ℕ)
    → magnitude (
        divide_xbyy (mult_xbyn (pos l) (pos 2)) (mult_xbyn (pos l) (pos 2) +ℤ convert_ntox (pos 1)))
      ≤ 16384
unfolding divide_xbyy mult_xbyn
coefficient l = rw (divisor l) (
    rw (magnitude-/ℤ (pos l *ℤ pos 2 *ℤ scale) (l * 2 + 16384)) (
      rw (magnitude-*ℤ (pos l *ℤ pos 2) scale)
        (rw (magnitude-*ℤ (pos l) (pos 2)) (div-le_of_le-mul (l * 2 + 16384) (omega arith)))))

scaled : (c r : ℤ) → magnitude c ≤ 16384 → magnitude (mult_xbyy c r) ≤ magnitude r
unfolding mult_xbyy
scaled c r h =
    rw (magnitude-/ℤ (c *ℤ r) 16384)
      (rw (magnitude-*ℤ c r) (div-le_of_le-mul 16384 (mul-le-mul_right (magnitude r) h)))

pub decayed_lem :
    (l : ℕ) (r n : ℤ) → magnitude (decayed (pos l) r n) ≤ magnitude r + magnitude n * 16384
unfolding decayed convert_ntox
decayed_lem l r n =
    let c =
      divide_xbyy (mult_xbyn (pos l) (pos 2)) (mult_xbyn (pos l) (pos 2) +ℤ convert_ntox (pos 1)) in
    omega (
      arith,
      magnitude-+ℤ (mult_xbyy c r) (convert_ntox n),
      scaled c r (coefficient l),
      magnitude-*ℤ n scale,
    )

abbrev pub cpu_of : Kernel → ℕ → ℤ
cpu_of k t = (k.threads t).recent_cpu

-- The bound that one decay keeps to.
abbrev pub IsDecayed : Kernel → Kernel → ℕ → Type 0
IsDecayed k k' t =
    magnitude (cpu_of k' t) ≤ magnitude (cpu_of k t) + magnitude (k.threads t).nice * 16384

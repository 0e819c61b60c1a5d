-- ===== src/Mlfqs/Load.antt =====
-- The load average of the advanced scheduler of threads/thread.c.
use pintos_vm.Base.{ℕ, ◌*◌, ◌≤◌, ◌≡◌}
use pintos_vm.Base.Int.{ℤ, pos_part, neg_part}

-- A number from 0 to n, with 14 bits after the point.
abbrev pub IsWithin : ℕ → ℤ → Type 0
IsWithin n x = (neg_part x ≡ 0) × (pos_part x ≤ n * 16384)

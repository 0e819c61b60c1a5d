-- ===== src/Mlfqs/Numbers.antt =====
-- The fixed-point numbers of threads/thread.c: sizes of results, and errors of rounding.
use pintos_vm.Base.{ℕ, suc, ◌+◌, ◌*◌, ◌/◌, ◌≤◌, ◌≡◌, refl, arith}
use pintos_vm.Base.Int.{ℤ, pos, negsuc, pos_part, neg_part, ◌+ℤ◌, ◌-ℤ◌, ◌*ℤ◌, ◌/ℤ◌}
use pintos_vm.Mlfqs.{scale, convert_xton, divide_xbyn}

abbrev pub magnitude : ℤ → ℕ
magnitude (pos n) = n
magnitude (negsuc n) = suc n

-- a and b differ by at most d.
abbrev pub IsNear : ℕ → ℤ → ℤ → Type 0
IsNear d a b =
    (pos_part a + neg_part b ≤ pos_part b + neg_part a + d)
    × (pos_part b + neg_part a ≤ pos_part a + neg_part b + d)

pub magnitude-+ℤ : (a b : ℤ) → magnitude (a +ℤ b) ≤ magnitude a + magnitude b
unfolding ◌+ℤ◌
magnitude-+ℤ a b = ground arith

pub magnitude-*ℤ : (a b : ℤ) → magnitude (a *ℤ b) ≡ magnitude a * magnitude b
unfolding ◌*ℤ◌
magnitude-*ℤ (pos a) (pos b) = ground arith
magnitude-*ℤ (pos a) (negsuc b) = ground arith
magnitude-*ℤ (negsuc a) (pos b) = ground arith
magnitude-*ℤ (negsuc a) (negsuc b) = ground arith

pub magnitude-/ℤ : (a : ℤ) (b : ℕ) → magnitude (a /ℤ pos b) ≡ magnitude a / b
unfolding ◌/ℤ◌
magnitude-/ℤ (pos a) b = refl
magnitude-/ℤ (negsuc a) b = ground arith

-- `convert_xton` is off by at most a half.
pub convert_xton_lem : (x : ℤ) → IsNear 8192 (convert_xton x *ℤ scale) x
unfolding convert_xton ◌+ℤ◌ ◌-ℤ◌ ◌*ℤ◌ ◌/ℤ◌
convert_xton_lem x = ground arith

-- Dividing by -4 is off by less than one.
pub quarter_lem : (x : ℤ) → IsNear 3 (divide_xbyn x (negsuc 3) *ℤ pos 4) (pos 0 -ℤ x)
unfolding divide_xbyn ◌-ℤ◌ ◌*ℤ◌ ◌/ℤ◌
quarter_lem x = ground arith

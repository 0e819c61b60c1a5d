-- ===== src/Arguments/Aligned.antt =====
-- `argument_stack` of userprog/process.c comes to its end, with the stack pointer on a word.
use pintos_vm.Base.{◌/◌, ℕ, ◌+◌, ◌*◌, ◌%◌, ◌/◌, ◌≤◌, ◌<◌, ◌≡◌, List, [], ◌∷◌, length, Returns}
use pintos_vm.CString.{Bytes, strlen}

-- The same bytes from `b` on.
abbrev pub AgreeFrom : ℕ → Bytes → Bytes → Type 0
AgreeFrom b m m' = (a : ℕ) → b ≤ a → m' a ≡ m a

-- A string that stands from `b` on and is shorter than `fuel`.
abbrev pub IsString : ℕ → ℕ → Bytes → ℕ → Type 0
IsString fuel b m s = (b ≤ s) × Returns (λ n. n < fuel) (strlen fuel s m)

-- `fuel` bytes for each string.
abbrev pub room : ℕ → List ℕ → ℕ
room fuel [] = 0
room fuel (s ∷ ss) = fuel + room fuel ss

-- What `push_strings` leaves of the stack.
abbrev IsPushed : ℕ → ℕ → List ℕ → List ℕ → ℕ → Bytes → List ℕ × ℕ × Bytes → Type 0
IsPushed fuel b ss parse rsp m (parse', rsp', m') =
    AgreeFrom b m m'
    × (length parse' ≡ length ss + length parse)
    × (rsp ≤ rsp' + room fuel ss)
    × (rsp' ≤ rsp)

-- The new addresses, the stack pointer and the memory that `argument_stack` leaves.
abbrev pub IsLaidOut : List ℕ → ℕ → Bytes → List ℕ × ℕ × Bytes → Type 0
IsLaidOut parse rsp m (parse', rsp', m') =
    (rsp' % 8 ≡ 0)
    × (length parse' ≡ length parse)
    × (rsp' + 8 * length parse + 16 ≤ rsp)
    × AgreeFrom rsp m m'

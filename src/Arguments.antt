-- ===== src/Arguments.antt =====
-- `argument_stack` of userprog/process.c: the arguments of a program, on the stack that it starts with. An
-- address is a number, and memory a map from addresses to bytes.
pub mod Aligned
mod Tests
use pintos_vm.Base.{
  ℕ, zero, suc, ◌+◌, ◌-◌, ◌*◌, ◌/◌, ◌%◌, ◌^◌, Option, none, some, List, [], ◌∷◌, ◌++◌,
  if◌then◌else◌, update, ◌>>=◌,
}
use pintos_vm.CString.{Bytes, strlen}

-- The loop over `j`: the byte of `string` at `n - 1` goes to the top of the stack, then the one before it, down to
-- the first. The stack may lie over the string.
pub push_bytes : ℕ → ℕ → ℕ → Bytes → ℕ × Bytes
push_bytes string zero rsp m = (rsp, m)
push_bytes string (suc n) rsp m =
    push_bytes string n (rsp - 1) (update m (rsp - 1) (m (string + n)))

-- The first loop over `i`, for the strings from the last to the first: where each stands now, the first before the
-- second. `fuel` bounds what `strlen` looks at.
pub push_strings : ℕ → List ℕ → List ℕ → ℕ → Bytes → Option (List ℕ × ℕ × Bytes)
unfolding push_bytes
push_strings fuel [] parse rsp m = some (parse, rsp, m)
push_strings fuel (s ∷ ss) parse rsp m = strlen fuel s m >>= λ n.
    let (rsp', m') = push_bytes s (n + 1) rsp m in push_strings fuel ss (rsp' ∷ parse) rsp' m'

-- The loop of the padding.
pub push_zeros : ℕ → ℕ → Bytes → ℕ × Bytes
push_zeros zero rsp m = (rsp, m)
push_zeros (suc n) rsp m = push_zeros n (rsp - 1) (update m (rsp - 1) 0)

-- A pointer in memory, its lowest byte first.
pub store_from : ℕ → ℕ → ℕ → Bytes → Bytes
store_from zero at p m = m
store_from (suc n) at p m = store_from n (at + 1) (p / 256) (update m at (p % 256))

-- `(*rsp) -= 8; **(char ***)rsp = p;`
pub push_pointer : ℕ → ℕ → Bytes → ℕ × Bytes
unfolding store_from
push_pointer p rsp m = (rsp - 8, store_from 8 (rsp - 8) p m)

-- The loop that pushes the addresses, for the addresses from the last to the first.
pub push_pointers : List ℕ → ℕ → Bytes → ℕ × Bytes
unfolding push_pointer
push_pointers [] rsp m = (rsp, m)
push_pointers (p ∷ ps) rsp m = let (rsp', m') = push_pointer p rsp m in push_pointers ps rsp' m'

abbrev pub reverse_onto : List ℕ → List ℕ → List ℕ
reverse_onto [] ys = ys
reverse_onto (x ∷ xs) ys = reverse_onto xs (x ∷ ys)

-- The new addresses of the strings, the stack pointer, and the memory.
pub argument_stack : ℕ → List ℕ → ℕ → Bytes → Option (List ℕ × ℕ × Bytes)
unfolding push_strings push_zeros push_pointer push_pointers
argument_stack fuel parse rsp m =
    push_strings fuel (reverse_onto parse []) [] rsp m >>= λ (parse', rsp₁, m₁).
    let (rsp₂, m₂) = push_zeros (rsp₁ % 8) rsp₁ m₁ in
    let (rsp₃, m₃) = push_pointer 0 rsp₂ m₂ in
    let (rsp₄, m₄) = push_pointers (reverse_onto parse' []) rsp₃ m₃ in
    let (rsp₅, m₅) = push_pointer 0 rsp₄ m₄ in some (parse', rsp₅, m₅)

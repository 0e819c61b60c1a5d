-- ===== src/Arguments/Tests.antt =====
-- A run of `argument_stack` of userprog/process.c.
use pintos_vm.Base.{ℕ, ◌≡◌, refl, Option, none, some, List, [], ◌∷◌, ◌==◌, if◌then◌else◌}
use pintos_vm.CString.{Bytes, strlen}
use pintos_vm.Arguments.{
  push_bytes, push_strings, push_zeros, store_from, push_pointer, push_pointers, argument_stack,
}

-- "a" at 110 and "bc" at 120, above the stack.
abbrev bytes : Bytes
bytes a = if a == 110 then 97 else (if a == 120 then 98 else (if a == 121 then 99 else 0))

look : Option (List ℕ × ℕ × Bytes) → List ℕ
look none = []
look (some (parse, rsp, m)) = rsp ∷ m 95 ∷ m 96 ∷ m 97 ∷ m 98 ∷ m 64 ∷ m 72 ∷ parse

-- The strings stand at 95 and 97, and their addresses at 64 and 72.
arguments :
    look (argument_stack 4 (110 ∷ 120 ∷ []) 100 bytes)
    ≡ 56 ∷ 97 ∷ 0 ∷ 98 ∷ 99 ∷ 95 ∷ 97 ∷ 95 ∷ 97 ∷ []
unfolding argument_stack push_strings push_bytes push_zeros push_pointer push_pointers store_from
    look strlen
arguments = refl

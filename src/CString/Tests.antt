-- ===== src/CString/Tests.antt =====
-- Runs of lib/string.c.
use pintos_vm.Base.{
  zero, suc, false, inr, none, ◌<◌, ℕ, ◌+◌, ◌≡◌, refl, Option, some, arith, Returns, if◌then◌else◌,
  ◌==◌,
}
use pintos_vm.CString.{Bytes, strlcpy, memmove, strtok_r, skip_delimiters, token_end, strchr}
use pintos_vm.CString.Bounded.{IsString, IsCut, strlcpy_lem}
use pintos_vm.CString.Copy.{IsCopied, memmove_lem}

-- "abcab" at 100, "ab" at 200, "," at 300, and zeros everywhere else.
abbrev memory : Bytes
memory a =
    if a == 100
    then 97
    else (if a == 101
        then 98
        else (if a == 102
            then 99
            else (if a == 103
                then 97
                else (if a == 104
                    then 98
                    else (if a == 200
                        then 97
                        else (if a == 201 then 98 else (if a == 300 then 99 else 0)))))))

five : IsString memory 100 5
five = record { characters = characters; terminator = refl }
  where
    characters : (i : ℕ) → i < 5 → (memory (100 + i) == 0) ≡ false
    characters zero l = refl
    characters (suc zero) l = refl
    characters (suc (suc zero)) l = refl
    characters (suc (suc (suc zero))) l = refl
    characters (suc (suc (suc (suc zero)))) l = refl
    characters (suc (suc (suc (suc (suc i))))) l = absurd (omega arith)

abbrev positions : Option (Option ℕ × ℕ × Bytes) → Option (Option ℕ × ℕ)
positions none = none
positions (some (t, p, m)) = some (t, p)

-- The token ends at the delimiter 'c', and the search goes on behind it.
token : positions (strtok_r 9 (some 100) 300 0 memory) ≡ some (some 100, 103)
unfolding strtok_r skip_delimiters token_end strchr
token = refl

memmove_lem_example :
    let r = memmove 101 100 4 memory in IsCopied 101 100 4 memory r.1 × (r.0 ≡ 101)
memmove_lem_example = memmove_lem 101 100 4 memory

strlcpy_lem_example : Returns (IsCut memory 400 4 0 5 100) (strlcpy 9 400 100 4 memory)
strlcpy_lem_example = strlcpy_lem 9 400 100 5 4 memory five (omega arith) (inr (omega arith))

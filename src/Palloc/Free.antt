-- ===== src/Palloc/Free.antt =====
-- Freeing what threads/palloc.c gave out.
use pintos_vm.Base.{ℕ, ◌≡◌, Bool, Option, none, some, Returns}
use pintos_vm.Bitmap.{Bitmap}
use pintos_vm.Bitmap.Bits.{bit}
use pintos_vm.Palloc.{Pools, pool_of, palloc_free_multiple}

-- In both pools the same pages are used.
abbrev pub IsSameUse : Pools → Pools → Type 0
IsSameUse m m' =
    (user : Bool) (j : ℕ) → bit (pool_of user m').used_map j ≡ bit (pool_of user m).used_map j

-- What a later call of `palloc_free_multiple` does.
abbrev pub IsReturned : Pools → ℕ → Option ℕ × Pools → Type 0
IsReturned m cnt (none, m') = Unit
IsReturned m cnt (some pages, m') = Returns (IsSameUse m) (palloc_free_multiple pages cnt m')

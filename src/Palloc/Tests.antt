-- ===== src/Palloc/Tests.antt =====
-- Runs of threads/palloc.c.
use pintos_vm.Base.{◌≡◌, refl, ◌⊎◌, inl, true, false, none, [], ◌∷◌, arith, replicate, Returns}
use pintos_vm.Palloc.{Pools, PallocFlags, palloc_get_multiple}
use pintos_vm.Palloc.Pages.{ArePools, IsAnswer, IsShort, palloc_get_multiple_lem}

-- Two pools of eight pages; the first page of each is used.
abbrev sample : Pools
sample = record {
  kernel_pool = record {
    used_map = record { bit_cnt = 8; bits = (true ∷ replicate 63 false) ∷ [] };
    base = 40960;
  };
  user_pool = record {
    used_map = record { bit_cnt = 8; bits = (true ∷ replicate 63 false) ∷ [] };
    base = 81920;
  };
  bytes = λ a. a;
}

abbrev user_flags : PallocFlags
user_flags = record { pal_assert = false; pal_zero = true; pal_user = true }

sample-ArePools : ArePools sample
sample-ArePools = record {
  kernel = record { valid = omega arith; aligned = refl; not_null = omega arith };
  user = record { valid = omega arith; aligned = refl; not_null = omega arith };
  disjoint = inl (omega arith);
}

palloc_get_multiple_lem_example :
    Returns (IsAnswer user_flags 3 sample) (palloc_get_multiple user_flags 3 sample)
    ⊎ ((false ≡ true) × IsShort true 3 sample × (palloc_get_multiple user_flags 3 sample ≡ none))
palloc_get_multiple_lem_example =
    palloc_get_multiple_lem user_flags 3 sample sample-ArePools.user (omega arith)

-- ===== src/FreeMap/Tests.antt =====
-- Concrete runs of the free map of filesys/free-map.c.
use pintos_vm.Base.{Returns, true, false, [], ◌∷◌, arith, replicate}
use pintos_vm.Bitmap.Bits.{IsValid}
use pintos_vm.FreeMap.{FreeMap, free_map_allocate}
use pintos_vm.FreeMap.Allocate.{IsAllocated, free_map_allocate_lem}

-- A disk of 20 sectors of which the first two are in use.
abbrev fresh : FreeMap
fresh = record {
  map = record { bit_cnt = 20; bits = (true ∷ true ∷ replicate 62 false) ∷ [] };
  has_file = true;
}

fresh-IsValid : IsValid fresh.map
fresh-IsValid = omega arith

free_map_allocate_lem_example :
    Returns (IsAllocated false fresh 3) (free_map_allocate false fresh 3)
free_map_allocate_lem_example = free_map_allocate_lem false fresh 3 fresh-IsValid (omega arith)

-- ===== src/Vm/Roundtrip.antt =====
-- vm/anon.c: a page that is swapped out and in again holds what it held.
use pintos_vm.Base.{ℕ, ◌+◌, ◌<◌, ◌≡◌, some}
use pintos_vm.Bitmap.Bits.{bit}
use pintos_vm.Vm.{Vm, set_page, set_frame}

-- The page got the frame `f`, and the memory changed in any way.
abbrev pub moved : ℕ → ℕ → ℕ → (ℕ → ℕ) → Vm → Vm
moved p f kva memory vm =
    set_frame f (record { kva = kva; page = some p })
      (set_page p (record (vm.pages p) { frame = some f }) (record vm { memory = memory }))

-- The frame at `kva'` holds what the frame at `kva` held, and the same slots are in use.
abbrev pub IsBack : Vm → ℕ → ℕ → Vm → Type 0
IsBack vm kva kva' vm' =
    ((j : ℕ) → j < 4096 → vm'.memory (kva' + j) ≡ vm.memory (kva + j))
    × ((j : ℕ) → bit vm'.swap_bitmap j ≡ bit vm.swap_bitmap j)

-- ===== src/Vm/Claim/Obtain.antt =====
-- `vm_get_frame` of vm/vm.c: a free page of memory, or the frame of a page that goes to the swap disk.
use pintos_vm.Base.{ℕ, ◌<◌, ◌≡◌, false, some, List, [], ◌∷◌}
use pintos_vm.Bitmap.Bits.{bit}
use pintos_vm.Vm.{Vm, anon_ops}

-- The first frame of the list can be evicted: it holds an anonymous page, and a slot is free.
pub record CanEvict (vm : Vm) (f : ℕ) (fs : List ℕ) (p slot : ℕ) : Type 0 where
  pub front : vm.frame_list ≡ f ∷ fs
  pub used : (vm.frames f).page ≡ some p
  pub anonymous : (vm.pages p).operations ≡ anon_ops
  pub in_range : slot < vm.swap_bitmap.bit_cnt
  pub is_free : bit vm.swap_bitmap slot ≡ false

-- Why there is a frame: a free page of memory and room for its record, or a page to evict.
pub data CanGet (vm : Vm) : Type 0 where
  from_pool :
      (kva f : ℕ) (pool heap : List ℕ) → vm.pool ≡ kva ∷ pool → vm.heap ≡ f ∷ heap → CanGet vm
  from_page : (f p slot : ℕ) (fs : List ℕ) → vm.pool ≡ [] → CanEvict vm f fs p slot → CanGet vm

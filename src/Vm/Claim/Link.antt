-- ===== src/Vm/Claim/Link.antt =====
-- `vm_do_claim_page` of vm/vm.c gives a page a frame and keeps the links between pages and frames.
use pintos_vm.Base.{ℕ, ◌<◌, ◌≡◌, Bool, true, false, none, some}
use pintos_vm.Vm.{set_page, Entry, set_frame, Vm, Page, anon_ops, uninit_ops, anon_initializer}
use pintos_vm.Vm.Claim.Evict.{AreLinked, IsListed}
use pintos_vm.Bitmap.{Bitmap}

-- A page and a frame that have no partners become each other's.
module _ (vm : Vm) (p f : ℕ) (l : AreLinked vm) (m : IsListed vm f)
    (unused : (vm.frames f).page ≡ none) (no_frame : (vm.pages p).frame ≡ none) where
  abbrev pub paired : Vm
  paired =
      let vm₁ = set_frame f (record (vm.frames f) { page = some p }) vm in
      set_page p (record (vm₁.pages p) { frame = some f }) vm₁

-- A page that `vm_do_claim_page` can load: an anonymous page with a slot, or one that was never used and
-- has no initialiser.
pub data CanLoad (vm : Vm) (x : Page) : Type 0 where
  from_swap : x.operations ≡ anon_ops → x.swap_slot < vm.swap_bitmap.bit_cnt → CanLoad vm x
  from_nothing :
      x.operations ≡ uninit_ops
      → x.page_initializer ≡ anon_initializer
      → x.init ≡ false
      → CanLoad vm x

-- The entry of a page that is present and was not written to.
abbrev pub entry_of : Bool → ℕ → Entry
entry_of writable kva = record { present = true; dirty = false; writable = writable; kva = kva }

-- The page has a frame, and the page table maps the page to it.
pub record IsClaimed (vm : Vm) (p : ℕ) (vm' : Vm) : Type 0 where
  pub linked : AreLinked vm'
  pub frame : ℕ
  pub has_frame : (vm'.pages p).frame ≡ some frame
  pub mapped : vm'.pml4 (vm.pages p).va ≡ entry_of (vm.pages p).writable (vm'.frames frame).kva
  pub anonymous : (vm'.pages p).operations ≡ anon_ops

-- What loading a page into its frame leaves.
record IsIn (w : Vm) (p : ℕ) (w' : Vm) : Type 0 where
  linked : AreLinked w'
  frames : w'.frames ≡ w.frames
  frame : (w'.pages p).frame ≡ (w.pages p).frame
  table : w'.pml4 ≡ w.pml4
  anonymous : (w'.pages p).operations ≡ anon_ops

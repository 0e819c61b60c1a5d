-- ===== src/Vm.antt =====
-- vm/vm.c, vm/anon.c, vm/uninit.c, vm/file.c: the pages of the running process, the frames that hold
-- them, and the swap disk. A `struct page`, a `struct frame` and a `struct file_info` are their addresses.
-- `none` is a failed ASSERT, a PANIC or a null pointer that is followed.
pub mod Claim
pub mod Swap
pub mod Roundtrip
pub mod Tests
use pintos_vm.Base.{
  ℕ, zero, suc, ◌+◌, ◌-◌, ◌*◌, ◌/◌, ◌%◌, ◌^◌, Bool, true, false, not, ◌&&◌, Option, none, some,
  List, [], ◌∷◌, ◌++◌, length, ◌==◌, ltb, leb, if◌then◌else◌, update, keep, ◌>>=◌, ◌>>◌, assert,
}
use pintos_vm.Bitmap.{Bitmap, bitmap_error, bitmap_scan_and_flip, bitmap_set}
use pintos_vm.Device.{Device, disk_read, disk_write}
use pintos_vm.Hash.{Hash}
use pintos_vm.OpenFiles.{FileSystem, file_seek, file_read, file_write_at}

abbrev pub pgsize : ℕ
pgsize = 4096

abbrev pub pg_round_down : ℕ → ℕ
pg_round_down va = va - va % pgsize

-- `struct page_operations`: the three tables.
pub data Operations : Type 0 where
  uninit_ops anon_ops file_ops : Operations

-- `page_initializer` of an uninitialised page.
pub data Initializer : Type 0 where
  anon_initializer file_backed_initializer : Initializer

-- `struct page`. The members of its union begin with the same fields, which the source reads through
-- any of them. `init` says whether `lazy_load_segment` is set; the source has no other initialiser.
pub record Page : Type 0 where
  pub operations : Operations
  pub va : ℕ
  pub frame : Option ℕ
  pub writable : Bool
  pub init : Bool
  pub type : ℕ
  pub aux : Option ℕ
  pub page_initializer : Initializer
  pub swap_slot : ℕ

-- `struct frame`
pub record Frame : Type 0 where
  pub kva : ℕ
  pub page : Option ℕ

-- `struct file_info`
pub record FileInfo : Type 0 where
  pub file : ℕ
  pub ofs : ℕ
  pub page_read_bytes : ℕ
  pub page_zero_bytes : ℕ

-- A page table entry.
pub record Entry : Type 0 where
  pub present : Bool
  pub dirty : Bool
  pub writable : Bool
  pub kva : ℕ

-- `pool` and `heap` are what palloc_get_page and calloc return next. `tables` says for which pages there is a
-- page table or memory for one, `room` whether a bounce buffer can be allocated, and `unset` is what
-- a function of type bool leaves that ends without a return.
pub record Vm : Type 0 where
  pub pages : ℕ → Page
  pub frames : ℕ → Frame
  pub infos : ℕ → FileInfo
  pub frame_list : List ℕ
  pub spt : Hash
  pub pml4 : ℕ → Entry
  pub memory : ℕ → ℕ
  pub swap_disk : Device
  pub swap_bitmap : Bitmap
  pub file_system : FileSystem
  pub pool : List ℕ
  pub heap : List ℕ
  pub tables : ℕ → Bool
  pub room : Bool
  pub unset : Bool

abbrev pub set_page : ℕ → Page → Vm → Vm
set_page p x vm = record vm { pages = update vm.pages p x }

abbrev pub set_frame : ℕ → Frame → Vm → Vm
set_frame f x vm = record vm { frames = update vm.frames f x }

-- The kernel address of the frame of a page.
abbrev pub kva_of : Vm → ℕ → Option ℕ
kva_of vm p = (vm.pages p).frame >>= λ f. some (vm.frames f).kva

abbrev pub vm_type : Operations → ℕ
vm_type uninit_ops = 0
vm_type anon_ops = 1
vm_type file_ops = 2

abbrev pub page_get_type : Page → ℕ
page_get_type page = elim page.operations [
  | uninit_ops ↦ page.type % 8
  | anon_ops ↦ 1
  | file_ops ↦ 2
]

-- The page table, page by page.
abbrev pub pml4_set_page : ℕ → ℕ → Bool → Vm → Bool × Vm
pml4_set_page upage kpage rw vm =
    let e : Entry = record { present = true; dirty = false; writable = rw; kva = kpage } in
    if vm.tables upage then (true, record vm { pml4 = update vm.pml4 upage e }) else (false, vm)

abbrev pub pml4_clear_page : ℕ → Vm → Vm
pml4_clear_page upage vm = record vm {
  pml4 = update vm.pml4 upage (record (vm.pml4 upage) { present = false });
}

abbrev pub pml4_set_dirty : ℕ → Bool → Vm → Vm
pml4_set_dirty vpage dirty vm = record vm {
  pml4 = update vm.pml4 vpage (record (vm.pml4 vpage) { dirty = dirty });
}

pub uninit_new : ℕ → Bool → ℕ → Option ℕ → Initializer → Page
uninit_new va init type aux initializer = record {
  operations = uninit_ops;
  va = va;
  frame = none;
  writable = false;
  init = init;
  type = type;
  aux = aux;
  page_initializer = initializer;
  swap_slot = 0;
}

-- -1 as a `disk_sector_t`.
abbrev pub no_slot : ℕ
no_slot = 2 ^ 32 - 1

-- The loops of `anon_swap_in` and `anon_swap_out` over the sectors of a page, with `n` rounds left.
abbrev pub load_sector : (ℕ → ℕ) → ℕ → (ℕ → ℕ) → ℕ → ℕ
load_sector s to memory a = if leb to a && ltb a (to + 512) then s (a - to) else memory a

pub read_sectors : ℕ → ℕ → ℕ → ℕ → Device → (ℕ → ℕ) → Option (ℕ → ℕ)
read_sectors zero i slot kva d memory = some memory
read_sectors (suc n) i slot kva d memory = disk_read d ((slot * 8 + i) % 2 ^ 32) >>= λ s.
    read_sectors n (i + 1) slot kva d (load_sector s (kva + 512 * i) memory)

pub write_sectors : ℕ → ℕ → ℕ → ℕ → (ℕ → ℕ) → Device → Option Device
write_sectors zero i slot kva memory d = some d
write_sectors (suc n) i slot kva memory d =
    disk_write d ((slot * 8 + i) % 2 ^ 32) (λ o. memory (kva + 512 * i + o)) >>= λ d'.
    write_sectors n (i + 1) slot kva memory d'

-- The swap lock is held from before the first sector to the end, so that each call is one step.
pub anon_swap_in : Vm → ℕ → Option (Bool × Vm)
unfolding read_sectors
anon_swap_in vm p = kva_of vm p >>= λ kva.
    let page = vm.pages p in
    read_sectors 8 0 page.swap_slot (pg_round_down kva) vm.swap_disk vm.memory >>= λ memory.
    bitmap_set vm.swap_bitmap page.swap_slot false >>= λ b. some (
      true,
      set_page p (record page { swap_slot = no_slot })
          (record vm { memory = memory; swap_bitmap = b }),
    )

pub anon_swap_out : Vm → ℕ → Option (Bool × Vm)
unfolding write_sectors
anon_swap_out vm p = kva_of vm p >>= λ kva.
    let page = vm.pages p in
    bitmap_scan_and_flip vm.swap_bitmap 0 1 false >>= λ (b, idx).
    let swap_slot = idx % 2 ^ 32 in
    assert (not (swap_slot == bitmap_error))
    >> (write_sectors 8 0 swap_slot (pg_round_down kva) vm.memory vm.swap_disk >>= λ d. some (
      true,
      pml4_clear_page (pg_round_down page.va) (
          set_page p (record page { swap_slot = swap_slot })
            (record vm { swap_bitmap = b; swap_disk = d })),
    ))

-- `free` of a pointer that may be null.
abbrev pub free : Option ℕ → Vm → Vm
free none vm = vm
free (some a) vm = record vm { heap = a ∷ vm.heap }

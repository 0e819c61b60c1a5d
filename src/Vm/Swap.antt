-- ===== src/Vm/Swap.antt =====
-- vm/anon.c: the swap disk keeps what a page held.
use pintos_vm.Base.{
  ◌>>◌, not, ◌>>=◌, assert, Returns-bind, inr, ◌==◌, inl, Bool-cases, Returns-mono, ◌/◌, ◌%◌, ◌-◌,
  ◌^◌, if◌then◌else◌, ℕ, zero, suc, ◌+◌, ◌*◌, ◌≤◌, ◌<◌, ◌≡◌, refl, Bool, true, false, Option, some,
  arith, Returns,
}
use pintos_vm.Bitmap.Bits.{bitmap_set_lem, bit, IsValid, IsSetTo}
use pintos_vm.Bitmap.Ranges.{inside}
use pintos_vm.Device.{Device}
use pintos_vm.Vm.{
  set_page, pml4_clear_page, kva_of, pg_round_down, Vm, read_sectors, write_sectors, anon_swap_in,
  no_slot, load_sector,
}
use pintos_vm.Device.Sectors.{disk_read_lem}
use pintos_vm.Bitmap.{bitmap_error, Bitmap, bitmap_set}

-- Sectors `i` to `i + n` of a slot hold the memory from an address on.
record IsStored (d : Device) (slot kva : ℕ) (memory : ℕ → ℕ) (i n : ℕ) (d' : Device) : Type 0 where
  capacity : d'.capacity ≡ d.capacity
  sectors :
      (s o : ℕ)
      → d'.sectors s o ≡ (
          if inside (slot * 8 + i) n s
          then memory (kva + 512 * (s - slot * 8) + o)
          else d.sectors s o)

-- The memory from an address on holds sectors `i` to `i + n` of a slot.
abbrev IsLoaded : Device → ℕ → ℕ → (ℕ → ℕ) → ℕ → ℕ → (ℕ → ℕ) → Type 0
IsLoaded d slot kva memory i n memory' =
    (a : ℕ)
    → memory' a ≡ (
        if inside (kva + 512 * i) (512 * n) a
        then d.sectors (slot * 8 + (a - kva) / 512) ((a - kva) % 512)
        else memory a)

read_sectors_lem :
    (n i slot kva : ℕ) (d : Device) (memory : ℕ → ℕ)
    → slot * 8 + i + n ≤ d.capacity
    → d.capacity ≤ 2 ^ 28
    → Returns (IsLoaded d slot kva memory i n) (read_sectors n i slot kva d memory)
unfolding read_sectors
read_sectors_lem zero i slot kva d memory h k = λ a. ground arith
read_sectors_lem (suc n) i slot kva d memory h k =
    let e : (slot * 8 + i) % 2 ^ 32 ≡ slot * 8 + i = omega arith in
    let s = d.sectors (slot * 8 + i) in
    rw (e, disk_read_lem d (slot * 8 + i) (omega arith) (omega arith))
      (Returns-mono (IsLoaded d slot kva (load_sector s (kva + 512 * i) memory) (i + 1) n)
        (IsLoaded d slot kva memory i (suc n))
        (read_sectors n (i + 1) slot kva d (load_sector s (kva + 512 * i) memory))
        (read_sectors_lem n (i + 1) slot kva d _ (omega arith) k)
        λ m q a. elim (Bool-cases (inside (kva + 512 * i) 512 a)) [
          | inl t ↦
              let p : i ≡ (a - kva) / 512 = ground arith in
              let p' : a - (kva + 512 * i) ≡ (a - kva) % 512 = ground arith in
              let r : s (a - (kva + 512 * i))
                  ≡ d.sectors (slot * 8 + (a - kva) / 512) ((a - kva) % 512) =
                rw (← p, p') refl in
              ground (arith, q a, r)
          | inr ne ↦ ground (arith, q a)
        ])

-- What `anon_swap_out` of a page leaves: a slot that was free is in use and holds what the frame held.
pub record IsSwappedOut (vm : Vm) (p kva : ℕ) (vm' : Vm) : Type 0 where
  pub slot : ℕ
  pub in_range : slot < vm.swap_bitmap.bit_cnt
  pub was_free : bit vm.swap_bitmap slot ≡ false
  pub map : IsSetTo vm.swap_bitmap true (inside slot 1) vm'.swap_bitmap
  pub recorded : vm'.pages p ≡ record (vm.pages p) { swap_slot = slot }
  pub capacity : vm'.swap_disk.capacity ≡ vm.swap_disk.capacity
  pub stored :
      (j : ℕ)
      → j < 4096
      → vm'.swap_disk.sectors (slot * 8 + j / 512) (j % 512) ≡ vm.memory (kva + j)
  pub others :
      (s o : ℕ) → (s / 8 == slot) ≡ false → vm'.swap_disk.sectors s o ≡ vm.swap_disk.sectors s o
  pub shape : vm' ≡ record (set_page p (record (vm.pages p) { swap_slot = slot }) vm) {
    swap_bitmap = vm'.swap_bitmap;
    swap_disk = vm'.swap_disk;
    pml4 = vm'.pml4;
  }
  pub unmapped : (vm'.pml4 (pg_round_down (vm.pages p).va)).present ≡ false

-- What `anon_swap_in` of a page leaves: its frame holds what the slot held, and the slot is free.
pub record IsSwappedIn (vm : Vm) (p kva : ℕ) (vm' : Vm) : Type 0 where
  pub map : IsSetTo vm.swap_bitmap false (λ j. (vm.pages p).swap_slot == j) vm'.swap_bitmap
  pub recorded : vm'.pages p ≡ record (vm.pages p) { swap_slot = no_slot }
  pub loaded :
      (j : ℕ)
      → j < 4096
      → vm'.memory (kva + j) ≡ vm.swap_disk.sectors ((vm.pages p).swap_slot * 8 + j / 512) (j % 512)
  pub others : (a : ℕ) → inside kva 4096 a ≡ false → vm'.memory a ≡ vm.memory a
  pub shape : vm' ≡ record (set_page p (record (vm.pages p) { swap_slot = no_slot }) vm) {
    memory = vm'.memory;
    swap_bitmap = vm'.swap_bitmap;
  }

-- A call that returns true, in a state with `P`.
abbrev pub ReturnsTrue : (Vm → Type 0) → Option (Bool × Vm) → Type 0
ReturnsTrue P m = Returns (λ (ok, vm). (ok ≡ true) × P vm) m

-- The swap disk has eight sectors for each bit of its bitmap, as `vm_anon_init` arranges.
pub record HasSwap (vm : Vm) : Type 0 where
  pub valid : IsValid vm.swap_bitmap
  pub sectors : vm.swap_bitmap.bit_cnt * 8 ≤ vm.swap_disk.capacity
  pub small : vm.swap_disk.capacity ≤ 2 ^ 28
  pub some_slot : 1 ≤ vm.swap_bitmap.bit_cnt

module _ (vm : Vm) (p f kva : ℕ) (h : HasSwap vm) (linked : (vm.pages p).frame ≡ some f)
    (at_kva : (vm.frames f).kva ≡ kva) (aligned : kva % 4096 ≡ 0) where
  kva-eq : kva_of vm p ≡ some kva
  kva-eq = rw (linked, at_kva) refl

  rounded : pg_round_down kva ≡ kva
  rounded = omega arith

  -- What `anon_swap_out` does with the slot that it found.
  abbrev swap_to : Bitmap → ℕ → Option (Bool × Vm)
  swap_to b swap_slot =
      assert (not (swap_slot == bitmap_error))
      >> (write_sectors 8 0 swap_slot kva vm.memory vm.swap_disk >>= λ d. some (
        true,
        pml4_clear_page (pg_round_down (vm.pages p).va) (
            set_page p (record (vm.pages p) { swap_slot = swap_slot })
              (record vm { swap_bitmap = b; swap_disk = d })),
      ))

  abbrev IsFull : Type 0
  IsFull = (j : ℕ) → j < vm.swap_bitmap.bit_cnt → bit vm.swap_bitmap j ≡ true

  -- `anon_swap_in` of a page that has a slot returns true, fills the page's frame from the slot and
  -- frees the slot.
  pub anon_swap_in_lem :
      (vm.pages p).swap_slot < vm.swap_bitmap.bit_cnt
      → ReturnsTrue (IsSwappedIn vm p kva) (anon_swap_in vm p)
  unfolding anon_swap_in
  anon_swap_in_lem l =
      rw (kva-eq, rounded)
        (Returns-bind (IsLoaded vm.swap_disk (vm.pages p).swap_slot kva vm.memory 0 8) _
          (read_sectors 8 0 (vm.pages p).swap_slot kva vm.swap_disk vm.memory) _
          (read_sectors_lem 8 0 (vm.pages p).swap_slot kva vm.swap_disk vm.memory
            (omega (arith, h.sectors)) h.small)
          λ m q.
            Returns-bind (IsSetTo vm.swap_bitmap false (λ j. (vm.pages p).swap_slot == j)) _
              (bitmap_set vm.swap_bitmap (vm.pages p).swap_slot false) _
              (bitmap_set_lem vm.swap_bitmap (vm.pages p).swap_slot false h.valid l)
              λ b r. (
                refl,
                record {
                  map = r;
                  recorded = ground arith;
                  loaded = λ j k.
                      let e : kva + j - kva ≡ j = omega arith in
                      let r : vm.swap_disk.sectors
                            ((vm.pages p).swap_slot * 8 + (kva + j - kva) / 512)
                            ((kva + j - kva) % 512)
                          ≡ vm.swap_disk.sectors ((vm.pages p).swap_slot * 8 + j / 512) (j % 512) =
                        rw e refl in
                      ground (arith, q (kva + j), r);
                  others = λ a k. ground (arith, q a);
                  shape = refl;
                },
              ))

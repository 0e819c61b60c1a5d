-- ===== src/Vm/Claim.antt =====
-- vm/vm.c, and the operations of pages in vm/uninit.c, vm/anon.c and vm/file.c: loading, evicting and
-- claiming pages, the supplemental page table, and page faults.
pub mod Evict
pub mod Obtain
pub mod Link
pub mod Table
pub mod Allocate
use pintos_vm.Base.{
  assert, ◌>>◌, get_or, replicate, zero, length, [], ◌==◌, ◌*◌, ◌&&◌, ◌%◌, ◌++◌, ◌-◌, ◌+◌, ◌/◌, not,
  leb, update, ◌∷◌, keep, ◌^◌, ◌>>=◌, if◌then◌else◌, List, suc, ltb, map, ℕ, Bool, true, false,
  Option, none, some,
}
use pintos_vm.Hash.{hash_bytes, hash_find, hash_insert, fnv_64_basis}
use pintos_vm.Vm.{
  pml4_set_dirty, pml4_set_page, pgsize, set_frame, pml4_clear_page, anon_swap_out, pg_round_down,
  kva_of, uninit_new, set_page, anon_swap_in, no_slot, Vm, Page, Frame, FileInfo, Entry, Operations,
  Initializer, uninit_ops, anon_ops, file_ops, anon_initializer, file_backed_initializer,
}
use pintos_vm.OpenFiles.{file_read, file_seek, file_write_at}

-- The bytes of a list from an address on.
abbrev pub store_bytes : (ℕ → ℕ) → ℕ → List ℕ → ℕ → ℕ
store_bytes memory to bytes a =
    if leb to a && ltb a (to + length bytes) then get_or bytes (a - to) 0 else memory a

abbrev pub release_page : ℕ → Vm → Vm
release_page kva vm = record vm { pool = kva ∷ vm.pool }

-- userprog/process.c
pub lazy_load_segment : Vm → ℕ → Option ℕ → Option (Bool × Vm)
lazy_load_segment vm p none = none
lazy_load_segment vm p (some aux) =
    let info = vm.infos aux in
    kva_of vm p >>= λ kpage.
    let fs = file_seek vm.file_system info.file info.ofs in
    let (bytes, fs') = file_read vm.room fs info.file info.page_read_bytes in
    let memory = store_bytes vm.memory kpage bytes in
    let vm' = record vm { file_system = fs'; memory = memory } in
    some (
      if not (length bytes == info.page_read_bytes) then (false, release_page kpage vm') else (
        true,
        record vm' {
          memory =
              store_bytes memory (kpage + info.page_read_bytes) (replicate info.page_zero_bytes 0);
        },
      ))

-- What the initialiser of a page returns, and the page it leaves.
abbrev pub initialize : Vm → Initializer → Page → Bool × Page
initialize vm anon_initializer page =
    (true, record page { operations = anon_ops; swap_slot = no_slot })
initialize vm file_backed_initializer page = (vm.unset, record page { operations = file_ops })

pub uninit_initialize : Vm → ℕ → Option (Bool × Vm)
unfolding lazy_load_segment
uninit_initialize vm p =
    let page = vm.pages p in
    let (ok, page') = initialize vm page.page_initializer page in
    let vm' = set_page p page' vm in
    if ok
    then (if page.init then lazy_load_segment vm' p page.aux else some (true, vm'))
    else some (false, vm')

pub file_backed_swap_in : Vm → ℕ → Option (Bool × Vm)
unfolding lazy_load_segment
file_backed_swap_in vm p = lazy_load_segment vm p (vm.pages p).aux >>= λ (ok, vm'). some (true, vm')

-- The write-back of `file_backed_swap_out` and `file_backed_destroy`.
abbrev pub write_back : Vm → ℕ → ℕ → Option ℕ → Vm
write_back vm va kva none = vm
write_back vm va kva (some aux) =
    let info = vm.infos aux in
    if (vm.pml4 va).dirty
    then (let (n, fs) =
          file_write_at vm.room vm.file_system info.file (λ j. vm.memory (kva + j))
            info.page_read_bytes info.ofs in
        record vm { file_system = fs })
    else vm

-- The frame is followed only if the page is dirty and has its `file_info`.
abbrev pub needs_frame : Vm → ℕ → Option ℕ → Bool
needs_frame vm va none = false
needs_frame vm va (some aux) = (vm.pml4 va).dirty

abbrev pub written_back : Vm → ℕ → ℕ → Option Vm
written_back vm p va =
    let aux = (vm.pages p).aux in
    if needs_frame vm va aux
    then (kva_of vm p >>= λ kva. some (write_back vm va (pg_round_down kva) aux))
    else some vm

pub file_backed_swap_out : Vm → ℕ → Option (Bool × Vm)
file_backed_swap_out vm p =
    let va = pg_round_down (vm.pages p).va in
    written_back vm p va >>= λ vm'. some (true, pml4_clear_page va (pml4_set_dirty va false vm'))

-- The members of the tables of operations. That of an uninitialised page has no `swap_out`.
pub swap_in_of : Operations → Vm → ℕ → Option (Bool × Vm)
unfolding uninit_initialize anon_swap_in file_backed_swap_in
swap_in_of uninit_ops vm p = uninit_initialize vm p
swap_in_of anon_ops vm p = anon_swap_in vm p
swap_in_of file_ops vm p = file_backed_swap_in vm p

pub swap_out_of : Operations → Vm → ℕ → Option (Bool × Vm)
unfolding anon_swap_out file_backed_swap_out
swap_out_of uninit_ops vm p = none
swap_out_of anon_ops vm p = anon_swap_out vm p
swap_out_of file_ops vm p = file_backed_swap_out vm p

-- `swap_in (page, kva)` and `swap_out (page)`.
abbrev pub swap_in : Vm → ℕ → Option (Bool × Vm)
swap_in vm p = swap_in_of (vm.pages p).operations vm p

abbrev pub swap_out : Vm → ℕ → Option (Bool × Vm)
swap_out vm p = swap_out_of (vm.pages p).operations vm p

-- `list_front` asserts that the list is not empty.
abbrev pub vm_get_victim : Vm → Option ℕ
vm_get_victim vm = elim vm.frame_list [ [] ↦ none | f ∷ fs ↦ some f ]

-- What `vm_evict_frame` does once the page is swapped out.
abbrev pub unlink : ℕ → ℕ → Vm → Vm
unlink f p vm =
    let vm' = record vm { frame_list = keep (λ g. not (g == f)) vm.frame_list } in
    set_frame f (record (vm'.frames f) { page = none })
      (set_page p (record (vm'.pages p) { frame = none }) vm')

pub vm_evict_frame : Vm → Option (Option ℕ × Vm)
unfolding swap_out_of
vm_evict_frame vm = vm_get_victim vm >>= λ victim. (vm.frames victim).page >>= λ p.
    swap_out vm p >>= λ (ok, vm').
    some (if not ok then (none, vm') else (some victim, unlink victim p vm'))

-- The frame that `vm_get_frame` puts in the list.
pub find_frame : Vm → Option (ℕ × Vm)
unfolding vm_evict_frame
find_frame vm = elim vm.pool [
  | [] ↦ vm_evict_frame vm >>= λ (r, vm'). r >>= λ f. some (f, vm')
  | kva ∷ pool ↦ elim vm.heap [
    | [] ↦ none
    | f ∷ heap ↦ some (
      f,
      set_frame f (record { kva = kva; page = none }) (record vm { pool = pool; heap = heap }),
    )
  ]
]

pub vm_get_frame : Vm → Option (ℕ × Vm)
unfolding find_frame
vm_get_frame vm = find_frame vm >>= λ (f, vm').
    let vm'' = record vm' { frame_list = vm'.frame_list ++ f ∷ [] } in
    some (f, set_frame f (record (vm''.frames f) { page = none }) vm'')

-- What `vm_do_claim_page` does with the frame.
abbrev pub claim_with : Vm → ℕ → ℕ → Option (Bool × Vm)
claim_with vm p f =
    let vm₁ = set_frame f (record (vm.frames f) { page = some p }) vm in
    let vm₂ = set_page p (record (vm₁.pages p) { frame = some f }) vm₁ in
    let page = vm₂.pages p in
    let (ok, vm₃) = pml4_set_page page.va (vm₂.frames f).kva page.writable vm₂ in
    if not ok then some (false, vm₃) else swap_in vm₃ p

pub vm_do_claim_page : Vm → ℕ → Option (Bool × Vm)
unfolding vm_get_frame swap_in_of
vm_do_claim_page vm p = vm_get_frame vm >>= λ (f, vm'). claim_with vm' p f

-- `spt_hash_func` and `spt_hash_less_func`, for the addresses that pages have.
abbrev pub spt_hash_func : (ℕ → ℕ) → ℕ → ℕ
spt_hash_func va e =
    hash_bytes fnv_64_basis
      (map (λ i. va e / 2 ^ (8 * i) % 256) (0 ∷ 1 ∷ 2 ∷ 3 ∷ 4 ∷ 5 ∷ 6 ∷ 7 ∷ []))

abbrev pub spt_hash_less_func : (ℕ → ℕ) → ℕ → ℕ → Bool
spt_hash_less_func va a b = ltb (va a) (va b)

abbrev pub va_of : Vm → ℕ → ℕ
va_of vm p = (vm.pages p).va

-- `spt_find_page` has a page of its own on the stack as the key; here it stands at address 0.
abbrev pub with_key : Vm → ℕ → ℕ → ℕ
with_key vm va = update (va_of vm) 0 (pg_round_down va)

pub spt_find_page : Vm → ℕ → Option ℕ
spt_find_page vm va =
    hash_find (spt_hash_func (with_key vm va)) (spt_hash_less_func (with_key vm va)) vm.spt 0

pub spt_insert_page : Vm → ℕ → Bool × Vm
spt_insert_page vm p =
    let (old, h) =
      hash_insert (spt_hash_func (va_of vm)) (spt_hash_less_func (va_of vm)) vm.room vm.spt p in
    (elim old [ none ↦ true | some q ↦ false ], record vm { spt = h })

-- The type VM_ANON is 1 and VM_FILE is 2. A page of another type has no operations, and the first use
-- of it follows a null pointer; no caller asks for one.
abbrev pub initializer_of : ℕ → Option Initializer
initializer_of type =
    if type % 8 == 1
    then some anon_initializer
    else (if type % 8 == 2 then some file_backed_initializer else none)

pub vm_alloc_page_with_initializer : Vm → ℕ → ℕ → Bool → Bool → Option ℕ → Option (Bool × Vm)
unfolding spt_find_page spt_insert_page uninit_new
vm_alloc_page_with_initializer vm type upage writable init aux = do
  assert (not (type % 8 == 0))
  elim (spt_find_page vm upage) [
    | some p ↦ some (false, vm)
    | none ↦ elim vm.heap [
      | [] ↦ some (false, vm)
      | p ∷ heap ↦ initializer_of type >>= λ initializer.
          let page = uninit_new upage init type aux initializer in
          some (
            spt_insert_page
              (set_page p (record page { writable = writable }) (record vm { heap = heap })) p)
    ]
  ]

pub vm_claim_page : Vm → ℕ → Option (Bool × Vm)
unfolding spt_find_page vm_do_claim_page
vm_claim_page vm va = elim (spt_find_page vm va) [
  | none ↦ some (false, vm)
  | some p ↦ vm_do_claim_page vm p
]

-- The loop of `vm_stack_growth`, which ends at the next address that has a page; `fuel` bounds its rounds.
pub grow : ℕ → Vm → ℕ → Option Vm
unfolding spt_find_page vm_alloc_page_with_initializer vm_claim_page
grow zero vm addr = none
grow (suc fuel) vm addr = elim (spt_find_page vm addr) [
  | some p ↦ some vm
  | none ↦ vm_alloc_page_with_initializer vm 9 addr true false none >>= λ (ok, vm').
      vm_claim_page vm' addr >>= λ (ok', vm''). grow fuel vm'' (addr + pgsize)
]

pub vm_stack_growth : ℕ → Vm → ℕ → Option Vm
unfolding grow
vm_stack_growth fuel vm addr = grow fuel vm (pg_round_down addr)

abbrev pub user_stack : ℕ
user_stack = 1195900928

abbrev pub stack_max_size : ℕ
stack_max_size = 2 ^ 20

-- The condition under which a fault grows the stack; VM_MARKER_0 is bit 3.
abbrev pub is_stack_access : ℕ → ℕ → Bool
is_stack_access addr rsp =
    ltb (user_stack - stack_max_size) addr && ((addr / 8 % 2 == 1) && (addr + 8 == rsp))

pub vm_try_handle_fault : ℕ → Vm → ℕ → ℕ → Bool → Option (Bool × Vm)
unfolding spt_find_page vm_claim_page vm_stack_growth
vm_try_handle_fault fuel vm addr rsp not_present =
    if not_present
    then elim (spt_find_page vm (pg_round_down addr)) [
      | some p ↦ vm_claim_page vm addr
      | none ↦
          let grown = vm_stack_growth fuel vm addr in
          if is_stack_access addr rsp then (grown >>= λ vm'. some (true, vm')) else some (false, vm)
    ]
    else some (false, vm)

-- ===== src/Vm/Tests.antt =====
-- Concrete states of vm/vm.c and vm/anon.c.
use pintos_vm.Base.{◌%◌, ◌*◌, true, false, none, some, [], ◌∷◌, ◌==◌, replicate, if◌then◌else◌}
use pintos_vm.Vm.{Vm, anon_ops, uninit_ops, anon_initializer}

-- Page 1 is anonymous and has the frame 21; page 2 was never used. There is no free page of memory.
abbrev full : Vm
full = record {
  pages = λ p. record {
    operations = if p == 1 then anon_ops else uninit_ops;
    va = 4096 * p;
    frame = if p == 1 then some 21 else none;
    writable = true;
    init = false;
    type = 1;
    aux = none;
    page_initializer = anon_initializer;
    swap_slot = 0;
  };
  frames = λ f. record { kva = 65536; page = some 1 };
  infos = λ a. record { file = 0; ofs = 0; page_read_bytes = 0; page_zero_bytes = 4096 };
  frame_list = 21 ∷ [];
  spt = record { elem_cnt = 0; bucket_cnt = 4; buckets = λ i. [] };
  pml4 = λ a. record { present = false; dirty = false; writable = false; kva = 0 };
  memory = λ a. a % 256;
  swap_disk = record { capacity = 24; sectors = λ s o. 0 };
  swap_bitmap = record { bit_cnt = 3; bits = (true ∷ replicate 63 false) ∷ [] };
  file_system = record {
    inodes = λ i. record {
      sector = 0;
      open_cnt = 0;
      removed = false;
      deny_write_cnt = 0;
      start = 0;
      length = 0;
    };
    open_inodes = [];
    files = λ f. record { inode = 0; pos = 0; deny_write = false };
    filesys_disk = record { capacity = 0; sectors = λ s o. 0 };
    free_map = record { map = record { bit_cnt = 0; bits = [] }; has_file = false };
  };
  pool = [];
  heap = 5 ∷ 6 ∷ [];
  tables = λ a. true;
  room = true;
  unset = true;
}

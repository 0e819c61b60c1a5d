-- ===== src/FdTable/Tests.antt =====
-- Runs of the file descriptor table of userprog/syscall.c.
use pintos_vm.Base.{◌≡◌, refl, none, some, ltb, if◌then◌else◌, arith}
use pintos_vm.Base.Int.{pos}
use pintos_vm.FdTable.{FdTable, add_file_to_fdt, find_file_by_fd}
use pintos_vm.FdTable.Lookup.{IsAdded, add_file_to_fdt_lem}

-- Slots 0 to 3 are taken.
abbrev table : FdTable
table = record { fdt = λ i. if ltb i 4 then some 1 else none; fd_index = 2 }

-- The descriptor behind the last one is not refused.
find-limit : find_file_by_fd (pos 1536) table ≡ none
unfolding find_file_by_fd
find-limit = refl

add_file_to_fdt_lem_example :
    IsAdded 900 table (add_file_to_fdt 900 table).0 (add_file_to_fdt 900 table).1
add_file_to_fdt_lem_example = add_file_to_fdt_lem 900 table (omega arith)

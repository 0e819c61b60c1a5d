-- ===== src/FdTable.antt =====
-- The file descriptor table of a thread in userprog/syscall.c.
pub mod Lookup
mod Tests
use pintos_vm.Base.{
  ℕ, zero, suc, ◌+◌, ◌-◌, Bool, true, false, not, ◌&&◌, Option, none, some, ltb, leb, if◌then◌else◌,
  update,
}
use pintos_vm.Base.Int.{ℤ, pos, negsuc}

-- `FDCOUNT_LIMIT`: as many pointers as fit in `FDT_PAGES` pages.
abbrev pub fdcount_limit : ℕ
fdcount_limit = 1536

-- `fdt` and `fd_index` of `struct thread`; a file is its address, and `none` is a null pointer.
pub record FdTable : Type 0 where
  pub fdt : ℕ → Option ℕ
  pub fd_index : ℕ

abbrev pub is_open : Option ℕ → Bool
is_open none = false
is_open (some file) = true

-- The `while` loop of `add_file_to_fdt`, with `n` slots up to the limit.
pub skip_open : (ℕ → Option ℕ) → ℕ → ℕ → ℕ
skip_open fdt zero i = i
skip_open fdt (suc n) i = let rest = skip_open fdt n (i + 1) in if is_open (fdt i) then rest else i

pub add_file_to_fdt : ℕ → FdTable → ℤ × FdTable
unfolding skip_open
add_file_to_fdt file t =
    let i = skip_open t.fdt (fdcount_limit - t.fd_index) t.fd_index in
    if leb fdcount_limit i
    then (negsuc 0, record t { fd_index = i })
    else (pos i, record t { fdt = update t.fdt i (some file); fd_index = i })

-- The test of both functions lets the limit itself pass, one slot behind the table: then the access is
-- out of bounds, which gives `none`.
pub remove_file_from_fdt : ℤ → FdTable → Option FdTable
remove_file_from_fdt (negsuc n) t = some t
remove_file_from_fdt (pos fd) t =
    if ltb fdcount_limit fd
    then some t
    else (if ltb fd fdcount_limit then some (record t { fdt = update t.fdt fd none }) else none)

pub find_file_by_fd : ℤ → FdTable → Option (Option ℕ)
find_file_by_fd (negsuc n) t = some none
find_file_by_fd (pos fd) t =
    if ltb fdcount_limit fd
    then some none
    else (if ltb fd fdcount_limit then some (t.fdt fd) else none)

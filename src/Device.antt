-- ===== src/Device.antt =====
-- devices/disk.c: what reading and writing a sector does to the data. The commands to the controller
-- and the wait for its interrupt are left out.
pub mod Sectors
use pintos_vm.Base.{
  ℕ, zero, suc, ◌+◌, ◌*◌, ◌^◌, Bool, Option, none, some, ltb, update, ◌>>=◌, ◌>>◌, assert,
}

-- A disk: its capacity in sectors, and the byte at an offset of a sector.
pub record Device : Type 0 where
  pub capacity : ℕ
  pub sectors : ℕ → ℕ → ℕ

abbrev pub disk_size : Device → ℕ
disk_size d = d.capacity

-- The ASSERTs of `select_sector`.
abbrev pub select_sector : Device → ℕ → Option (Unit {0})
select_sector d sec_no = do assert (ltb sec_no d.capacity); assert (ltb sec_no (2 ^ 28))

-- The bytes that come into the buffer.
abbrev pub disk_read : Device → ℕ → Option (ℕ → ℕ)
disk_read d sec_no = select_sector d sec_no >> some (d.sectors sec_no)

abbrev pub disk_write : Device → ℕ → (ℕ → ℕ) → Option Device
disk_write d sec_no buffer =
    select_sector d sec_no >> some (record d { sectors = update d.sectors sec_no buffer })

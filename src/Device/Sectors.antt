-- ===== src/Device/Sectors.antt =====
-- Reading and writing the sectors of a disk of devices/disk.c.
use pintos_vm.Base.{ℕ, ◌^◌, ◌<◌, ◌≡◌, refl, true, arith, ltb, some, update}
use pintos_vm.Device.{Device, select_sector, disk_read, disk_write}

pub select_sector_lem :
    (d : Device) (sec_no : ℕ)
    → sec_no < d.capacity
    → sec_no < 2 ^ 28
    → select_sector d sec_no ≡ some tt
select_sector_lem d sec_no h k =
    let e : ltb sec_no d.capacity ≡ true = ground arith in
    let e' : ltb sec_no (2 ^ 28) ≡ true = ground arith in rw (e, e') refl

pub disk_read_lem :
    (d : Device) (sec_no : ℕ)
    → sec_no < d.capacity
    → sec_no < 2 ^ 28
    → disk_read d sec_no ≡ some (d.sectors sec_no)
disk_read_lem d sec_no h k = rw (select_sector_lem d sec_no h k) refl

pub disk_write_lem :
    (d : Device) (sec_no : ℕ) (buffer : ℕ → ℕ)
    → sec_no < d.capacity
    → sec_no < 2 ^ 28
    → disk_write d sec_no buffer ≡ some (record d { sectors = update d.sectors sec_no buffer })
disk_write_lem d sec_no buffer h k = rw (select_sector_lem d sec_no h k) refl

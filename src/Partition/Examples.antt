-- ===== src/Partition/Examples.antt =====
-- src/c/sysdev/partition_dummy.c: the results at a small drive, and runs of the functions.
use kdrivers.Base.{ℕ, ◌<◌, ◌≤◌, ◌≡◌, ◌⊎◌, refl, some, [], ◌∷◌, get_or, arith}
use kdrivers.Base.RamDisk.{Disk, ram_vfs, ram_device, write}
use kdrivers.Partition.{DriverState, read_partition_dummy, write_partition_dummy}
use kdrivers.Partition.Confined.{bytes, partition_dummy-Confined}
use kdrivers.Partition.Laws.{write_partition_dummy-eq}

-- Two blocks of two bytes, from block 1 on.
abbrev state : DriverState (Unit {0})
state = record {
  drive = some tt;
  attrs = 0;
  start_lba = 1;
  size_in_lbas = 2;
  lba_size = 2;
  partition_number = 1;
}

abbrev disk : Disk
disk = record { bytes = 10 ∷ 11 ∷ 12 ∷ 13 ∷ 14 ∷ 15 ∷ 16 ∷ 17 ∷ []; place = 0 }

-- At offset 4 the partition has ended, and the write goes through to the drive.
writes_past_the_partition :
    (write_partition_dummy ram_vfs (some (1 ∷ 2 ∷ [])) 1 2 (some 4) (some state) disk).1.bytes
    ≡ 10 ∷ 11 ∷ 12 ∷ 13 ∷ 14 ∷ 15 ∷ 1 ∷ 2 ∷ []
unfolding write_partition_dummy write
writes_past_the_partition = refl

partition_dummy-Confined_example :
    let r = read_partition_dummy ram_vfs (some (1 ∷ 2 ∷ [])) 1 2 (some 1) (some state) disk in
    let o = write_partition_dummy ram_vfs (some (1 ∷ 2 ∷ [])) 1 2 (some 1) (some state) disk in
    (r.0 ≡ (2, some (13 ∷ 14 ∷ [])))
    × (r.1.bytes ≡ disk.bytes)
    × (o.0 ≡ 2)
    × (bytes ram_vfs tt ram_device state refl o.1 ≡ 12 ∷ 1 ∷ 2 ∷ 15 ∷ [])
    × ((i : ℕ) → (i < 2) ⊎ (6 ≤ i) → get_or o.1.bytes i 0 ≡ get_or disk.bytes i 0)
partition_dummy-Confined_example =
    partition_dummy-Confined ram_vfs tt ram_device state refl (1 ∷ 2 ∷ []) 1 2 1 disk (omega arith)
      (omega arith) (omega arith) (omega arith) (omega arith) (omega arith)

write_partition_dummy-eq_example :
    let r = write_partition_dummy ram_vfs (some (1 ∷ 2 ∷ [])) 1 2 (some 4) (some state) disk in
    (r.0 ≡ 2) × (r.1.bytes ≡ 10 ∷ 11 ∷ 12 ∷ 13 ∷ 14 ∷ 15 ∷ 1 ∷ 2 ∷ [])
write_partition_dummy-eq_example =
    write_partition_dummy-eq ram_vfs tt ram_device state refl (1 ∷ 2 ∷ []) 1 2 4 disk (omega arith)
      (omega arith) (omega arith) (omega arith) (omega arith)

-- ===== src/Partition.antt =====
-- src/c/sysdev/partition_dummy.c: a partition of a drive as a device of its own. Pointers are
-- `Option`s, a caller's array a list, `file` the file's offset, and `res` the `driver_state`.
pub mod Laws
pub mod Confined
pub mod Device
pub mod Examples
use kdrivers.Base.{
  ℕ, ◌+◌, ◌-◌, ◌*◌, ◌^◌, Option, none, some, Bool, true, false, ◌||◌, List, ◌==◌, if◌then◌else◌,
  u64, Outcome, done, fault,
}
use kdrivers.Base.Alloc.{neg}
use kdrivers.Base.Vfs.{Vfs}

-- `struct ARC_DriArgs_ParitionDummy`
pub record DriverArgs : Type 0 where
  pub drive_path : List ℕ
  pub lba_start : ℕ
  pub attrs : ℕ
  pub size_in_lbas : ℕ
  pub lba_size : ℕ
  pub partition_number : ℕ

-- `struct driver_state`
pub record DriverState (File : Type 0) : Type 0 where
  pub drive : Option File
  pub attrs : ℕ
  pub start_lba : ℕ
  pub size_in_lbas : ℕ
  pub lba_size : ℕ
  pub partition_number : ℕ

-- The fields of `struct stat` that are set.
pub record Stat : Type 0 where
  pub st_blksize : ℕ
  pub st_blocks : ℕ
  pub st_size : ℕ

module _ (v : Vfs) where
  open v use {World, File, vfs_open, vfs_seek, vfs_read, vfs_write}

  -- `state_memory` and `path_memory` say whether the two allocations succeed; the second is not
  -- checked before `sprintf` writes to it. The result is the code, the driver state, the world.
  unfoldable pub init_partition_dummy :
      Bool
      → Bool
      → Bool
      → Option DriverArgs
      → World
      → Outcome (ℕ × Option (DriverState File) × World)
  init_partition_dummy state_memory path_memory true (some args) w =
      let (drive, w') = vfs_open args.drive_path w in
      let state : DriverState File = record {
        drive = drive;
        attrs = args.attrs;
        start_lba = args.lba_start;
        size_in_lbas = args.size_in_lbas;
        lba_size = args.lba_size;
        partition_number = args.partition_number;
      } in
      if state_memory
      then (if path_memory then done (0, some state, w') else fault)
      else done (neg 2, none, w)
  init_partition_dummy state_memory path_memory res args w = done (neg 1, none, w)

  unfoldable pub uninit_partition_dummy : ℕ
  uninit_partition_dummy = 0

  -- The place on the drive that both transfers seek.
  unfoldable pub drive_offset : DriverState File → ℕ → ℕ
  drive_offset state offset = u64 (offset + u64 (state.start_lba * state.lba_size))

  -- The count, the caller's array afterwards, and the world.
  unfoldable pub read_partition_dummy :
      Option (List ℕ)
      → ℕ
      → ℕ
      → Option ℕ
      → Option (DriverState File)
      → World
      → (ℕ × Option (List ℕ)) × World
  unfolding drive_offset
  read_partition_dummy (some buffer) size count (some offset) (some state) w =
      let w' = vfs_seek state.drive (drive_offset state offset) w in
      let ((n, buffer'), w'') = vfs_read buffer 0 size count state.drive w' in
      if size == 0 || count == 0 then ((0, some buffer), w) else ((n, some buffer'), w'')
  read_partition_dummy buffer size count file res w = ((0, buffer), w)

  unfoldable pub write_partition_dummy :
      Option (List ℕ) → ℕ → ℕ → Option ℕ → Option (DriverState File) → World → ℕ × World
  unfolding drive_offset
  write_partition_dummy (some buffer) size count (some offset) (some state) w =
      let w' = vfs_seek state.drive (drive_offset state offset) w in
      if size == 0 || count == 0 then (0, w) else vfs_write buffer 0 size count state.drive w'
  write_partition_dummy buffer size count file res w = (0, w)

  unfoldable pub stat_partition_dummy : Option (DriverState File) → Bool → ℕ × Option Stat
  stat_partition_dummy (some state) true = (
    0,
    some (record {
      st_blksize = state.lba_size;
      st_blocks = state.size_in_lbas;
      st_size = u64 (state.lba_size * state.size_in_lbas);
    }),
  )
  stat_partition_dummy res stat = (neg 1, none)

-- ===== src/Partition/Device.antt =====
-- src/c/sysdev/partition_dummy.c: a partition as the file that holds a device, for the drivers of
-- what is on it. The kernel's file of a partition has the offset that it gives to the driver.
use kdrivers.Base.{
  ℕ, zero, suc, ◌+◌, ◌*◌, ◌^◌, ◌≤◌, ◌<◌, ◌≡◌, ◌≢◌, ◌∙◌, ap, sym, refl, Option, none, some, List, [],
  ◌++◌, ==_false, length, take, drop, length-drop, drop-drop, take-append-drop, arith,
}
use kdrivers.Base.Slices.{mul_nonzero, slice, blit, length-slice, blit-slice_zero}
use kdrivers.Base.Patch.{slice-blit_part}
use kdrivers.Base.Vfs.{Vfs, IsDevice}
use kdrivers.Partition.{DriverState, drive_offset, read_partition_dummy, write_partition_dummy}
use kdrivers.Partition.Laws.{
  start, partition_size, partition_bytes, length-partition_bytes, read_partition_dummy-inside,
  write_partition_dummy-inside,
}

-- The world, and the file's offset.
pub record Opened (World : Type 0) : Type 0 where
  pub world : World
  pub offset : ℕ

-- What the driver gives back, as the caller's array with the driver's pointer in its middle.
abbrev from_pointer : List ℕ → ℕ → ℕ × Option (List ℕ) → ℕ × List ℕ
from_pointer buffer at (n, none) = (n, buffer)
from_pointer buffer at (n, some filled) = (n, take at buffer ++ filled)

module _ (v : Vfs) where
  -- The buffer that a driver is given begins where the caller's pointer stands.
  abbrev read_through :
      List ℕ
      → ℕ
      → ℕ
      → ℕ
      → Option (DriverState v.File)
      → Opened v.World
      → (ℕ × List ℕ) × Opened v.World
  read_through buffer at size count file w =
      let r =
        read_partition_dummy v (some (drop at buffer)) size count (some w.offset) file w.world in
      (from_pointer buffer at r.0, record { world = r.1; offset = w.offset + r.0.0 })

  abbrev write_through :
      List ℕ → ℕ → ℕ → ℕ → Option (DriverState v.File) → Opened v.World → ℕ × Opened v.World
  write_through buffer at size count file w =
      let r =
        write_partition_dummy v (some (drop at buffer)) size count (some w.offset) file w.world in
      (r.0, record { world = r.1; offset = w.offset + r.0 })

  -- The calls of the kernel for an opened partition. Opening gives the partition's driver state.
  abbrev pub partition_vfs : DriverState v.File → Vfs
  partition_vfs s = record {
    World = Opened v.World;
    File = DriverState v.File;
    vfs_open = λ path w. (some s, w);
    vfs_close = λ file w. w;
    vfs_seek = λ file o w. record w { offset = o };
    vfs_read = read_through;
    vfs_write = write_through;
  }

  module _ (drive : v.File) (d : IsDevice v drive) (s : DriverState v.File)
      (open_drive : s.drive ≡ some drive) (no_wrap : start s + partition_size s < 2 ^ 64) where
    abbrev pub bytes : v.World → List ℕ
    bytes w = partition_bytes v drive d s open_drive w

    nothing :
        (buffer : List ℕ) (at off n : ℕ) (w : v.World)
        → n ≡ 0
        → ◌≡◌ {A = ℕ × List ℕ}
            (0, take at buffer ++ drop at buffer)
            (n, blit buffer at (slice (bytes w) off n))
    nothing buffer at off n w e =
        let same : take at buffer ++ drop at buffer ≡ blit buffer at (slice (bytes w) off n) =
          take-append-drop at buffer ∙ sym (blit-slice_zero buffer at (bytes w) off n e) in
        λ i. (sym e i, same i)

    pub read_eq :
        (buffer : List ℕ) (at size count : ℕ) (w : Opened v.World)
        → at + size * count ≤ length buffer
        → w.offset + size * count ≤ length (bytes w.world)
        → (read_through buffer at size count (some s) w).0
          ≡ (size * count, blit buffer at (slice (bytes w.world) w.offset (size * count)))
    unfolding read_partition_dummy drive_offset
    read_eq buffer at zero count w h k =
        nothing buffer at w.offset (0 * count) w.world (omega arith)
    read_eq buffer at (suc size) zero w h k =
        rw (==_false (suc size) 0 (omega arith))
          (nothing buffer at w.offset (suc size * 0) w.world (omega arith))
    read_eq buffer at (suc size) (suc count) w h k =
        let n = suc size * suc count in
        let on_drive = length-partition_bytes v drive d s open_drive w.world in
        let read =
          read_partition_dummy-inside v drive d s open_drive (drop at buffer) (suc size) (suc count)
            w.offset w.world (omega arith) (omega arith)
            (mul_nonzero (suc size) (suc count) (omega arith) (omega arith))
            (omega (arith, length-drop at buffer)) k no_wrap in
        let part = slice (bytes w.world) w.offset n in
        ap (from_pointer buffer at) read.0
        ∙ ap (λ (k : ℕ). (n, take at buffer ++ (part ++ drop k (drop at buffer)))) (omega arith)
        ∙ ap (λ (l : List ℕ). (n, take at buffer ++ (part ++ l)))
            (drop-drop (length part) at buffer)

    pub read_bytes :
        (buffer : List ℕ) (at size count : ℕ) (w : Opened v.World)
        → d.bytes (read_through buffer at size count (some s) w).1.world ≡ d.bytes w.world
    unfolding read_partition_dummy drive_offset
    read_bytes buffer at zero count w = refl
    read_bytes buffer at (suc size) zero w = rw (==_false (suc size) 0 (omega arith)) refl
    read_bytes buffer at (suc size) (suc count) w =
        rw (open_drive, ==_false (suc size) 0 (omega arith), ==_false (suc count) 0 (omega arith))
          (d.read_bytes (drop at buffer) 0 (suc size) (suc count) _ ∙ d.seek_bytes _ w.world)

    pub write_eq :
        (buffer : List ℕ) (at size count : ℕ) (w : Opened v.World)
        → at + size * count ≤ length buffer
        → w.offset + size * count ≤ length (bytes w.world)
        → let r = write_through buffer at size count (some s) w in
          (r.0 ≡ size * count)
          × (bytes r.1.world ≡ blit (bytes w.world) w.offset (slice buffer at (size * count)))
    unfolding write_partition_dummy drive_offset
    write_eq buffer at zero count w h k = (
      omega arith,
      sym (blit-slice_zero (bytes w.world) w.offset buffer at (0 * count) (omega arith)),
    )
    write_eq buffer at (suc size) zero w h k = rw (==_false (suc size) 0 (omega arith)) (
      omega arith,
      sym (blit-slice_zero (bytes w.world) w.offset buffer at (suc size * 0) (omega arith)),
    )
    write_eq buffer at (suc size) (suc count) w h k =
        let n = suc size * suc count in
        let positive = mul_nonzero (suc size) (suc count) (omega arith) (omega arith) in
        let on_drive = length-partition_bytes v drive d s open_drive w.world in
        let written =
          write_partition_dummy-inside v drive d s open_drive (drop at buffer) (suc size)
            (suc count) w.offset w.world (omega arith) (omega arith)
            (omega (arith, length-drop at buffer)) (omega arith) (omega arith) in
        let len : length (slice buffer at n) ≡ n = length-slice buffer at n h in
        let some_bytes : slice buffer at n ≢ [] =
          λ e. let z = ap length e in absurd (omega (arith, z, len)) in
        (
          written.0,
          ap (λ (l : List ℕ). slice l (start s) (partition_size s)) written.1
              ∙ slice-blit_part (d.bytes w.world) (start s) (partition_size s) w.offset
                  (slice buffer at n) (omega (arith, len)) some_bytes,
        )

    -- A partition that is opened is a device: an array of the bytes that it has on the drive.
    unfoldable pub partition_device : IsDevice (partition_vfs s) s
    partition_device = record {
      bytes = λ w. bytes w.world;
      place = λ w. w.offset;
      seek_place = λ o w. refl;
      seek_bytes = λ o w. refl;
      read_result = read_eq;
      read_bytes = λ buffer at size count w.
          ap (λ (l : List ℕ). slice l (start s) (partition_size s))
            (read_bytes buffer at size count w);
      write_result = λ buffer at size count w h k. (write_eq buffer at size count w h k).0;
      write_bytes = λ buffer at size count w h k. (write_eq buffer at size count w h k).1;
    }

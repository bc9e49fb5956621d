-- ===== src/Partition/Laws.antt =====
-- src/c/sysdev/partition_dummy.c: transfers of a partition as transfers of a part of the drive.
use kdrivers.Base.{
  ℕ, ◌+◌, ◌-◌, ◌*◌, ◌^◌, ◌≤◌, ◌<◌, ◌≡◌, ◌≢◌, ◌⊎◌, ◌∙◌, ap, refl, some, List, length, u64, arith,
  get_or, ==_false, sym, min, drop, length-take, length-drop,
}
use kdrivers.Base.Slices.{mul_nonzero, slice, blit, length-slice, slice-slice, get_or-blit_outside}
use kdrivers.Base.Vfs.{Vfs, IsDevice}
use kdrivers.Partition.{DriverState, drive_offset, read_partition_dummy, write_partition_dummy}

module _ {File : Type 0} (s : DriverState File) where
  abbrev pub start : ℕ
  start = s.start_lba * s.lba_size

  abbrev pub partition_size : ℕ
  partition_size = s.lba_size * s.size_in_lbas

module _ (v : Vfs) (drive : v.File) (d : IsDevice v drive) (s : DriverState v.File)
    (open_drive : s.drive ≡ some drive) where
  -- The bytes of the drive that the partition consists of.
  abbrev pub partition_bytes : v.World → List ℕ
  partition_bytes w = slice (d.bytes w) (start s) (partition_size s)

  -- The part of the partition that is on the drive.
  pub length-partition_bytes :
      (w : v.World)
      → length (partition_bytes w) ≡ min (partition_size s) (length (d.bytes w) - start s)
  length-partition_bytes w = omega (
    arith,
    length-take (partition_size s) (drop (start s) (d.bytes w)),
    length-drop (start s) (d.bytes w),
  )

  pub read_partition_dummy-inside :
      (buffer : List ℕ) (size count offset : ℕ) (w : v.World)
      → size ≢ 0
      → count ≢ 0
      → size * count ≢ 0
      → size * count ≤ length buffer
      → offset + size * count ≤ length (partition_bytes w)
      → start s + partition_size s < 2 ^ 64
      → let r = read_partition_dummy v (some buffer) size count (some offset) (some s) w in
        (r.0
          ≡ (size * count, some (blit buffer 0 (slice (partition_bytes w) offset (size * count)))))
        × (d.bytes r.1 ≡ d.bytes w)
  unfolding read_partition_dummy drive_offset
  read_partition_dummy-inside buffer size count offset w hs hc some_bytes fits inside no_wrap =
      let on_drive = length-partition_bytes w in
      let w' = v.vfs_seek (some drive) (start s + offset) w in
      let fits' : 0 + size * count ≤ length buffer = omega arith in
      let at : u64 (offset + u64 (start s)) ≡ start s + offset = omega arith in
      let room : d.place w' + size * count ≤ length (d.bytes w') =
        rw (d.seek_place, d.seek_bytes) (omega arith) in
      let read = d.read_result buffer 0 size count w' fits' room in
      let same : slice (d.bytes w') (d.place w') (size * count)
          ≡ slice (partition_bytes w) offset (size * count) =
        rw (d.seek_place, d.seek_bytes)
          (sym (
            slice-slice (d.bytes w) (start s) (partition_size s) offset (size * count)
              (omega arith))) in
      rw (open_drive, ==_false size 0 hs, ==_false count 0 hc, at)
        (
          ap (λ (r : ℕ × List ℕ). (r.0, some r.1)) read
              ∙ ap (λ (l : List ℕ). (size * count, some (blit buffer 0 l))) same,
          d.read_bytes buffer 0 size count w' ∙ d.seek_bytes (start s + offset) w,
        )

  -- A read within the partition, which lies within the drive, gives the bytes of the partition
  -- at the offset, and changes nothing on the drive.
  pub read_partition_dummy-eq :
      (buffer : List ℕ) (size count offset : ℕ) (w : v.World)
      → size ≢ 0
      → count ≢ 0
      → size * count ≤ length buffer
      → offset + size * count ≤ partition_size s
      → start s + partition_size s ≤ length (d.bytes w)
      → length (d.bytes w) < 2 ^ 64
      → let r = read_partition_dummy v (some buffer) size count (some offset) (some s) w in
        (r.0
          ≡ (size * count, some (blit buffer 0 (slice (partition_bytes w) offset (size * count)))))
        × (d.bytes r.1 ≡ d.bytes w)
  read_partition_dummy-eq buffer size count offset w hs hc fits inside on_drive small =
      let whole = length-partition_bytes w in
      read_partition_dummy-inside buffer size count offset w hs hc (mul_nonzero size count hs hc)
        fits (omega arith) (omega arith)

  pub write_partition_dummy-inside :
      (buffer : List ℕ) (size count offset : ℕ) (w : v.World)
      → size ≢ 0
      → count ≢ 0
      → size * count ≤ length buffer
      → start s + offset + size * count ≤ length (d.bytes w)
      → start s + offset < 2 ^ 64
      → let r = write_partition_dummy v (some buffer) size count (some offset) (some s) w in
        (r.0 ≡ size * count)
        × (d.bytes r.1 ≡ blit (d.bytes w) (start s + offset) (slice buffer 0 (size * count)))
  unfolding write_partition_dummy drive_offset
  write_partition_dummy-inside buffer size count offset w hs hc fits on_drive small =
      let w' = v.vfs_seek (some drive) (start s + offset) w in
      let fits' : 0 + size * count ≤ length buffer = omega arith in
      let at : u64 (offset + u64 (start s)) ≡ start s + offset = omega arith in
      let room : d.place w' + size * count ≤ length (d.bytes w') =
        rw (d.seek_place, d.seek_bytes) (omega arith) in
      rw (open_drive, ==_false size 0 hs, ==_false count 0 hc, at)
        (
          d.write_result buffer 0 size count w' fits' room,
          d.write_bytes buffer 0 size count w' fits' room ∙ rw (d.seek_place, d.seek_bytes) refl,
        )

  -- A write within the drive, at any offset of the partition, stores the caller's bytes that far
  -- behind the partition's start, and changes no other byte of the drive. The partition's own
  -- size plays no part in it.
  pub write_partition_dummy-eq :
      (buffer : List ℕ) (size count offset : ℕ) (w : v.World)
      → size ≢ 0
      → count ≢ 0
      → size * count ≤ length buffer
      → start s + offset + size * count ≤ length (d.bytes w)
      → length (d.bytes w) < 2 ^ 64
      → let r = write_partition_dummy v (some buffer) size count (some offset) (some s) w in
        (r.0 ≡ size * count)
        × (d.bytes r.1 ≡ blit (d.bytes w) (start s + offset) (slice buffer 0 (size * count)))
  write_partition_dummy-eq buffer size count offset w hs hc fits on_drive small =
      let bytes = mul_nonzero size count hs hc in
      write_partition_dummy-inside buffer size count offset w hs hc fits on_drive (omega arith)

  -- A write within the partition leaves the drive outside of the partition as it was.
  pub write_partition_dummy_outside :
      (buffer : List ℕ) (size count offset i : ℕ) (w : v.World)
      → size ≢ 0
      → count ≢ 0
      → size * count ≤ length buffer
      → offset + size * count ≤ partition_size s
      → start s + partition_size s ≤ length (d.bytes w)
      → length (d.bytes w) < 2 ^ 64
      → (i < start s) ⊎ (start s + partition_size s ≤ i)
      → get_or
          (d.bytes (write_partition_dummy v (some buffer) size count (some offset) (some s) w).1)
          i
          0
        ≡ get_or (d.bytes w) i 0
  write_partition_dummy_outside buffer size count offset i w hs hc fits inside on_drive small out =
      let len : length (slice buffer 0 (size * count)) ≡ size * count =
        length-slice buffer 0 (size * count) (omega arith) in
      rw (write_partition_dummy-eq buffer size count offset w hs hc fits (omega arith) small).1 (
        get_or-blit_outside (d.bytes w) (start s + offset) (slice buffer 0 (size * count)) i 0
          (omega arith) (omega arith))

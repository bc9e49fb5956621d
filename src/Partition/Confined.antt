-- ===== src/Partition/Confined.antt =====
-- src/c/sysdev/partition_dummy.c: both transfers within a partition, as those of a device that
-- consists of the partition's bytes.
use kdrivers.Base.{
  ℕ, ◌+◌, ◌*◌, ◌^◌, ◌≤◌, ◌<◌, ◌≡◌, ◌≢◌, ◌⊎◌, ◌∙◌, ap, some, List, [], length, get_or, arith,
}
use kdrivers.Base.Slices.{mul_nonzero, slice, blit, length-slice}
use kdrivers.Base.Patch.{slice-blit_part}
use kdrivers.Base.Vfs.{Vfs, IsDevice}
use kdrivers.Partition.{DriverState, read_partition_dummy, write_partition_dummy}
use kdrivers.Partition.Laws.{
  start, partition_size, partition_bytes, length-partition_bytes, read_partition_dummy-eq,
  write_partition_dummy-eq, write_partition_dummy_outside,
}

module _ (v : Vfs) (drive : v.File) (d : IsDevice v drive) (s : DriverState v.File)
    (open_drive : s.drive ≡ some drive) where
  abbrev pub bytes : v.World → List ℕ
  bytes w = partition_bytes v drive d s open_drive w

  -- Of a partition that lies on its drive, a read within it gives its bytes at the offset, and
  -- leaves the drive as it was; a write within it changes its bytes at the offset to the caller's,
  -- and no byte of the drive that is not the partition's. Both give the whole count.
  pub partition_dummy-Confined :
      (buffer : List ℕ) (size count offset : ℕ) (w : v.World)
      → size ≢ 0
      → count ≢ 0
      → size * count ≤ length buffer
      → offset + size * count ≤ partition_size s
      → start s + partition_size s ≤ length (d.bytes w)
      → length (d.bytes w) < 2 ^ 64
      → let n = size * count in
        let r = read_partition_dummy v (some buffer) size count (some offset) (some s) w in
        let o = write_partition_dummy v (some buffer) size count (some offset) (some s) w in
        (r.0 ≡ (n, some (blit buffer 0 (slice (bytes w) offset n))))
        × (d.bytes r.1 ≡ d.bytes w)
        × (o.0 ≡ n)
        × (bytes o.1 ≡ blit (bytes w) offset (slice buffer 0 n))
        × ((i : ℕ)
            → (i < start s) ⊎ (start s + partition_size s ≤ i)
            → get_or (d.bytes o.1) i 0 ≡ get_or (d.bytes w) i 0)
  partition_dummy-Confined buffer size count offset w hs hc fits inside on_drive small =
      let n = size * count in
      let read =
        read_partition_dummy-eq v drive d s open_drive buffer size count offset w hs hc fits inside
          on_drive small in
      let written =
        write_partition_dummy-eq v drive d s open_drive buffer size count offset w hs hc fits
          (omega arith) small in
      let whole = length-partition_bytes v drive d s open_drive w in
      let len : length (slice buffer 0 n) ≡ n = length-slice buffer 0 n (omega arith) in
      let some_bytes : slice buffer 0 n ≢ [] = λ e.
        let z = ap length e in
        let positive = mul_nonzero size count hs hc in absurd (omega (arith, z, len)) in
      (
        read.0,
        read.1,
        written.0,
        ap (λ (l : List ℕ). slice l (start s) (partition_size s)) written.1
            ∙ slice-blit_part (d.bytes w) (start s) (partition_size s) offset (slice buffer 0 n)
                (omega (arith, len)) some_bytes,
        λ i out.
            write_partition_dummy_outside v drive d s open_drive buffer size count offset i w hs hc
              fits inside on_drive small out,
      )

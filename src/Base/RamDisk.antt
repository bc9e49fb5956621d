-- ===== src/Base/RamDisk.antt =====
-- A file system whose only file is an array in memory. It meets what the drivers rely on of the
-- virtual file system, and runs their code in tests.
use kdrivers.Base.Tests.{leb, if◌then◌else◌}
use kdrivers.Base.Lists.{length}
use kdrivers.Base.Slices.{slice, blit}
use kdrivers.Base.Vfs.{Vfs, IsDevice}
use Prim.Native.Nat.{ℕ, ◌+◌, ◌*◌, ◌≤◌}
use mathlib.Core.Bool.{◌&&◌}
use mathlib.Core.Path.{◌≡◌, refl}
use mathlib.Core.List.{List}
use mathlib.Core.Option.{Option, none, some}
use native.Mathlib.Omega.{arith}

pub record Disk : Type 0 where
  pub bytes : List ℕ
  pub place : ℕ

abbrev seek : Option (Unit {0}) → ℕ → Disk → Disk
seek none o w = w
seek (some _) o w = record w { place = o }

abbrev in_range : List ℕ → ℕ → ℕ → Disk → mathlib.Core.Bool.Bool
in_range buffer at n w = leb (at + n) (length buffer) && leb (w.place + n) (length w.bytes)

unfoldable pub read : List ℕ → ℕ → ℕ → ℕ → Option (Unit {0}) → Disk → (ℕ × List ℕ) × Disk
read buffer at size count none w = ((0, buffer), w)
read buffer at size count (some _) w =
    let n = size * count in
    if in_range buffer at n w
    then ((n, blit buffer at (slice w.bytes w.place n)), record w { place = w.place + n })
    else ((0, buffer), w)

unfoldable pub write : List ℕ → ℕ → ℕ → ℕ → Option (Unit {0}) → Disk → ℕ × Disk
write buffer at size count none w = (0, w)
write buffer at size count (some _) w =
    let n = size * count in
    if in_range buffer at n w
    then (n, record { bytes = blit w.bytes w.place (slice buffer at n); place = w.place + n })
    else (0, w)

abbrev pub ram_vfs : Vfs
ram_vfs = record {
  World = Disk;
  File = Unit;
  vfs_open = λ path w. (some tt, w);
  vfs_close = λ file w. w;
  vfs_seek = seek;
  vfs_read = read;
  vfs_write = write;
}

module _ (buffer : List ℕ) (at size count : ℕ) (w : Disk) where
  pub read_result :
      at + size * count ≤ length buffer
      → w.place + size * count ≤ length w.bytes
      → (read buffer at size count (some tt) w).0
        ≡ (size * count, blit buffer at (slice w.bytes w.place (size * count)))
  unfolding read
  read_result h k = ground arith

  pub read_bytes : (read buffer at size count (some tt) w).1.bytes ≡ w.bytes
  unfolding read
  read_bytes = ground arith

  pub write_result :
      at + size * count ≤ length buffer
      → w.place + size * count ≤ length w.bytes
      → (write buffer at size count (some tt) w).0 ≡ size * count
  unfolding write
  write_result h k = ground arith

  pub write_bytes :
      at + size * count ≤ length buffer
      → w.place + size * count ≤ length w.bytes
      → (write buffer at size count (some tt) w).1.bytes
        ≡ blit w.bytes w.place (slice buffer at (size * count))
  unfolding write
  write_bytes h k = ground arith

abbrev pub ram_device : IsDevice ram_vfs tt
ram_device = record {
  bytes = λ w. w.bytes;
  place = λ w. w.place;
  seek_place = λ o w. refl;
  seek_bytes = λ o w. refl;
  read_result = read_result;
  read_bytes = read_bytes;
  write_result = write_result;
  write_bytes = write_bytes;
}

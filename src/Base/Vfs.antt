-- ===== src/Base/Vfs.antt =====
-- The kernel's virtual file system (fs/vfs.h, outside the repository), as the drivers call it.
use kdrivers.Base.Lists.{length}
use kdrivers.Base.Slices.{slice, blit}
use Prim.Native.Nat.{ℕ, ◌+◌, ◌*◌, ◌≤◌}
use mathlib.Core.Path.{◌≡◌}
use mathlib.Core.List.{List}
use mathlib.Core.Option.{Option, some}

-- A file is `none` where the code passes a `NULL` pointer. A buffer argument is the caller's array
-- with the index that the pointer stands at. Each call gives the new world, and what it returns.
pub record Vfs : Type 1 where
  pub World : Type 0
  pub File : Type 0
  -- The path, and the file that the last argument of `vfs_open` is set to.
  pub vfs_open : List ℕ → World → Option File × World
  pub vfs_close : Option File → World → World
  -- With SEEK_SET.
  pub vfs_seek : Option File → ℕ → World → World
  -- The count, and the array afterwards.
  pub vfs_read : List ℕ → ℕ → ℕ → ℕ → Option File → World → (ℕ × List ℕ) × World
  pub vfs_write : List ℕ → ℕ → ℕ → ℕ → Option File → World → ℕ × World

-- What the drivers rely on of the file that holds their device: it is an array of bytes, a seek
-- sets the place of the next transfer, and a transfer within the array is done in full.
pub record IsDevice (v : Vfs) (file : v.File) : Type 0 where
  pub bytes : v.World → List ℕ
  pub place : v.World → ℕ
  pub seek_place : (o : ℕ) (w : v.World) → place (v.vfs_seek (some file) o w) ≡ o
  pub seek_bytes : (o : ℕ) (w : v.World) → bytes (v.vfs_seek (some file) o w) ≡ bytes w
  pub read_result :
      (buffer : List ℕ) (at size count : ℕ) (w : v.World)
      → at + size * count ≤ length buffer
      → place w + size * count ≤ length (bytes w)
      → (v.vfs_read buffer at size count (some file) w).0
        ≡ (size * count, blit buffer at (slice (bytes w) (place w) (size * count)))
  pub read_bytes :
      (buffer : List ℕ) (at size count : ℕ) (w : v.World)
      → bytes (v.vfs_read buffer at size count (some file) w).1 ≡ bytes w
  pub write_result :
      (buffer : List ℕ) (at size count : ℕ) (w : v.World)
      → at + size * count ≤ length buffer
      → place w + size * count ≤ length (bytes w)
      → (v.vfs_write buffer at size count (some file) w).0 ≡ size * count
  pub write_bytes :
      (buffer : List ℕ) (at size count : ℕ) (w : v.World)
      → at + size * count ≤ length buffer
      → place w + size * count ≤ length (bytes w)
      → bytes (v.vfs_write buffer at size count (some file) w).1
        ≡ blit (bytes w) (place w) (slice buffer at (size * count))

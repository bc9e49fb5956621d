-- ===== src/Initramfs/File.antt =====
-- src/c/sysfs/initramfs/file.c: one file of the archive. A driver state is the file's header, by
-- its address, and `none` a `NULL` pointer.
use kdrivers.Base.{
  ℕ, zero, suc, ◌+◌, ◌*◌, Option, none, some, Bool, true, false, List, ltb, if◌then◌else◌, length,
  set, u64, Outcome, done, fault, ◌>>=◌,
}
use kdrivers.Base.Memory.{load8}
use kdrivers.Base.Alloc.{neg}
use kdrivers.Initramfs.Header.{load_data_offset, load_data_size, Stat, load_stat}

-- The code and the driver state; `false` is a failed allocation.
unfoldable pub initramfs_init : Bool → Option ℕ → ℕ × Option (Option ℕ)
initramfs_init true args = (0, some args)
initramfs_init false args = (neg 1, none)

-- `*(buffer + i) = value`
store8 : List ℕ → ℕ → ℕ → Outcome (List ℕ)
store8 buffer i value = if ltb i (length buffer) then done (set buffer i value) else fault

-- The copy loop at `i`, with as many rounds left as its first argument says.
unfoldable pub read_loop : ℕ → List ℕ → ℕ → ℕ → ℕ → ℕ → List ℕ → Outcome (List ℕ)
unfolding store8
read_loop zero memory file_start f_size offset i buffer = done buffer
read_loop (suc rounds) memory file_start f_size offset i buffer = do
  value ←
      if ltb (u64 (i + offset)) f_size then load8 memory (u64 (file_start + offset + i)) else done 0
  buffer' ← store8 buffer i value
  read_loop rounds memory file_start f_size offset (i + 1) buffer'

-- The count, and the caller's buffer afterwards. `res` is never `NULL`.
unfoldable pub initramfs_read :
    List ℕ → List ℕ → ℕ → ℕ → Option ℕ → Option (Option ℕ) → Outcome (ℕ × List ℕ)
unfolding read_loop
initramfs_read memory buffer size count (some offset) (some (some addfiles)) = do
  data_start ← load_data_offset memory addfiles
  f_size ← load_data_size memory addfiles
  buffer' ← read_loop (u64 (size * count)) memory (addfiles + data_start) f_size offset 0 buffer
  done (u64 (size * count), buffer')
initramfs_read memory buffer size count file state = done (0, buffer)

unfoldable pub initramfs_write : List ℕ → ℕ → ℕ → ℕ
initramfs_write buffer size count = 0

-- The resource is its driver state, `none` a `NULL` resource. The state itself is not checked.
unfoldable pub initramfs_stat :
    List ℕ → Option (Option (Option ℕ)) → Bool → Outcome (ℕ × Option Stat)
initramfs_stat memory (some (some (some base))) true = do
  stat ← load_stat memory base
  done (0, some stat)
initramfs_stat memory (some (some none)) true = done (2, none)
initramfs_stat memory (some none) true = fault
initramfs_stat memory res stat = done (1, none)

-- The state is freed, of a resource that is not checked for `NULL`.
unfoldable pub initramfs_uninit : Option (Option (Option ℕ)) → Outcome ℕ
initramfs_uninit (some state) = done 0
initramfs_uninit none = fault

unfoldable pub initramfs_seek : Option ℕ → Option (Option (Option ℕ)) → ℕ
initramfs_seek file res = 0

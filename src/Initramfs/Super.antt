-- ===== src/Initramfs/Super.antt =====
-- src/c/sysfs/initramfs/super.c: finding a file in the archive. A driver state is the archive's
-- base, and `none` a `NULL` pointer.
use kdrivers.Base.{
  ℕ, zero, suc, ◌+◌, Option, none, some, Bool, true, false, List, [], ◌∷◌, ◌==◌, if◌then◌else◌,
  length, drop, u64, Outcome, done, fault, out_of_fuel, ◌>>=◌,
}
use kdrivers.Base.Memory.{strncmp_eq}
use kdrivers.Initramfs.Header.{
  cpio_magic, name_offset, load_magic, load_data_offset, load_data_size, Stat, load_stat,
}

module _ (memory : List ℕ) (fs : ℕ) where
  -- The loop of `initramfs_find_file` at `offset`, on fuel.
  unfoldable pub find_loop : ℕ → List ℕ → ℕ → Outcome (Option ℕ)
  find_loop zero filename offset = out_of_fuel
  find_loop (suc fuel) filename offset =
      let header = fs + offset in
      let next = do
        data_start ← load_data_offset memory header
        data_len ← load_data_size memory header
        find_loop fuel filename (u64 (offset + (data_start + data_len)))
      in load_magic memory header >>= λ magic.
      if magic == cpio_magic
      then (strncmp_eq (length filename) (drop (header + name_offset) memory) filename >>= λ same.
          if same then done (some header) else next)
      else done none

-- `if (*filename == '/') filename++;`
unfoldable pub skip_slash : List ℕ → List ℕ
skip_slash [] = []
skip_slash (c ∷ s) = if c == b'/' then s else c ∷ s

-- One round more than the memory has bytes: each header takes 26 of them at least.
unfoldable pub initramfs_find_file : List ℕ → Option ℕ → Option (List ℕ) → Outcome (Option ℕ)
initramfs_find_file memory (some fs) (some filename) =
    find_loop memory fs (length memory + 1) (skip_slash filename) 0
initramfs_find_file memory fs filename = done none

-- `alloc` is not checked for `NULL` before the store; the result is the code and driver state.
unfoldable pub initramfs_init : Bool → Option ℕ → Outcome (ℕ × Option ℕ)
initramfs_init true args = done (0, args)
initramfs_init false args = fault

-- The code, and the `stat` structure where it is filled in. The resource is its driver state.
unfoldable pub initramfs_stat :
    List ℕ → Option (Option ℕ) → Option (List ℕ) → Bool → Outcome (ℕ × Option Stat)
initramfs_stat memory (some base) (some filename) true = do
  found ← initramfs_find_file memory base (some filename)
  elim found [
    | none ↦ done (1, none)
    | some header ↦ load_stat memory header >>= λ stat. done (0, some stat)
  ]
initramfs_stat memory (some base) none true = done (0, none)
initramfs_stat memory res filename stat = done (1, none)

unfoldable pub initramfs_locate : List ℕ → Option (Option ℕ) → Option (List ℕ) → Outcome (Option ℕ)
initramfs_locate memory (some base) (some filename) =
    initramfs_find_file memory base (some filename)
initramfs_locate memory res filename = done none

-- The state is freed, of a resource that is not checked for `NULL`.
unfoldable pub initramfs_uninit : Option (Option ℕ) → Outcome ℕ
initramfs_uninit (some state) = done 0
initramfs_uninit none = fault

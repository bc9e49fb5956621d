-- ===== src/Resource/Table.antt =====
-- The types of src/c/include/drivers/resource.h that resource.c works with.
use kdrivers.Base.{ℕ, ◌+◌, ◌≡◌, Option, List, u64}

-- `enum ARC_DRI_GROUP`, by its numbers.
abbrev pub fs_super : ℕ
fs_super = 0

abbrev pub fs_dir : ℕ
fs_dir = 1

abbrev pub fs_file : ℕ
fs_file = 2

abbrev pub dev_acpi : ℕ
dev_acpi = 3

abbrev pub dev_pci : ℕ
dev_pci = 4

abbrev pub dev : ℕ
dev = 5

-- A signed index: `minus n` is -(n + 1).
pub data Index : Type 0 where
  at : ℕ → Index
  minus : ℕ → Index

-- The counter `current_id` of resource.c, and what the drivers act on.
pub record Kernel (World : Type 0) : Type 0 where
  pub current_id : ℕ
  pub world : World

-- The functions of `ARC_DriverDef` that resource.c calls, and its codes. A driver's `init` gives
-- its result code and what it leaves in `res->driver_state`; it may start other resources.
pub record DriverDef (World State Args : Type 0) : Type 0 where
  pub init : Option (Option Args → Kernel World → ℕ × Option State × Kernel World)
  pub uninit : Option State → Kernel World → ℕ × Kernel World
  pub codes : Option (List ℕ)

pub record Resource (World State Args : Type 0) : Type 0 where
  pub driver : DriverDef World State Args
  pub driver_state : Option State
  pub id : ℕ
  pub dri_index : ℕ
  pub dri_group : ℕ

-- What the build and the kernel provide. ARC_ATOMIC_INC gives a value and leaves the counter.
pub record Drivers (World State Args : Type 0) : Type 0 where
  pub table : ℕ → ℕ → Option (DriverDef World State Args)
  pub entry_count : ℕ → ℕ
  pub group_count : ℕ
  pub terminator : ℕ
  pub atomic_inc : ℕ → ℕ × ℕ
  pub atomic_inc_value : (n : ℕ) → (atomic_inc n).0 ≡ u64 (n + 1)
  pub atomic_inc_counter : (n : ℕ) → (atomic_inc n).1 ≡ u64 (n + 1)

-- ===== src/Resource.antt =====
-- src/c/resource.c and src/c/include/drivers/resource.h: drivers are found in a table by group
-- and index, or by a device's code, and started for a resource. The table itself, its size and
-- the value that ends a list of codes are generated by the build, and are parameters here; so is
-- the state of the world that drivers act on. A pointer is an `Option`.
pub mod Table
pub mod Search
pub mod Codes
pub mod Start
pub mod Ids
pub mod Pci
pub mod Examples
use kdrivers.Base.{
  ℕ, zero, suc, ◌+◌, ◌*◌, ◌^◌, Option, none, some, Bool, true, false, ◌||◌, ◌&&◌, List, [], ◌∷◌,
  ◌==◌, ltb, leb, if◌then◌else◌, bit_or, u16, u32, u64, sub64, ◌<<◌, Outcome, done, fault, ◌>>=◌,
}
use kdrivers.Resource.Table.{
  dev_acpi, dev_pci, Index, at, minus, DriverDef, Drivers, Resource, Kernel,
}

-- `(vendor << 16) | device`, as a `uint32_t`.
unfoldable pub pci_target : ℕ → ℕ → ℕ
pci_target vendor device = bit_or (u32 (vendor << 16)) device

module _ {World State Args : Type 0} (drivers : Drivers World State Args) where
  open drivers use {table, entry_count, group_count, terminator, atomic_inc}

  -- The last part of `init_resource`; `memory` says whether `alloc` succeeds. The `init` function
  -- sees the resource zeroed but for its driver, group, index and id, and reads none of those.
  unfoldable pub start_driver :
      Bool
      → ℕ
      → ℕ
      → DriverDef World State Args
      → (Option Args → Kernel World → ℕ × Option State × Kernel World)
      → Option Args
      → Kernel World
      → Option (Resource World State Args) × Kernel World
  start_driver memory group index def init args k =
      let (counted, next_id) = atomic_inc k.current_id in
      let (ret, driver_state, k') = init args (record k { current_id = next_id }) in
      let resource : Resource World State Args = record {
        driver = def;
        driver_state = driver_state;
        id = sub64 counted 1;
        dri_index = index;
        dri_group = group;
      } in
      if memory then (if ret == 0 then (some resource, k') else (none, k')) else (none, k)

  -- `def->init == NULL`
  unfoldable pub start_init :
      Bool
      → ℕ
      → ℕ
      → DriverDef World State Args
      → Option (Option Args → Kernel World → ℕ × Option State × Kernel World)
      → Option Args
      → Kernel World
      → Option (Resource World State Args) × Kernel World
  unfolding start_driver
  start_init memory group index def none args k = (none, k)
  start_init memory group index def (some init) args k =
      start_driver memory group index def init args k

  -- `def == NULL`
  unfoldable pub start_definition :
      Bool
      → ℕ
      → ℕ
      → Option (DriverDef World State Args)
      → Option Args
      → Kernel World
      → Option (Resource World State Args) × Kernel World
  unfolding start_init
  start_definition memory group index none args k = (none, k)
  start_definition memory group index (some def) args k =
      start_init memory group index def def.init args k

  unfoldable pub init_resource :
      Bool
      → Index
      → Index
      → Option Args
      → Kernel World
      → Option (Resource World State Args) × Kernel World
  unfolding start_definition
  init_resource memory (at group) (at index) args k =
      if leb group_count group || leb (entry_count group) index
      then (none, k)
      else start_definition memory group index (table group index) args k
  init_resource memory group index args k = (none, k)

  -- Whether a list of codes has `target` before its terminator; a list without one is overrun.
  unfoldable pub has_code : ℕ → List ℕ → Outcome Bool
  has_code target [] = fault
  has_code target (c ∷ codes) =
      let rest = has_code target codes in
      if c == terminator then done false else if c == target then done true else rest

  -- `def->codes`, skipped where it is `NULL`.
  unfoldable pub codes_have : ℕ → Option (List ℕ) → Outcome Bool
  unfolding has_code
  codes_have target none = done false
  codes_have target (some codes) = has_code target codes

  -- The body of the outer loop of `internal_find_code`, for one entry of the table.
  unfoldable pub entry_has_code : ℕ → Option (DriverDef World State Args) → Outcome Bool
  unfolding codes_have
  entry_has_code target none = done false
  entry_has_code target (some def) = codes_have target def.codes

  -- The outer loop at entry `i`, with as many entries left as the first argument says.
  unfoldable pub find_from : ℕ → ℕ → ℕ → ℕ → Outcome Index
  unfolding entry_has_code
  find_from zero target group i = done (minus 0)
  find_from (suc left) target group i =
      let rest = find_from left target group (i + 1) in
      entry_has_code target (table group i) >>= λ found. if found then done (at i) else rest

  unfoldable pub internal_find_code : ℕ → ℕ → Outcome Index
  unfolding find_from
  internal_find_code target group = find_from (entry_count group) target group 0

  -- The header's two identifiers are what `meta->header->common` holds; `args` is `meta`.
  unfoldable pub init_pci_resource :
      Bool
      → ℕ
      → ℕ
      → Option Args
      → Kernel World
      → Outcome (Option (Resource World State Args) × Kernel World)
  unfolding pci_target internal_find_code init_resource
  init_pci_resource memory vendor device args k =
      if (vendor == 0xffff) && (device == 0xffff)
      then done (none, k)
      else (internal_find_code (pci_target vendor device) dev_pci >>= λ index.
          done (init_resource memory (at dev_pci) index args k))

  unfoldable pub init_acpi_resource :
      Bool
      → ℕ
      → Option Args
      → Kernel World
      → Outcome (Option (Resource World State Args) × Kernel World)
  unfolding internal_find_code init_resource
  init_acpi_resource memory hid_hash args k =
      if hid_hash == 0
      then done (none, k)
      else (internal_find_code hid_hash dev_acpi >>= λ index.
          done (init_resource memory (at dev_acpi) index args k))

-- The driver's own result is dropped.
unfoldable pub uninit_resource :
    {World State Args : Type 0}
    → Option (Resource World State Args)
    → Kernel World
    → ℕ × Kernel World
uninit_resource none k = (1, k)
uninit_resource (some resource) k = (0, (resource.driver.uninit resource.driver_state k).1)

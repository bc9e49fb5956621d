-- ===== src/Ext2/Check.antt =====
-- src/c/sysfs/ext2/super.c: whether the driver supports a file system, by its super block.
use kdrivers.Base.{ℕ, Option, none, some, not, ◌&&◌, ◌==◌, if◌then◌else◌}
use kdrivers.Base.Alloc.{neg}
use kdrivers.Base.Masks.{Masks}
use kdrivers.Ext2.{SuperBlock, SuperState}

module _ (masks : Masks) where
  open masks use {masked_read, masked_write}

  -- What a file system with errors makes of the attributes.
  unfoldable pub errors_attributes : SuperBlock → ℕ → ℕ
  errors_attributes super attributes =
      if super.state == 1
      then attributes
      else masked_write attributes (if super.err_handle == 2 then 0 else 1) 1 1

  -- A feature that writes would have to support takes the write bit away.
  unfoldable pub without_feature : ℕ → SuperBlock → ℕ → ℕ
  without_feature feature super attributes =
      if masked_read super.write_features feature 1 == 1
      then masked_write attributes 0 1 1
      else attributes

  -- The code and the attributes.
  unfoldable pub check_attributes : SuperBlock → ℕ → ℕ × ℕ
  unfolding errors_attributes without_feature
  check_attributes super attributes =
      let a = errors_attributes super attributes in
      if not (super.state == 1) && super.err_handle == 3
      then (neg 2, a)
      else if masked_read super.required_features 0 1 == 1
      then (neg 3, a)
      else if masked_read super.required_features 2 1 == 1
      then (neg 4, a)
      else if masked_read super.required_features 3 1 == 1
      then (neg 5, a)
      else (0, without_feature 2 super (without_feature 0 super a))

  unfoldable pub ext2_check_super :
      {File : Type 0} → Option (SuperState File) → ℕ × Option (SuperState File)
  unfolding check_attributes
  ext2_check_super none = (neg 1, none)
  ext2_check_super (some state) =
      let (code, a) = check_attributes state.super_block state.basic.attributes in
      (code, some (record state { basic = record state.basic { attributes = a } }))

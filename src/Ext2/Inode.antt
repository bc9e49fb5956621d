-- ===== src/Ext2/Inode.antt =====
-- src/c/sysfs/ext2/super.c: reading an inode from the table of its block group.
use kdrivers.Base.{
  ℕ, ◌+◌, ◌-◌, ◌*◌, ◌/◌, ◌%◌, Option, none, some, List, ◌==◌, if◌then◌else◌, u64, get_elem?,
  Outcome, done, fault,
}
use kdrivers.Base.Vfs.{Vfs}
use kdrivers.Ext2.{GroupDesc, SuperBlock, SuperState}

-- Where the inode stands in the table of its group, and the group's table on the partition.
unfoldable pub block_group : SuperBlock → ℕ → ℕ
block_group super inode = (inode - 1) / super.inodes_per_group

unfoldable pub inode_offset : SuperBlock → ℕ → ℕ
inode_offset super inode = u64 (super.inode_size * ((inode - 1) % super.inodes_per_group))

unfoldable pub inode_table_address : GroupDesc → ℕ → ℕ
inode_table_address desc block_size = u64 (desc.inode_table_start * block_size)

module _ (v : Vfs) where
  open v use {World, File, vfs_seek, vfs_read}

  -- The seek and the read, where `found` is the group's entry of the descriptor table: a fault
  -- outside of it.
  unfoldable pub read_from_table :
      Option GroupDesc → List ℕ → SuperState File → ℕ → World → Outcome (Option (List ℕ) × World)
  unfolding inode_offset inode_table_address
  read_from_table none buffer state inode w = fault
  read_from_table (some desc) buffer state inode w =
      let address = inode_table_address desc state.basic.block_size in
      let w' =
        vfs_seek state.basic.partition (u64 (address + inode_offset state.super_block inode)) w in
      let ((n, buffer'), w'') =
        vfs_read buffer 0 1 state.super_block.inode_size state.basic.partition w' in
      done (some buffer', w'')

  unfoldable pub read_from :
      List GroupDesc
      → Option (List ℕ)
      → SuperState File
      → ℕ
      → World
      → Outcome (Option (List ℕ) × World)
  unfolding read_from_table block_group
  read_from table none state inode w = done (none, w)
  read_from table (some buffer) state inode w =
      if state.super_block.inodes_per_group == 0
      then fault
      else read_from_table (get_elem? table (block_group state.super_block inode)) buffer state
          inode w

  -- `memory` is what the allocation gives: `none` for `NULL`, or bytes of any content.
  unfoldable pub read_with :
      Option (List GroupDesc)
      → Option (List ℕ)
      → SuperState File
      → ℕ
      → World
      → Outcome (Option (List ℕ) × World)
  unfolding read_from
  read_with none memory state inode w = done (none, w)
  read_with (some table) memory state inode w =
      if inode == 0 then done (none, w) else read_from table memory state inode w

  unfoldable pub ext2_read_inode :
      Option (List ℕ) → Option (SuperState File) → ℕ → World → Outcome (Option (List ℕ) × World)
  unfolding read_with
  ext2_read_inode memory none inode w = done (none, w)
  ext2_read_inode memory (some state) inode w =
      read_with state.descriptor_table memory state inode w

-- ===== src/Ext2/Super.antt =====
-- src/c/sysfs/ext2/super.c: mounting a partition, and the operations on the mounted file system.
use kdrivers.Base.{
  ℕ, zero, suc, ◌+◌, ◌-◌, ◌*◌, ◌/◌, ◌^◌, min, Option, none, some, Bool, true, false, ◌||◌, List,
  ◌==◌, leb, if◌then◌else◌, u32, u64, ◌<<◌, replicate, Outcome, done, fault, ◌>>=◌,
}
use kdrivers.Base.Alloc.{neg}
use kdrivers.Base.Masks.{Masks}
use kdrivers.Base.Vfs.{Vfs}
use kdrivers.Ext2.{
  ext2_sig, super_size, load_super, desc_size, load_table, SuperBlock, GroupDesc, BasicState,
  SuperState,
}
use kdrivers.Ext2.Check.{ext2_check_super}
use kdrivers.Ext2.Inode.{ext2_read_inode}

-- The loop that shifts the block size, with an `int` counter: none of its rounds for a count that
-- is negative as an `int`.
unfoldable pub shifted : ℕ → ℕ → ℕ
shifted zero size = size
shifted (suc i) size = shifted i (u64 (size << 1))

unfoldable pub block_size_of : SuperBlock → ℕ
unfolding shifted
block_size_of super =
    if leb (2 ^ 31) super.log2_block_size then 1024 else shifted super.log2_block_size 1024

-- `(total + per_group - 1) / per_group` in 32 bits; a fault where `per_group` is 0.
unfoldable pub groups_for : ℕ → ℕ → Outcome ℕ
groups_for total per_group =
    if per_group == 0 then fault else done (u32 (total + per_group + 2 ^ 32 - 1) / per_group)

unfoldable pub block_groups : SuperBlock → Outcome ℕ
unfolding groups_for
block_groups super = do
  blocks ← groups_for super.total_blocks super.blocks_per_group
  inodes ← groups_for super.total_inodes super.inodes_per_group
  done (min blocks inodes)

-- What the allocations of the mount give: whether there is memory for the state and for the copy
-- of the path, and the bytes of the descriptor table and of the root's inode.
pub record Memory : Type 0 where
  pub state : Bool
  pub path : Bool
  pub table : Option (List ℕ)
  pub node : Option (List ℕ)

module _ (masks : Masks) (v : Vfs) where
  open v use {World, File, vfs_open, vfs_close, vfs_seek, vfs_read}

  abbrev pub Started : Type 0
  Started = ℕ × Option (SuperState File) × World

  -- The failures from the open partition on: it is closed.
  abbrev pub failed : ℕ → Option File → World → Outcome Started
  failed code file w = done (neg code, none, vfs_close file w)

  -- The root's inode has been read.
  unfoldable pub with_node : SuperState File → Option (List ℕ) × World → Outcome Started
  with_node state (node, w) =
      done (0, some (record state { basic = record state.basic { node = node; inode = 2 } }), w)

  -- The descriptor table has been read.
  unfoldable pub with_table :
      Memory → List ℕ → SuperState File → World → List GroupDesc → Outcome Started
  unfolding with_node
  with_table memory path state w descs =
      let state' : SuperState File = record state {
        descriptor_table = some descs;
        partition_path = if memory.path then some path else none;
      } in
      ext2_read_inode v memory.node (some state') 2 w >>= λ r. with_node state' r

  -- The descriptor table is read into `table`.
  unfoldable pub start_table :
      Memory → List ℕ → SuperState File → ℕ → List ℕ → World → Outcome Started
  unfolding with_table
  start_table memory path state groups table w =
      let file = state.basic.partition in
      let w' =
        vfs_seek file (u64 (u32 (1 + state.super_block.superblock) * state.basic.block_size)) w in
      let ((n, table'), w'') = vfs_read table 0 1 (groups * desc_size) file w' in
      if n == groups * desc_size
      then (load_table groups table' 0 >>= λ descs. with_table memory path state w'' descs)
      else failed 8 file w''

  -- The first argument is the memory for the descriptor table.
  unfoldable pub with_groups :
      Option (List ℕ) → Memory → List ℕ → SuperState File → World → ℕ → Outcome Started
  unfolding start_table block_size_of
  with_groups none memory path state w groups = failed 7 state.basic.partition w
  with_groups (some table) memory path state w groups =
      let state' : SuperState File = record state {
        descriptor_count = groups;
        basic = record state.basic { block_size = block_size_of state.super_block };
      } in
      start_table memory path state' groups table w

  unfoldable pub start_groups : Memory → List ℕ → SuperState File → World → Outcome Started
  unfolding with_groups block_groups
  start_groups memory path state w = block_groups state.super_block >>= λ groups.
      with_groups memory.table memory path state w groups

  -- The checks of the super block, once it is read.
  unfoldable pub start_checked :
      Memory
      → List ℕ
      → Option File
      → SuperBlock
      → ℕ × Option (SuperState File)
      → World
      → Outcome Started
  unfolding start_groups
  start_checked memory path file super (code, none) w = failed 6 file w
  start_checked memory path file super (code, some state) w =
      if code == 0 then start_groups memory path state w else failed 6 file w

  unfoldable pub start_super : Memory → List ℕ → Option File → SuperBlock → World → Outcome Started
  unfolding start_checked
  start_super memory path file super w =
      let basic : BasicState File = record {
        partition = file;
        node = none;
        attributes = masks.masked_write 0 1 1 1;
        block_size = 0;
        inode = 0;
      } in
      let state : SuperState File = record {
        partition_path = none;
        descriptor_table = none;
        descriptor_count = 0;
        basic = basic;
        super_block = super;
      } in
      if super.sig == ext2_sig
      then start_checked memory path file super (ext2_check_super masks (some state)) w
      else failed 5 file w

  unfoldable pub start_file : Memory → List ℕ → Option File → World → Outcome Started
  unfolding start_super
  start_file memory path none w = failed 3 none w
  start_file memory path (some file) w =
      let w' = vfs_seek (some file) 1024 w in
      let ((n, bytes), w'') = vfs_read (replicate super_size 0) 0 1 super_size (some file) w' in
      if n == super_size
      then (load_super bytes >>= λ super. start_super memory path (some file) super w'')
      else failed 4 (some file) w''

  -- `res` says that the resource is not `NULL`. The code, the driver state, and the world.
  unfoldable pub init_ext2_super : Memory → Bool → Option (List ℕ) → World → Outcome Started
  unfolding start_file
  init_ext2_super memory true (some path) w =
      let (file, w') = vfs_open path w in
      if memory.state then start_file memory path file w' else done (neg 2, none, w)
  init_ext2_super memory res args w = done (neg 1, none, w)

-- The operations that check their arguments only. A Bool says that a pointer is not `NULL`.
unfoldable pub uninit_ext2_super : Bool → ℕ
uninit_ext2_super true = 0
uninit_ext2_super false = neg 1

unfoldable pub read_ext2_super : Bool → ℕ → ℕ → Bool → Bool → ℕ
read_ext2_super buffer size count file res = 0

unfoldable pub write_ext2_super : Bool → ℕ → ℕ → Bool → Bool → ℕ
write_ext2_super buffer size count file res = 0

unfoldable pub create_ext2_super : Bool → Bool → ℕ → ℕ → ℕ
create_ext2_super true true mode type = if mode == 0 || type == 0 then neg 1 else 0
create_ext2_super res name mode type = neg 1

unfoldable pub remove_ext2_super : Bool → Bool → ℕ
remove_ext2_super true true = 0
remove_ext2_super res name = neg 1

unfoldable pub ext2_delete_inode : Bool → ℕ → ℕ
ext2_delete_inode state inode = neg 1

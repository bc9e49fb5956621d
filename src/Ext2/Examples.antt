-- ===== src/Ext2/Examples.antt =====
-- src/c/sysfs/ext2/: the results at a small partition, and runs of the functions.
use kdrivers.Base.{
  ℕ, ◌/◌, ◌%◌, ◌≡◌, ◌↔◌, refl, none, some, true, List, [], ◌∷◌, ◌++◌, replicate, arith, Outcome,
  done, fault, out_of_fuel,
}
use kdrivers.Base.Masks.{plain_masks}
use kdrivers.Base.Memory.{load16}
use kdrivers.Base.RamDisk.{Disk, ram_vfs, ram_device, read}
use kdrivers.Ext2.{load_super, load32, load_desc, load_table, SuperBlock, GroupDesc, SuperState}
use kdrivers.Ext2.Samples.{no_super}
use kdrivers.Ext2.Check.{ext2_check_super, check_attributes, errors_attributes, without_feature}
use kdrivers.Ext2.Inode.{ext2_read_inode}
use kdrivers.Ext2.Super.{Memory, block_size_of, init_ext2_super, Started}
use kdrivers.Ext2.Start.{
  Supported, Writable, attributes_of, ext2_check_super-Supported, ext2_check_super-Writable,
}
use kdrivers.Ext2.Mounted.{HasStructures, HasMemory, IsMounted, init_ext2_super-IsMounted}
use kdrivers.Ext2.{ext2_sig}
use kdrivers.Ext2.Laws.{block_size_of-eq-pow, ext2_read_inode_outside, ext2_read_inode-slice}

-- One group of 16 inodes of 128 bytes, in blocks of 1024 bytes.
abbrev super_bytes : List ℕ
super_bytes =
    (16 ∷ 0 ∷ 0 ∷ 0 ∷ 1 ∷ [])
    ++ replicate 27 0
    ++ (1 ∷ [])
    ++ replicate 7 0
    ++ (16 ∷ [])
    ++ replicate 15 0
    ++ (0x53 ∷ 0xEF ∷ 1 ∷ [])
    ++ replicate 29 0
    ++ (128 ∷ [])
    ++ replicate 147 0

-- The super block's bytes are the descriptor of the group too; the table of inodes is at 0.
abbrev disk : Disk
disk = record { bytes = replicate 1024 7 ++ super_bytes; place = 0 }

abbrev memory : Memory
memory = record {
  state = true;
  path = true;
  table = some (replicate 32 9);
  node = some (replicate 128 9);
}

abbrev super : SuperBlock
super = record no_super { state = 1; inode_size = 4; inodes_per_group = 3; log2_block_size = 2 }

abbrev desc : GroupDesc
desc = record {
  usage_bmp_block = 0;
  usage_bmp_inode = 0;
  inode_table_start = 1;
  unallocated_blocks = 0;
  unallocated_inodes = 0;
  directory_count = 0;
  reserved = [];
}

abbrev mounted : SuperState (Unit {0})
mounted = record {
  partition_path = none;
  descriptor_table = some (desc ∷ []);
  descriptor_count = 1;
  basic = record { partition = some tt; node = none; attributes = 2; block_size = 2; inode = 2 };
  super_block = super;
}

abbrev small_disk : Disk
small_disk = record { bytes = 0 ∷ 1 ∷ 2 ∷ 3 ∷ 4 ∷ 5 ∷ 6 ∷ 7 ∷ 8 ∷ 9 ∷ 10 ∷ []; place = 0 }

block_size_of-eq-pow_example : block_size_of super ≡ 4096
block_size_of-eq-pow_example = block_size_of-eq-pow super (omega arith)

ext2_read_inode_outside_example :
    ext2_read_inode ram_vfs (some (9 ∷ 9 ∷ 9 ∷ 9 ∷ [])) (some mounted) 4 small_disk ≡ fault
ext2_read_inode_outside_example =
    ext2_read_inode_outside ram_vfs mounted 4 small_disk (9 ∷ 9 ∷ 9 ∷ 9 ∷ []) (desc ∷ []) refl
      (omega arith) (omega arith)

ext2_read_inode-slice_example :
    (w' : Disk) × (ext2_read_inode ram_vfs (some (9 ∷ 9 ∷ 9 ∷ 9 ∷ [])) (some mounted) 2 small_disk
      ≡ done (some (6 ∷ 7 ∷ 8 ∷ 9 ∷ []), w'))
    × (w'.bytes ≡ small_disk.bytes)
ext2_read_inode-slice_example =
    ext2_read_inode-slice ram_vfs mounted 2 small_disk tt ram_device (9 ∷ 9 ∷ 9 ∷ 9 ∷ [])
      (desc ∷ []) desc refl refl (omega arith) (omega arith) refl refl (omega arith) (omega arith)

ext2_check_super-Supported_example :
    ((ext2_check_super plain_masks (some mounted)).0 ≡ 0) ↔ Supported super
ext2_check_super-Supported_example = ext2_check_super-Supported plain_masks mounted

ext2_check_super-Writable_example :
    (attributes_of (ext2_check_super plain_masks (some mounted)).1 / 2 % 2 ≡ 1) ↔ Writable super
unfolding ext2_check_super check_attributes errors_attributes without_feature
ext2_check_super-Writable_example = ext2_check_super-Writable plain_masks mounted refl refl

-- What a mount that succeeds leaves, or the state above.
abbrev state_of : Outcome (Started plain_masks ram_vfs) → SuperState (Unit {0})
state_of (done (code, some state, w)) = state
state_of (done (code, none, w)) = mounted
state_of fault = mounted
state_of out_of_fuel = mounted

abbrev mount : Outcome (Started plain_masks ram_vfs)
mount = init_ext2_super plain_masks ram_vfs memory true (some []) disk

abbrev world_of : Outcome (Started plain_masks ram_vfs) → Disk
world_of (done (code, state, w)) = w
world_of fault = disk
world_of out_of_fuel = disk

-- The fields of the super block on the disk, and what its bytes are as a descriptor.
abbrev disk_super : SuperBlock
disk_super = record no_super {
  total_inodes = 16;
  total_blocks = 1;
  blocks_per_group = 1;
  inodes_per_group = 16;
  sig = 0xef53;
  state = 1;
  inode_size = 128;
  fs_id = replicate 16 0;
  vol_name = replicate 16 0;
  last_path = replicate 64 0;
  journal_id = replicate 16 0;
}

abbrev disk_desc : GroupDesc
disk_desc = record {
  usage_bmp_block = 16;
  usage_bmp_inode = 1;
  inode_table_start = 0;
  unallocated_blocks = 0;
  unallocated_inodes = 0;
  directory_count = 0;
  reserved = replicate 14 0;
}

disk-HasStructures :
    HasStructures plain_masks ram_vfs tt ram_device [] disk memory disk_super 1
      (disk_desc ∷ [])
      disk_desc
unfolding load_super load_table load32 load16 load_desc
disk-HasStructures = record {
  opens = refl;
  small = omega arith;
  super_inside = omega arith;
  super_there = refl;
  power = omega arith;
  some_blocks = omega arith;
  some_inodes = omega arith;
  blocks_fit = omega arith;
  inodes_fit = omega arith;
  group_count = refl;
  table_inside = omega arith;
  table_there = refl;
  root_group = refl;
  root_inside = omega arith;
}

memory-HasMemory : HasMemory plain_masks ram_vfs tt ram_device [] disk memory disk_super 1
memory-HasMemory = record {
  table = replicate 32 9;
  node = replicate 128 9;
  for_state = refl;
  for_path = refl;
  for_table = refl;
  for_node = refl;
  table_fits = refl;
  node_fits = refl;
}

init_ext2_super-IsMounted_example :
    ((s : SuperState (Unit {0})) × (w' : Disk) × (init_ext2_super plain_masks ram_vfs memory true
          (some [])
          disk
        ≡ done (0, some s, w'))
      × IsMounted plain_masks ram_vfs tt ram_device [] disk memory disk_super
          (disk_desc ∷ [])
          disk_desc
          s)
    ↔ ((disk_super.sig ≡ ext2_sig) × Supported disk_super)
init_ext2_super-IsMounted_example =
    init_ext2_super-IsMounted plain_masks ram_vfs tt ram_device [] disk memory disk_super 1
      (disk_desc ∷ []) disk_desc disk-HasStructures memory-HasMemory

mount_size : (state_of mount).basic.block_size ≡ 1024
unfolding init_ext2_super load_super load_table read load32 load16 ext2_check_super load_desc
    ext2_read_inode
mount_size = refl

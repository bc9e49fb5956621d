-- ===== src/Ext2.antt =====
-- src/c/sysfs/ext2/ and its headers: the second extended file system on a partition. The
-- structures of the disk and of the drivers' states; log calls are left out.
pub mod Check
pub mod Inode
pub mod Blocks
pub mod Data
pub mod Layout
pub mod Resolve
pub mod ReadData
pub mod Direct
pub mod WriteData
pub mod RoundTrip
pub mod Directory
pub mod Entries
pub mod Search
pub mod Alias
pub mod Robust
pub mod Super
pub mod Allocate
pub mod Groups
pub mod Overrun
pub mod ByName
pub mod Storage
pub mod Node
pub mod Laws
pub mod Start
pub mod Whole
pub mod Mount
pub mod Mounted
pub mod Stat
pub mod Samples
pub mod Examples
pub mod DataExamples
pub mod StorageExamples
pub mod WriteExamples
pub mod AllocateExamples
use kdrivers.Base.{ℕ, zero, suc, ◌+◌, ◌*◌, Option, Bool, List, [], ◌∷◌, Outcome, done, ◌>>=◌}
unfoldable pub use kdrivers.Base.Memory.{load32}
use kdrivers.Base.Memory.{load8, load16}
use kdrivers.Base.Slices.{slice}

abbrev pub ext2_sig : ℕ
ext2_sig = 0xEF53

-- `struct ext2_super_block`
pub record SuperBlock : Type 0 where
  pub total_inodes : ℕ
  pub total_blocks : ℕ
  pub total_resv_blocks : ℕ
  pub total_unallocated_blocks : ℕ
  pub total_unallocated_inodes : ℕ
  pub superblock : ℕ
  pub log2_block_size : ℕ
  pub log2_frag_size : ℕ
  pub blocks_per_group : ℕ
  pub frags_per_group : ℕ
  pub inodes_per_group : ℕ
  pub last_mount : ℕ
  pub last_written : ℕ
  pub mount_count : ℕ
  pub mounts_per_check : ℕ
  pub sig : ℕ
  pub state : ℕ
  pub err_handle : ℕ
  pub ver_min : ℕ
  pub last_check : ℕ
  pub interval_forced_check : ℕ
  pub os_id : ℕ
  pub ver_maj : ℕ
  pub uid_superuser : ℕ
  pub gid_superuser : ℕ
  pub first_non_resv_inode : ℕ
  pub inode_size : ℕ
  pub superblock_group : ℕ
  pub opt_features : ℕ
  pub required_features : ℕ
  pub write_features : ℕ
  pub fs_id : List ℕ
  pub vol_name : List ℕ
  pub last_path : List ℕ
  pub compression_algo : ℕ
  pub file_pre_alloc_blocks : ℕ
  pub dir_pre_alloc_blocks : ℕ
  pub resv0 : ℕ
  pub journal_id : List ℕ
  pub journal_inode : ℕ
  pub journal_dev : ℕ
  pub orphan_inode_list_head : ℕ

-- sizeof(struct ext2_super_block), which is packed.
abbrev pub super_size : ℕ
super_size = 236

unfoldable pub load_super : List ℕ → Outcome SuperBlock
load_super m = do
  total_inodes' ← load32 m 0
  total_blocks' ← load32 m 4
  total_resv_blocks' ← load32 m 8
  total_unallocated_blocks' ← load32 m 12
  total_unallocated_inodes' ← load32 m 16
  superblock' ← load32 m 20
  log2_block_size' ← load32 m 24
  log2_frag_size' ← load32 m 28
  blocks_per_group' ← load32 m 32
  frags_per_group' ← load32 m 36
  inodes_per_group' ← load32 m 40
  last_mount' ← load32 m 44
  last_written' ← load32 m 48
  mount_count' ← load16 m 52
  mounts_per_check' ← load16 m 54
  sig' ← load16 m 56
  state' ← load16 m 58
  err_handle' ← load16 m 60
  ver_min' ← load16 m 62
  last_check' ← load32 m 64
  interval_forced_check' ← load32 m 68
  os_id' ← load32 m 72
  ver_maj' ← load32 m 76
  uid_superuser' ← load16 m 80
  gid_superuser' ← load16 m 82
  first_non_resv_inode' ← load32 m 84
  inode_size' ← load16 m 88
  superblock_group' ← load16 m 90
  opt_features' ← load32 m 92
  required_features' ← load32 m 96
  write_features' ← load32 m 100
  compression_algo' ← load32 m 200
  file_pre_alloc_blocks' ← load8 m 204
  dir_pre_alloc_blocks' ← load8 m 205
  resv0' ← load16 m 206
  journal_inode' ← load32 m 224
  journal_dev' ← load32 m 228
  orphan_inode_list_head' ← load32 m 232
  done (record {
    total_inodes = total_inodes';
    total_blocks = total_blocks';
    total_resv_blocks = total_resv_blocks';
    total_unallocated_blocks = total_unallocated_blocks';
    total_unallocated_inodes = total_unallocated_inodes';
    superblock = superblock';
    log2_block_size = log2_block_size';
    log2_frag_size = log2_frag_size';
    blocks_per_group = blocks_per_group';
    frags_per_group = frags_per_group';
    inodes_per_group = inodes_per_group';
    last_mount = last_mount';
    last_written = last_written';
    mount_count = mount_count';
    mounts_per_check = mounts_per_check';
    sig = sig';
    state = state';
    err_handle = err_handle';
    ver_min = ver_min';
    last_check = last_check';
    interval_forced_check = interval_forced_check';
    os_id = os_id';
    ver_maj = ver_maj';
    uid_superuser = uid_superuser';
    gid_superuser = gid_superuser';
    first_non_resv_inode = first_non_resv_inode';
    inode_size = inode_size';
    superblock_group = superblock_group';
    opt_features = opt_features';
    required_features = required_features';
    write_features = write_features';
    fs_id = slice m 104 16;
    vol_name = slice m 120 16;
    last_path = slice m 136 64;
    compression_algo = compression_algo';
    file_pre_alloc_blocks = file_pre_alloc_blocks';
    dir_pre_alloc_blocks = dir_pre_alloc_blocks';
    resv0 = resv0';
    journal_id = slice m 208 16;
    journal_inode = journal_inode';
    journal_dev = journal_dev';
    orphan_inode_list_head = orphan_inode_list_head';
  })

-- `struct ext2_block_group_desc`, of 32 bytes.
pub record GroupDesc : Type 0 where
  pub usage_bmp_block : ℕ
  pub usage_bmp_inode : ℕ
  pub inode_table_start : ℕ
  pub unallocated_blocks : ℕ
  pub unallocated_inodes : ℕ
  pub directory_count : ℕ
  pub reserved : List ℕ

abbrev pub desc_size : ℕ
desc_size = 32

unfoldable pub load_desc : List ℕ → ℕ → Outcome GroupDesc
unfolding load32
load_desc m p = do
  usage_bmp_block' ← load32 m p
  usage_bmp_inode' ← load32 m (p + 4)
  inode_table_start' ← load32 m (p + 8)
  unallocated_blocks' ← load16 m (p + 12)
  unallocated_inodes' ← load16 m (p + 14)
  directory_count' ← load16 m (p + 16)
  done (record {
    usage_bmp_block = usage_bmp_block';
    usage_bmp_inode = usage_bmp_inode';
    inode_table_start = inode_table_start';
    unallocated_blocks = unallocated_blocks';
    unallocated_inodes = unallocated_inodes';
    directory_count = directory_count';
    reserved = slice m (p + 18) 14;
  })

-- `n` descriptors from `p` on.
unfoldable pub load_table : ℕ → List ℕ → ℕ → Outcome (List GroupDesc)
load_table zero m p = done []
load_table (suc n) m p =
    let rest = load_table n m (p + desc_size) in
    load_desc m p >>= λ desc. rest >>= λ descs. done (desc ∷ descs)

-- `struct ext2_inode` stays the bytes that it was read into; these are the fields that the
-- drivers' `stat` functions load.
unfoldable pub load_type_perms : List ℕ → Outcome ℕ
load_type_perms node = load16 node 0

unfoldable pub load_size_low : List ℕ → Outcome ℕ
load_size_low node = load32 node 4

-- `struct ext2_basic_driver_state`
pub record BasicState (File : Type 0) : Type 0 where
  pub partition : Option File
  pub node : Option (List ℕ)
  pub attributes : ℕ
  pub block_size : ℕ
  pub inode : ℕ

-- `struct ext2_super_driver_state`
pub record SuperState (File : Type 0) : Type 0 where
  pub partition_path : Option (List ℕ)
  pub descriptor_table : Option (List GroupDesc)
  pub descriptor_count : ℕ
  pub basic : BasicState File
  pub super_block : SuperBlock

-- `struct ext2_node_driver_state`
pub record NodeState (File : Type 0) : Type 0 where
  pub super : SuperState File
  pub basic : BasicState File

-- `struct ext2_locate_args`
pub record LocateArgs (File : Type 0) : Type 0 where
  pub node : Option (List ℕ)
  pub super : SuperState File
  pub inode : ℕ

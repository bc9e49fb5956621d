-- ===== src/Ext2/StorageExamples.antt =====
-- src/c/sysfs/ext2/ over src/c/sysdev/partition_dummy.c: the result for a file system on a small
-- partition.
use kdrivers.Base.{
  ℕ, zero, suc, ◌+◌, ◌*◌, ◌^◌, ◌<◌, ◌≡◌, refl, none, some, not, true, leb, List, [], ◌∷◌, ◌++◌,
  ◌==◌, replicate, arith,
}
use kdrivers.Base.RamDisk.{Disk, ram_vfs, ram_device}
use kdrivers.Base.Slices.{slice}
use kdrivers.Base.Vfs.{Vfs, IsDevice}
use kdrivers.Ext2.{GroupDesc, NodeState}
use kdrivers.Ext2.Blocks.{TableMemory}
use kdrivers.Ext2.ByName.{IsDirectory, IsInode, IsNamed}
use kdrivers.Ext2.Entries.{Entry, IsEntry, encode, encode_block, first_match, begins}
use kdrivers.Ext2.Layout.{block_of, word32, IsLayout}
use kdrivers.Ext2.Samples.{below, no_super}
use kdrivers.Ext2.Samples.{node as dir_node}
use kdrivers.Ext2.Storage.{bytes, device}
use kdrivers.Partition.{DriverState}
use kdrivers.Partition.Device.{Opened, partition_vfs}

abbrev memory : TableMemory
memory = record { for_sibp = none; for_dibp = none; for_tibp = none }

-- Blocks of twelve bytes: an empty one, the directory's, the inode's bytes from block 2 on, and
-- the file's, which is block 13.
abbrev file_node : List ℕ
file_node =
    (0xa4 ∷ 0x81 ∷ 0 ∷ 0 ∷ 12 ∷ 0 ∷ 0 ∷ 0 ∷ [])
    ++ replicate 32 0
    ++ (13 ∷ 0 ∷ 0 ∷ 0 ∷ [])
    ++ replicate 84 0

abbrev image : List ℕ
image =
    replicate 12 0
    ++ ((1 ∷ 0 ∷ 0 ∷ 0 ∷ 12 ∷ 0 ∷ 1 ∷ 1 ∷ b'a' ∷ 0 ∷ 0 ∷ 0 ∷ [])
        ++ (file_node
            ++ (replicate 4 0 ++ (20 ∷ 21 ∷ 22 ∷ 23 ∷ 24 ∷ 25 ∷ 26 ∷ 27 ∷ 28 ∷ 29 ∷ 30 ∷ 31 ∷ []))))

-- The drive has four bytes before the partition and four after it.
abbrev drive : Disk
drive = record { bytes = (9 ∷ 9 ∷ 9 ∷ 9 ∷ []) ++ (image ++ (9 ∷ 9 ∷ 9 ∷ 9 ∷ [])); place = 0 }

abbrev partition : DriverState (Unit {0})
partition = record {
  drive = some tt;
  attrs = 0;
  start_lba = 1;
  size_in_lbas = 42;
  lba_size = 4;
  partition_number = 0;
}

abbrev world : Opened Disk
world = record { world = drive; offset = 0 }

abbrev desc : GroupDesc
desc = record {
  usage_bmp_block = 0;
  usage_bmp_inode = 0;
  inode_table_start = 2;
  unallocated_blocks = 0;
  unallocated_inodes = 0;
  directory_count = 0;
  reserved = [];
}

abbrev dir : NodeState (DriverState (Unit {0}))
dir = record {
  super = record {
    partition_path = some (b'p' ∷ []);
    descriptor_table = some (desc ∷ []);
    descriptor_count = 1;
    basic = record {
      partition = some partition;
      node = none;
      attributes = 0;
      block_size = 12;
      inode = 0;
    };
    super_block = record no_super { inode_size = 128; inodes_per_group = 4 };
  };
  basic = record {
    partition = some partition;
    node = some dir_node;
    attributes = 0;
    block_size = 12;
    inode = 2;
  };
}

abbrev on_ram : Vfs
on_ram = partition_vfs ram_vfs partition

no_wrap : 4 + 168 < 2 ^ 64
no_wrap = omega arith

abbrev ram_partition : IsDevice on_ram partition
ram_partition = device ram_vfs tt ram_device partition refl no_wrap memory dir world

abbrev held_bytes : List ℕ
held_bytes = bytes ram_vfs tt ram_device partition refl no_wrap memory dir world

dir_ok : (idx : ℕ) → idx < 1 → not (block_of held_bytes dir_node 12 idx == 0) ≡ true
unfolding block_of word32
dir_ok = below 1 (λ idx. not (block_of held_bytes dir_node 12 idx == 0)) refl

dir_in : (idx : ℕ) → idx < 1 → leb (block_of held_bytes dir_node 12 idx * 12 + 12) 168 ≡ true
unfolding block_of word32
dir_in = below 1 (λ idx. leb (block_of held_bytes dir_node 12 idx * 12 + 12) 168) refl

dir-IsLayout : IsLayout on_ram partition ram_partition none memory dir.basic dir_node held_bytes 1
dir-IsLayout = record {
  open_partition = refl;
  node_length = omega arith;
  words = omega arith;
  partition_small = omega arith;
  limit_singly = omega arith;
  has_table = λ h. absurd (omega arith);
  block_given = λ idx h. ground (arith, dir_ok idx h);
  block_inside = λ idx h. ground (arith, dir_in idx h);
}

abbrev entry : Entry
entry = record { inode = 1; kind = 1; name = b'a' ∷ []; padding = 3 }

abbrev entries : ℕ → List Entry
entries idx = entry ∷ []

dir_holds :
    (idx : ℕ)
    → idx < 1
    → slice held_bytes (block_of held_bytes dir_node 12 idx * 12) 12 ≡ encode_block (entries idx)
unfolding block_of word32 encode_block encode
dir_holds zero h = refl
dir_holds (suc idx) h = absurd (omega arith)

entry_valid : IsEntry entry
entry_valid = record {
  inode_fits = omega arith;
  size_fits = omega arith;
  name_fits = omega arith;
  no_nul = omega arith;
}

abbrev root : IsDirectory on_ram partition ram_partition memory dir held_bytes 1 entries
root = record {
  node = dir_node;
  named = refl;
  layout = dir-IsLayout;
  no_wrap = omega arith;
  holds = dir_holds;
  valid = λ idx h. (entry_valid, tt);
}

abbrev named_a :
    IsNamed on_ram partition ram_partition memory dir held_bytes 1 entries (b'a' ∷ []) 1
unfolding first_match begins
named_a = record {
  block = 0;
  in_directory = omega arith;
  none_before = λ idx h. absurd (omega arith);
  at_block = refl;
}

abbrev inode_a : IsInode on_ram partition ram_partition memory dir held_bytes 1 24
inode_a = record {
  table = desc ∷ [];
  desc = desc;
  open_partition = refl;
  has_table = refl;
  given = omega arith;
  some_inodes = omega arith;
  in_group = refl;
  address_of = refl;
  inside = omega arith;
}

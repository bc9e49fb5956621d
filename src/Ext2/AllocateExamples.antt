-- ===== src/Ext2/AllocateExamples.antt =====
-- src/c/sysfs/ext2/super.c: the results on choosing blocks, at a small partition.
use kdrivers.Base.{
  ℕ, ◌+◌, ◌%◌, ◌^◌, ◌<◌, ◌≡◌, ◌⊎◌, refl, none, some, true, List, [], ◌∷◌, ◌==◌, replicate, get_or,
  done, fault, arith,
}
use kdrivers.Base.Masks.{plain_masks}
use kdrivers.Base.RamDisk.{Disk, ram_vfs, ram_device}
use kdrivers.Ext2.{GroupDesc, SuperState}
use kdrivers.Ext2.Allocate.{AllocateMemory, pick_from, ext2_allocate_blocks}
use kdrivers.Ext2.Groups.{Room, Full, ext2_allocate_blocks-first_group}
use kdrivers.Ext2.Inode.{block_group}
use kdrivers.Ext2.Overrun.{pick_from_fault}
use kdrivers.Ext2.Samples.{below, no_super}

abbrev with_free : ℕ → GroupDesc
with_free n = record {
  usage_bmp_block = 0;
  usage_bmp_inode = 0;
  inode_table_start = 1;
  unallocated_blocks = n;
  unallocated_inodes = 0;
  directory_count = 0;
  reserved = [];
}

abbrev table : List GroupDesc
table = with_free 9 ∷ with_free 1 ∷ with_free 2 ∷ []

abbrev state : SuperState (Unit {0})
state = record {
  partition_path = none;
  descriptor_table = some table;
  descriptor_count = 3;
  basic = record { partition = some tt; node = none; attributes = 2; block_size = 16; inode = 2 };
  super_block = record no_super { inodes_per_group = 4; inode_size = 128 };
}

abbrev memory : AllocateMemory
memory = record { for_ret = some (5 ∷ []); for_bmp = some (replicate 16 9) }

abbrev disk : Disk
disk = record { bytes = replicate 32 0; place = 0 }

abbrev align_up : ℕ → ℕ → ℕ
align_up n m = n

own_group : block_group state.super_block 6 ≡ 1
unfolding block_group
own_group = refl

abbrev group_small : block_group state.super_block 6 + 3 < 2 ^ 64
group_small = omega (arith, own_group)

-- The result of the theorem for two blocks near inode 6, which is in group 1.
ext2_allocate_blocks-first_group_example :
    ((k : ℕ) × (k < 3)
      × Room plain_masks ram_vfs align_up state memory table 6 2 refl refl
          (omega arith)
          group_small
          (omega arith)
          (omega arith)
          (omega arith)
          k
      × ((j : ℕ)
          → j < k
          → Full plain_masks ram_vfs align_up state memory table 6 2 refl refl
              (omega arith)
              group_small
              (omega arith)
              (omega arith)
              (omega arith)
              j)
      × (ext2_allocate_blocks plain_masks ram_vfs align_up state memory 6 2 disk
          ≡ pick_from plain_masks ram_vfs align_up state table memory 2
              (some ((block_group state.super_block 6 + k) % 3))
              disk))
    ⊎ (((j : ℕ)
          → j < 3
          → Full plain_masks ram_vfs align_up state memory table 6 2 refl refl
              (omega arith)
              group_small
              (omega arith)
              (omega arith)
              (omega arith)
              j)
        × (ext2_allocate_blocks plain_masks ram_vfs align_up state memory 6 2 disk
            ≡ done (none, disk)))
ext2_allocate_blocks-first_group_example =
    ext2_allocate_blocks-first_group plain_masks ram_vfs align_up state memory table 6 2 refl refl
      (omega arith) group_small (omega arith) (omega arith) (omega arith) disk

disk_zero : (i : ℕ) → i < 16 → (get_or disk.bytes (0 + i) 0 == 0) ≡ true
disk_zero = below 16 (λ i. get_or disk.bytes (0 + i) 0 == 0) refl

zero_byte : (i : ℕ) → i < 16 → get_or disk.bytes (0 + i) 0 ≡ 0
zero_byte i h = ground (arith, disk_zero i h)

pick_from_fault_example :
    pick_from plain_masks ram_vfs align_up state table memory 1 (some 0) disk ≡ fault
pick_from_fault_example =
    pick_from_fault plain_masks ram_vfs align_up tt ram_device state memory table refl 0 1
      (with_free 9) (5 ∷ []) (replicate 16 9) disk refl refl refl (omega arith) (omega arith) refl
      refl (omega arith) (omega arith) (omega arith) zero_byte

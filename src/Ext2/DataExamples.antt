-- ===== src/Ext2/DataExamples.antt =====
-- src/c/sysfs/ext2/util.c: the results at a small partition, and runs of the functions.
use kdrivers.Base.{
  ℕ, ◌+◌, ◌*◌, ◌/◌, ◌<◌, ◌≡◌, refl, none, some, true, not, leb, List, [], ◌∷◌, ◌++◌, ◌==◌,
  replicate, done, arith,
}
use kdrivers.Base.Filled.{IsFilled}
use kdrivers.Base.Slices.{slice}
use kdrivers.Base.Memory.{load16}
use kdrivers.Base.RamDisk.{Disk, ram_vfs, ram_device, read, write}
use kdrivers.Ext2.{load32, BasicState}
use kdrivers.Ext2.Samples.{below, node}
use kdrivers.Ext2.Alias.{resolve_aliases}
use kdrivers.Ext2.Blocks.{TableMemory, no_tables, resolve, load_entry}
use kdrivers.Ext2.Data.{ext2_read_inode_data}
use kdrivers.Ext2.Directory.{callback_get_inode_in_dir, list_block}
use kdrivers.Ext2.Entries.{Entry}
use kdrivers.Ext2.Layout.{block_of, word32, IsLayout, HasTable}
use kdrivers.Ext2.ReadData.{data_byte, ext2_read_inode_data-IsFilled}
use kdrivers.Ext2.Robust.{Ends, list_block-Ends}

-- Blocks of four bytes; the table names block 3.
abbrev bytes : List ℕ
bytes = 0 ∷ 0 ∷ 0 ∷ 0 ∷ 10 ∷ 11 ∷ 12 ∷ 13 ∷ 3 ∷ 0 ∷ 0 ∷ 0 ∷ 20 ∷ 21 ∷ 22 ∷ 23 ∷ []

abbrev disk : Disk
disk = record { bytes = bytes; place = 0 }

abbrev state : BasicState (Unit {0})
state = record { partition = some tt; node = some node; attributes = 2; block_size = 4; inode = 5 }

abbrev memory : TableMemory
memory = record { for_sibp = some (9 ∷ 9 ∷ 9 ∷ 9 ∷ []); for_dibp = none; for_tibp = none }

block_ok : (idx : ℕ) → idx < 13 → not (block_of bytes node 4 idx == 0) ≡ true
unfolding block_of word32
block_ok = below 13 (λ idx. not (block_of bytes node 4 idx == 0)) refl

block_in : (idx : ℕ) → idx < 13 → leb (block_of bytes node 4 idx * 4 + 4) 16 ≡ true
unfolding block_of word32
block_in = below 13 (λ idx. leb (block_of bytes node 4 idx * 4 + 4) 16) refl

table : HasTable ram_vfs tt ram_device none memory state node bytes
unfolding word32
table = record {
  sibp_given = omega arith;
  sibp_inside = omega arith;
  held = 9 ∷ 9 ∷ 9 ∷ 9 ∷ [];
  sibp_held = refl;
  held_length = refl;
}

layout : IsLayout ram_vfs tt ram_device none memory state node bytes 13
layout = record {
  open_partition = refl;
  node_length = omega arith;
  words = omega arith;
  partition_small = omega arith;
  limit_singly = omega arith;
  has_table = λ h. table;
  block_given = λ idx h. ground (arith, block_ok idx h);
  block_inside = λ idx h. ground (arith, block_in idx h);
}

-- The last two bytes of the last direct block, and the first two of the next one.
ext2_read_inode_data-IsFilled_example :
    (buffer' : List ℕ) × (w' : Disk) × (ext2_read_inode_data ram_vfs memory state
        (0 ∷ 0 ∷ 0 ∷ 0 ∷ [])
        46
        4
        disk
      ≡ done ((4, buffer'), w'))
    × IsFilled (λ i. data_byte bytes node 4 (46 + i)) 0 4 (0 ∷ 0 ∷ 0 ∷ 0 ∷ []) buffer'
    × (w'.bytes ≡ bytes)
ext2_read_inode_data-IsFilled_example =
    ext2_read_inode_data-IsFilled ram_vfs tt ram_device memory state node bytes 13 layout 46 4
      (omega arith) (omega arith) (0 ∷ 0 ∷ 0 ∷ 0 ∷ []) disk refl (omega arith) refl (omega arith)

reads_across :
    ext2_read_inode_data ram_vfs memory state (0 ∷ 0 ∷ 0 ∷ 0 ∷ []) 46 4 disk
    ≡ done ((4, 12 ∷ 13 ∷ 20 ∷ 21 ∷ []), record { bytes = bytes; place = 12 })
unfolding ext2_read_inode_data load32 load16 read write load_entry
reads_across = refl

resolve_aliases_example :
    resolve ram_vfs none memory
      (record state { block_size = 8 })
      node
      (12 + (0 + 8 / 4))
      no_tables
      disk
    ≡ resolve ram_vfs none memory (record state { block_size = 8 }) node (12 + 0) no_tables disk
resolve_aliases_example =
    resolve_aliases ram_vfs none memory (record state { block_size = 8 }) node no_tables disk 0
      (omega arith) (omega arith)

list_block-Ends_example :
    Ends (list_block (callback_get_inode_in_dir (b'a' ∷ [])) 9 (replicate 8 1) 8 0 0)
list_block-Ends_example =
    list_block-Ends (b'a' ∷ []) (replicate 8 1) 8 9 0 0 (omega arith) (omega arith) (omega arith)
      (omega arith)

-- A directory of one block of twelve bytes, with one entry.
abbrev entry : Entry
entry = record { inode = 7; kind = 1; name = b'a' ∷ []; padding = 3 }

abbrev entries : ℕ → List Entry
entries idx = entry ∷ []

abbrev dir_bytes : List ℕ
dir_bytes = replicate 12 0 ++ (7 ∷ 0 ∷ 0 ∷ 0 ∷ 12 ∷ 0 ∷ 1 ∷ 1 ∷ b'a' ∷ 0 ∷ 0 ∷ 0 ∷ [])

abbrev directory : BasicState (Unit {0})
directory = record state { block_size = 12 }

abbrev dir_block : ℕ → List ℕ
dir_block idx = slice dir_bytes (block_of dir_bytes node 12 idx * 12) 12

abbrev dir_disk : Disk
dir_disk = record { bytes = dir_bytes; place = 0 }

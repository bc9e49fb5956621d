-- ===== src/Ext2/WriteExamples.antt =====
-- src/c/sysfs/ext2/file.c over util.c: the result on writing, at a small partition, and a run.
use kdrivers.Base.{
  ℕ, zero, suc, ◌+◌, ◌*◌, ◌<◌, ◌≡◌, refl, none, some, true, not, leb, List, [], ◌∷◌, ◌++◌, ◌==◌,
  replicate, get_or, done, arith,
}
use kdrivers.Base.Filled.{IsFilled}
use kdrivers.Base.Masks.{plain_masks}
use kdrivers.Base.Memory.{load16, load32}
use kdrivers.Base.RamDisk.{Disk, ram_vfs, ram_device, write}
use kdrivers.Ext2.{NodeState}
use kdrivers.Ext2.Blocks.{TableMemory}
use kdrivers.Ext2.Data.{ext2_write_inode_data}
use kdrivers.Ext2.Direct.{direct_block, IsDirect, IsWritten}
use kdrivers.Ext2.Directory.{util}
use kdrivers.Ext2.Layout.{word32}
use kdrivers.Ext2.Node.{read_ext2_file, write_ext2_file}
use kdrivers.Ext2.RoundTrip.{read_ext2_file-write}
use kdrivers.Ext2.Samples.{below, no_super}

abbrev memory : TableMemory
memory = record { for_sibp = none; for_dibp = none; for_tibp = none }

-- An inode of the blocks 2 and 1, of four bytes.
abbrev node : List ℕ
node = replicate 40 0 ++ ((2 ∷ 0 ∷ 0 ∷ 0 ∷ 1 ∷ 0 ∷ 0 ∷ 0 ∷ []) ++ replicate 80 0)

abbrev disk : Disk
disk = record { bytes = replicate 12 7; place = 0 }

abbrev state : NodeState (Unit {0})
state = record {
  super = record {
    partition_path = none;
    descriptor_table = none;
    descriptor_count = 0;
    basic = record { partition = some tt; node = none; attributes = 2; block_size = 4; inode = 2 };
    super_block = no_super;
  };
  basic = record {
    partition = some tt;
    node = some node;
    attributes = 2;
    block_size = 4;
    inode = 5;
  };
}

block_ok : (idx : ℕ) → idx < 2 → not (direct_block node 4 idx == 0) ≡ true
unfolding word32
block_ok = below 2 (λ idx. not (direct_block node 4 idx == 0)) refl

block_in : (idx : ℕ) → idx < 2 → leb (direct_block node 4 idx * 4 + 4) 12 ≡ true
unfolding word32
block_in = below 2 (λ idx. leb (direct_block node 4 idx * 4 + 4) 12) refl

block_apart : (i j : ℕ) → i < 2 → j < 2 → direct_block node 4 i ≡ direct_block node 4 j → i ≡ j
unfolding word32
block_apart zero zero h k e = refl
block_apart zero (suc zero) h k e = absurd (omega arith)
block_apart (suc zero) zero h k e = absurd (omega arith)
block_apart (suc zero) (suc zero) h k e = refl
block_apart (suc (suc i)) j h k e = absurd (omega arith)
block_apart zero (suc (suc j)) h k e = absurd (omega arith)
block_apart (suc zero) (suc (suc j)) h k e = absurd (omega arith)

node-IsDirect : IsDirect node 4 2 12
node-IsDirect = record {
  node_length = omega arith;
  words = omega arith;
  partition_small = omega arith;
  limit_direct = omega arith;
  block_given = λ idx h. ground (arith, block_ok idx h);
  block_inside = λ idx h. ground (arith, block_in idx h);
  block_apart = block_apart;
}

abbrev source : List ℕ
source = 1 ∷ 2 ∷ 3 ∷ 4 ∷ []

-- Two bytes in the first block of the file, and two in the second, which lies before it.
read_ext2_file-write_example :
    let util' = util plain_masks ram_vfs memory 1 none in
    (w1 : Disk) × (buffer' : List ℕ) × (w2 : Disk) × (write_ext2_file ram_vfs util'
        (some source)
        2
        2
        (some 2)
        (some state)
        disk
      ≡ done ((4, some state), w1))
    × (read_ext2_file ram_vfs util' (some (replicate 5 0)) 2 2 (some 2) (some state) w1
        ≡ done ((4, some buffer'), w2))
    × IsFilled (λ i. get_or source i 0) 0 4 (replicate 5 0) buffer'
    × (w2.bytes ≡ w1.bytes)
    × IsWritten node 4 2 source 0 4 disk.bytes w1.bytes
read_ext2_file-write_example =
    read_ext2_file-write plain_masks ram_vfs tt ram_device memory state node 2 12 node-IsDirect refl
      refl (omega arith) 1 none source (replicate 5 0) 2 2 2 disk (omega arith) (omega arith)
      (omega arith) (omega arith) (omega arith) (omega arith) refl

writes_across :
    write_ext2_file ram_vfs
      (util plain_masks ram_vfs memory 1 none)
      (some source)
      2
      2
      (some 2)
      (some state)
      disk
    ≡ done (
      (4, some state),
      record { bytes = 7 ∷ 7 ∷ 7 ∷ 7 ∷ 3 ∷ 4 ∷ 7 ∷ 7 ∷ 7 ∷ 7 ∷ 1 ∷ 2 ∷ []; place = 6 },
    )
unfolding write_ext2_file ext2_write_inode_data load32 load16 write
writes_across = refl

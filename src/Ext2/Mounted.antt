-- ===== src/Ext2/Mounted.antt =====
-- src/c/sysfs/ext2/super.c: the file systems that are mounted, and what mounting leaves.
use kdrivers.Base.{
  ℕ, ◌+◌, ◌-◌, ◌*◌, ◌/◌, ◌%◌, ◌^◌, ◌≤◌, ◌<◌, ◌≡◌, ◌≢◌, ◌↔◌, refl, ap, sym, ◌∙◌, length,
  length-replicate, get_elem?, Option, none, some, u32, u64, replicate, true, List, if◌then◌else◌,
  Outcome, done, arith, ==_true, ==_false, min,
}
use kdrivers.Base.Masks.{Masks}
use kdrivers.Base.Slices.{slice}
use kdrivers.Base.Vfs.{Vfs, IsDevice}
use kdrivers.Ext2.{
  ext2_sig, super_size, desc_size, load_super, load_table, GroupDesc, SuperBlock, SuperState,
}
use kdrivers.Ext2.Check.{check_attributes, ext2_check_super}
use kdrivers.Ext2.Laws.{block_size_of-eq-pow, ext2_read_inode-slice}
use kdrivers.Ext2.Super.{
  Memory, Started, with_node, with_table, with_groups, groups_for, block_groups, block_size_of,
  start_table, start_groups, start_checked, start_super, start_file, init_ext2_super,
}
use kdrivers.Ext2.Start.{Supported, Supported-code}
use kdrivers.Ext2.Whole.{read_whole}
use kdrivers.Ext2.Mount.{init_ext2_super-Mounted}

groups_for-eq :
    (total per_group : ℕ)
    → per_group ≢ 0
    → total + per_group ≤ 2 ^ 32
    → groups_for total per_group ≡ done ((total + per_group - 1) / per_group)
unfolding groups_for
groups_for-eq total per_group given fits =
    rw (==_false per_group 0 given) (ap (λ (k : ℕ). done (k / per_group)) (omega arith))

module _ (masks : Masks) (v : Vfs) (file : v.File) (d : IsDevice v file) (path : List ℕ)
    (w : v.World) (memory : Memory) (super : SuperBlock) where
  abbrev pub bytes : List ℕ
  bytes = d.bytes (v.vfs_open path w).1

  -- The size of a block that the super block asks for, the place of the descriptor table, and that
  -- of the root's inode.
  abbrev pub block_bytes : ℕ
  block_bytes = 1024 * 2 ^ super.log2_block_size

  abbrev pub table_place : ℕ
  table_place = u32 (1 + super.superblock) * block_bytes

  abbrev pub root_place : GroupDesc → ℕ
  root_place desc =
      desc.inode_table_start * block_bytes + super.inode_size * (1 % super.inodes_per_group)

  -- The partition opens, and has a super block, the descriptors of its groups, and the root's
  -- inode. There are as many groups as the blocks need, or the inodes, whichever is less.
  pub record HasStructures (groups : ℕ) (descs : List GroupDesc) (desc : GroupDesc) : Type 0 where
    pub opens : (v.vfs_open path w).0 ≡ some file
    pub small : length bytes < 2 ^ 64
    pub super_inside : 1024 + super_size ≤ length bytes
    pub super_there : load_super (slice bytes 1024 super_size) ≡ done super
    pub power : super.log2_block_size ≤ 53
    pub some_blocks : super.blocks_per_group ≢ 0
    pub some_inodes : super.inodes_per_group ≢ 0
    pub blocks_fit : super.total_blocks + super.blocks_per_group ≤ 2 ^ 32
    pub inodes_fit : super.total_inodes + super.inodes_per_group ≤ 2 ^ 32
    pub group_count :
        groups
        ≡ min
            ((super.total_blocks + super.blocks_per_group - 1) / super.blocks_per_group)
            ((super.total_inodes + super.inodes_per_group - 1) / super.inodes_per_group)
    pub table_inside : table_place + groups * desc_size ≤ length bytes
    pub table_there :
        load_table groups (slice bytes table_place (groups * desc_size)) 0 ≡ done descs
    pub root_group : get_elem? descs (1 / super.inodes_per_group) ≡ some desc
    pub root_inside : root_place desc + super.inode_size ≤ length bytes

  -- There is memory for the state, the path, the table and the root's inode.
  pub record HasMemory (groups : ℕ) : Type 0 where
    pub table : List ℕ
    pub node : List ℕ
    pub for_state : memory.state ≡ true
    pub for_path : memory.path ≡ true
    pub for_table : memory.table ≡ some table
    pub for_node : memory.node ≡ some node
    pub table_fits : length table ≡ groups * desc_size
    pub node_fits : length node ≡ super.inode_size

  -- What mounting leaves.
  pub record IsMounted (descs : List GroupDesc) (desc : GroupDesc) (s : SuperState v.File)
      : Type 0 where
    pub same_super : s.super_block ≡ super
    pub same_path : s.partition_path ≡ some path
    pub same_table : s.descriptor_table ≡ some descs
    pub partition : s.basic.partition ≡ some file
    pub block_size : s.basic.block_size ≡ block_bytes
    pub root : s.basic.node ≡ some (slice bytes (root_place desc) super.inode_size)

  module _ (groups : ℕ) (descs : List GroupDesc) (desc : GroupDesc)
      (there : HasStructures groups descs desc) (has : HasMemory groups) where
    abbrev start_attributes : ℕ
    start_attributes = masks.masked_write 0 1 1 1

    abbrev state_with : Option (List GroupDesc) → ℕ → Option (List ℕ) → SuperState v.File
    state_with table size node = record {
      partition_path = none;
      descriptor_table = table;
      descriptor_count = groups;
      basic = record {
        partition = some file;
        node = node;
        attributes = (check_attributes masks super start_attributes).1;
        block_size = size;
        inode = 0;
      };
      super_block = super;
    }

    with_table-Mounts :
        (w' : v.World)
        → d.bytes w' ≡ bytes
        → (s : SuperState v.File) × (w'' : v.World) × (with_table masks v memory path
              (state_with none (block_size_of super) none)
              w'
              descs
            ≡ done (0, some s, w''))
          × IsMounted descs desc s
    unfolding with_table with_node
    with_table-Mounts w' same =
        let size = block_size_of-eq-pow super there.power in
        let state : SuperState v.File =
          record (state_with (some descs) (block_size_of super) none) {
            partition_path = if memory.path then some path else none;
          } in
        let len : length (d.bytes w') ≡ length bytes = ap length same in
        let at : desc.inode_table_start * block_size_of super
              + super.inode_size * ((2 - 1) % super.inodes_per_group)
            ≡ root_place desc =
          ap
            (λ (b : ℕ).
              desc.inode_table_start * b + super.inode_size * (1 % super.inodes_per_group))
            size in
        let read =
          ext2_read_inode-slice v state 2 w' file d has.node descs desc refl refl (omega arith)
            there.some_inodes there.root_group has.node_fits
            (omega (arith, at, len, there.root_inside)) (omega (arith, len, there.small)) in
        let root =
          slice (d.bytes w')
            (desc.inode_table_start * block_size_of super
              + super.inode_size * ((2 - 1) % super.inodes_per_group))
            super.inode_size in
        let mounted : SuperState v.File = record state {
          basic = record state.basic { node = some root; inode = 2 };
        } in
        (
          mounted,
          read.0,
          rw (has.for_node, read.1) refl,
          record {
            same_super = refl;
            same_path = rw has.for_path refl;
            same_table = refl;
            partition = refl;
            block_size = size;
            root = λ i. some (slice (same i) (at i) super.inode_size);
          },
        )

    abbrev Mounts : Outcome (Started masks v) → Type 0
    Mounts o =
        (s : SuperState v.File) × (w'' : v.World) × (o ≡ done (0, some s, w''))
        × IsMounted descs desc s

    Mounts-eq : (o o' : Outcome (Started masks v)) → o ≡ o' → Mounts o' → Mounts o
    Mounts-eq o o' e (s, w'', r, m) = (s, w'', e ∙ r, m)

    start_table-Mounts :
        (w' : v.World)
        → d.bytes w' ≡ bytes
        → Mounts (
            start_table masks v memory path
              (state_with none (block_size_of super) none)
              groups
              has.table
              w')
    unfolding start_table
    start_table-Mounts w' same =
        let size = block_size_of-eq-pow super there.power in
        let state = state_with none (block_size_of super) none in
        let len : length (d.bytes w') ≡ length bytes = ap length same in
        let place : u64 (u32 (1 + super.superblock) * block_size_of super) ≡ table_place =
          ap (λ (b : ℕ). u64 (u32 (1 + super.superblock) * b)) size
          ∙ omega (arith, there.table_inside, there.small) in
        let n = groups * desc_size in
        let read =
          read_whole v file d has.table table_place n w' has.table_fits
            (omega (arith, len, there.table_inside)) in
        let held : load_table groups (slice (d.bytes w') table_place n) 0 ≡ done descs =
          ap (λ (l : List ℕ). load_table groups (slice l table_place n) 0) same
          ∙ there.table_there in
        let rest =
          with_table-Mounts
            (v.vfs_read has.table 0 1 n (some file) (v.vfs_seek (some file) table_place w')).1
            (read.1 ∙ same) in
        Mounts-eq _ _ (rw (place, read.0, ==_true n n refl, held) refl) rest

    groups_are : block_groups super ≡ done groups
    unfolding block_groups
    groups_are =
        let blocks =
          groups_for-eq super.total_blocks super.blocks_per_group there.some_blocks
            there.blocks_fit in
        let inodes =
          groups_for-eq super.total_inodes super.inodes_per_group there.some_inodes
            there.inodes_fit in
        rw (blocks, inodes) (ap done (sym there.group_count))

    start_groups-Mounts :
        (w' : v.World)
        → d.bytes w' ≡ bytes
        → Mounts (
            start_groups masks v memory path
              (record (state_with none 0 none) { descriptor_count = 0 })
              w')
    unfolding start_groups with_groups
    start_groups-Mounts w' same =
        Mounts-eq _ _ (rw (groups_are, has.for_table) refl) (start_table-Mounts w' same)

    start_super-Mounts :
        (w' : v.World)
        → d.bytes w' ≡ bytes
        → super.sig ≡ ext2_sig
        → Supported super
        → Mounts (start_super masks v memory path (some file) super w')
    unfolding start_super start_checked ext2_check_super
    start_super-Mounts w' same signed supported =
        let ok = Supported-code masks super start_attributes supported in
        Mounts-eq _ _ (rw (signed, ok) refl) (start_groups-Mounts w' same)

    start_file-Mounts :
        (w' : v.World)
        → d.bytes w' ≡ bytes
        → super.sig ≡ ext2_sig
        → Supported super
        → Mounts (start_file masks v memory path (some file) w')
    unfolding start_file
    start_file-Mounts w' same signed supported =
        let len : length (d.bytes w') ≡ length bytes = ap length same in
        let read =
          read_whole v file d (replicate super_size 0) 1024 super_size w'
            (length-replicate {A = ℕ} super_size 0) (omega (arith, len, there.super_inside)) in
        let held : load_super (slice (d.bytes w') 1024 super_size) ≡ done super =
          ap (λ (l : List ℕ). load_super (slice l 1024 super_size)) same ∙ there.super_there in
        Mounts-eq _ _ (rw (read.0, held) refl) (
          start_super-Mounts
            (v.vfs_read (replicate super_size 0) 0 1 super_size (some file)
              (v.vfs_seek (some file) 1024 w')).1
            (read.1 ∙ same) signed supported)

    init-Mounts :
        super.sig ≡ ext2_sig
        → Supported super
        → Mounts (init_ext2_super masks v memory true (some path) w)
    unfolding init_ext2_super
    init-Mounts signed supported =
        Mounts-eq _ _ (rw (there.opens, has.for_state) refl)
          (start_file-Mounts (v.vfs_open path w).1 refl signed supported)

    -- A partition that has the structures of a file system is mounted exactly where the signature
    -- of its super block is that of ext2 and the driver supports what its features and errors ask
    -- for. Then the driver's state has the super block that the partition's bytes from 1024 on say,
    -- field by field, blocks of 1024 times the power of two that it asks for, the descriptors of
    -- the groups, which stand in the block behind the one that it names as its own, and the bytes
    -- of inode 2, at its place in the table of its group. The structures are within the partition,
    -- a block has 2 ^ 63 bytes at most, a group has blocks and inodes, the counts of either are
    -- such that the groups are counted without a wrap in 32 bits, and there is memory for all that
    -- is allocated, the path's copy included.
    pub init_ext2_super-IsMounted :
        ((s : SuperState v.File) × (w' : v.World) × (init_ext2_super masks v memory true
              (some path)
              w
            ≡ done (0, some s, w'))
          × IsMounted descs desc s)
        ↔ ((super.sig ≡ ext2_sig) × Supported super)
    init_ext2_super-IsMounted = (
      λ (s, w', e, m).
          let k =
            init_ext2_super-Mounted masks v file d path w memory w' 0 s there.opens
              there.super_inside e
              (omega
                (arith, ap (λ (b : SuperBlock). b.log2_block_size) m.same_super, there.power)) in
          rw (← m.same_super) (k.2, k.3),
      λ (signed, supported). init-Mounts signed supported,
    )

-- ===== src/Ext2/ByName.antt =====
-- src/c/sysfs/ext2/: a file of a directory, from its name to its data, over all of the driver.
use kdrivers.Base.{
  All, ℕ, ◌+◌, ◌-◌, ◌*◌, ◌/◌, ◌%◌, ◌^◌, ◌≤◌, ◌<◌, ◌≡◌, ◌≢◌, refl, ap, sym, ◌∙◌, none, some, true,
  List, ==_false, length, get_elem?, u32, u64, done, arith,
}
use kdrivers.Base.Filled.{IsFilled}
use kdrivers.Base.Masks.{Masks}
use kdrivers.Base.Slices.{mul_nonzero, slice}
use kdrivers.Base.Vfs.{Vfs, IsDevice}
use kdrivers.Ext2.{GroupDesc, NodeState, LocateArgs}
use kdrivers.Ext2.Blocks.{TableMemory}
use kdrivers.Ext2.Directory.{util}
use kdrivers.Ext2.Entries.{Entry, IsEntry, encode_block, first_match}
use kdrivers.Ext2.Inode.{ext2_read_inode}
use kdrivers.Ext2.Laws.{ext2_read_inode-slice}
use kdrivers.Ext2.Layout.{IsLayout}
use kdrivers.Ext2.Node.{open_node, init_ext2_file, read_ext2_file, locate_in, locate_ext2_directory}
use kdrivers.Ext2.ReadData.{data_byte, ext2_read_inode_data-IsFilled}
use kdrivers.Ext2.Search.{block_bytes, ext2_get_inode_in_dir-first_match}

module _ (v : Vfs) (file : v.File) (d : IsDevice v file) (memory : TableMemory)
    (dir : NodeState v.File) (bytes : List ℕ) where
  -- What a directory on a partition of `bytes` has: `limit` blocks of entries.
  pub record IsDirectory (limit : ℕ) (entries : ℕ → List Entry) : Type 0 where
    pub node : List ℕ
    pub named : dir.basic.node ≡ some node
    pub layout : IsLayout v file d none memory dir.basic node bytes limit
    pub no_wrap : limit * dir.basic.block_size < 2 ^ 64
    pub holds :
        (idx : ℕ)
        → idx < limit
        → block_bytes v file d memory dir.basic node bytes limit layout named no_wrap idx
          ≡ encode_block (entries idx)
    pub valid : (idx : ℕ) → idx < limit → All IsEntry (entries idx)

  -- The group's part of the inode table has the inode.
  pub record IsInode (inode : ℕ) (address : ℕ) : Type 0 where
    pub table : List GroupDesc
    pub desc : GroupDesc
    pub open_partition : dir.super.basic.partition ≡ some file
    pub has_table : dir.super.descriptor_table ≡ some table
    pub given : inode ≢ 0
    pub some_inodes : dir.super.super_block.inodes_per_group ≢ 0
    pub in_group :
        get_elem? table ((inode - 1) / dir.super.super_block.inodes_per_group) ≡ some desc
    pub address_of :
        address
        ≡ desc.inode_table_start * dir.super.basic.block_size
          + dir.super.super_block.inode_size
            * ((inode - 1) % dir.super.super_block.inodes_per_group)
    pub inside : address + dir.super.super_block.inode_size ≤ length bytes

  -- The first entry that the directory has for `name`, over its blocks in order.
  pub record IsNamed (limit : ℕ) (entries : ℕ → List Entry) (name : List ℕ) (inode : ℕ)
      : Type 0 where
    pub block : ℕ
    pub in_directory : block < limit
    pub none_before : (idx : ℕ) → idx < block → first_match name (entries idx) ≡ none
    pub at_block : first_match name (entries block) ≡ some inode

  -- The inode of a file, and the file driver's state for it, where `held` is what the memory of
  -- the state held.
  abbrev pub inode_bytes : ℕ → List ℕ
  inode_bytes address = slice bytes address dir.super.super_block.inode_size

  abbrev pub opened : ℕ → ℕ → ℕ → NodeState v.File
  opened held inode address = record {
    super = dir.super;
    basic = record {
      partition = some file;
      node = some (inode_bytes address);
      attributes = held;
      block_size = dir.super.basic.block_size;
      inode = u32 inode;
    };
  }

  module _ (masks : Masks) (path : List ℕ) (has_path : dir.super.partition_path ≡ some path)
      (opens : (w : v.World) → (v.vfs_open path w).0 ≡ some file)
      (opens_only : (w : v.World) → d.bytes (v.vfs_open path w).1 ≡ d.bytes w)
      (small : length bytes < 2 ^ 64) (limit : ℕ) (entries : ℕ → List Entry)
      (directory : IsDirectory limit entries) (name : List ℕ) (inode address : ℕ)
      (is_named : IsNamed limit entries name inode) (is_inode : IsInode inode address) (fuel : ℕ)
      (enough : limit ≤ fuel) where
    -- The search gives the name's inode, and reading the inode gives its bytes.
    pub search_and_read :
        (block memory' : List ℕ) (w : v.World)
        → d.bytes w ≡ bytes
        → length block ≡ dir.basic.block_size
        → length memory' ≡ dir.super.super_block.inode_size
        → let util' = util masks v memory fuel (some block) in
          (w1 : v.World) × (w' : v.World) × (util'.ext2_get_inode_in_dir dir.basic name w
            ≡ done (inode, w1))
          × (ext2_read_inode v (some memory') (some dir.super) inode w1
              ≡ done (some (inode_bytes address), w'))
          × (d.bytes w' ≡ bytes)
    search_and_read block memory' w at block_fits fits =
        let found =
          ext2_get_inode_in_dir-first_match v file d memory dir.basic directory.node bytes limit
            directory.layout directory.named directory.no_wrap name entries directory.holds
            directory.valid fuel is_named.block inode block w is_named.in_directory (omega arith)
            is_named.none_before is_named.at_block at block_fits in
        let len : length (d.bytes found.0) ≡ length bytes = ap length found.2 in
        let super = dir.super.super_block in
        let read =
          ext2_read_inode-slice v dir.super inode found.0 file d memory' is_inode.table
            is_inode.desc is_inode.open_partition is_inode.has_table is_inode.given
            is_inode.some_inodes is_inode.in_group fits
            (omega (arith, is_inode.inside, is_inode.address_of, len)) (omega (arith, len)) in
        let same : slice (d.bytes found.0)
              (is_inode.desc.inode_table_start * dir.super.basic.block_size
                + super.inode_size * ((inode - 1) % super.inodes_per_group))
              super.inode_size
            ≡ inode_bytes address =
          λ i. slice (found.2 i) (sym is_inode.address_of i) super.inode_size in
        (
          found.0,
          read.0,
          found.1,
          read.1 ∙ ap (λ (l : List ℕ). done (some l, read.0)) same,
          read.2 ∙ found.2,
        )

    -- The name's inode is read.
    pub located :
        (block memory' : List ℕ) (w : v.World)
        → d.bytes w ≡ bytes
        → length block ≡ dir.basic.block_size
        → length memory' ≡ dir.super.super_block.inode_size
        → (w' : v.World) × (locate_ext2_directory v
              (util masks v memory fuel (some block))
              true
              (some memory')
              (some dir)
              (some name)
              w
            ≡ done (
              some (record {
                node = some (inode_bytes address);
                super = dir.super;
                inode = u32 inode;
              }),
              w',
            ))
          × (d.bytes w' ≡ bytes)
    unfolding locate_ext2_directory locate_in
    located block memory' w at block_fits fits =
        let r = search_and_read block memory' w at block_fits fits in (r.1, rw (r.2, r.3) refl, r.4)

    -- What is located is opened by the file driver.
    pub opened-located :
        (held : ℕ) (w : v.World)
        → init_ext2_file v
            (some held)
            true
            (some
              (record { node = some (inode_bytes address); super = dir.super; inode = u32 inode }))
            w
          ≡ done (0, some (opened held inode address), (v.vfs_open path w).1)
    unfolding init_ext2_file open_node
    opened-located held w = simp (has_path, opens) refl

    -- A file that a directory has by name is located, opened and read: the directory's blocks
    -- hold their entries, the first entry for the name gives an inode in the inode table, and the
    -- blocks of that inode are on the partition. Reading within them fills the caller's array
    -- with the bytes of the inode's blocks from the file's offset on, and leaves the rest of the
    -- array and the partition as they were. Every call succeeds and ends.
    pub read_ext2_file-locate_ext2_directory :
        (held flimit : ℕ)
        → IsLayout v file d none memory
            (opened held inode address).basic
            (inode_bytes address)
            bytes
            flimit
        → (block memory' buffer : List ℕ) (size count offset : ℕ) (w : v.World) → d.bytes w ≡ bytes
        → length block ≡ dir.basic.block_size
        → length memory' ≡ dir.super.super_block.inode_size
        → size ≢ 0
        → count ≢ 0
        → size * count ≤ length buffer
        → offset + size * count ≤ flimit * dir.super.basic.block_size
        → offset + size * count < 2 ^ 64
        → let util' = util masks v memory fuel (some block) in
          (args : LocateArgs v.File) × (state : NodeState v.File) × (buffer' : List ℕ)
          × (w1 : v.World) × (w2 : v.World) × (w3 : v.World) × (locate_ext2_directory v util' true
                (some memory')
                (some dir)
                (some name)
                w
              ≡ done (some args, w1))
          × (init_ext2_file v (some held) true (some args) w1 ≡ done (0, some state, w2))
          × (read_ext2_file v util' (some buffer) size count (some offset) (some state) w2
              ≡ done ((size * count, some buffer'), w3))
          × IsFilled
              (λ i. data_byte bytes (inode_bytes address) dir.super.basic.block_size (offset + i))
              0
              (size * count)
              buffer
              buffer'
          × (d.bytes w3 ≡ bytes)
    unfolding init_ext2_file open_node read_ext2_file
    read_ext2_file-locate_ext2_directory held flimit layout block memory' buffer size count offset w
          at block_fits fits hs hc room in_file no_wrap =
        let found = located block memory' w at block_fits fits in
        let w1 = found.0 in
        let w2 = (v.vfs_open path w1).1 in
        let state = opened held inode address in
        let n = size * count in
        let positive = mul_nonzero size count hs hc in
        let whole : u64 n ≡ n = omega arith in
        let r =
          ext2_read_inode_data-IsFilled v file d memory state.basic (inode_bytes address) bytes
            flimit layout offset n in_file no_wrap buffer w2 refl positive (opens_only w1 ∙ found.2)
            room in
        (
          record { node = some (inode_bytes address); super = dir.super; inode = u32 inode },
          state,
          r.0,
          w1,
          w2,
          r.1,
          found.1,
          opened-located held w1,
          rw (==_false size 0 hs, ==_false count 0 hc, whole, r.2) refl,
          r.3,
          r.4,
        )

-- ===== src/Ext2/Mount.antt =====
-- src/c/sysfs/ext2/super.c: what holds of every file system that is mounted.
use kdrivers.Base.{
  ℕ, ◌+◌, ◌*◌, ◌^◌, ◌≤◌, ◌≡◌, refl, ap, sym, ◌∙◌, length, length-replicate, Option, none, some,
  Bool, if◌then◌else◌, u32, u64, replicate, true, false, List, ◌==◌, Outcome, done, fault,
  out_of_fuel, ◌>>=◌, arith,
}
use kdrivers.Base.Masks.{Masks}
use kdrivers.Base.Vfs.{Vfs, IsDevice}
use kdrivers.Base.Slices.{slice}
use kdrivers.Ext2.Laws.{block_size_of-eq-pow}
use kdrivers.Base.Alloc.{neg}
use kdrivers.Ext2.{
  ext2_sig, super_size, desc_size, load_super, load_table, GroupDesc, SuperBlock, SuperState,
}
use kdrivers.Ext2.Inode.{ext2_read_inode}
use kdrivers.Ext2.Check.{ext2_check_super}
use kdrivers.Ext2.Super.{
  Memory, Started, failed, with_node, with_table, with_groups, block_groups, block_size_of,
  start_table, start_groups, start_checked, start_super, start_file, init_ext2_super,
}
use kdrivers.Ext2.Whole.{read_whole}
use kdrivers.Ext2.Start.{Supported, code-Supported}
use mathlib.Core.Path.{subst}

module _ (masks : Masks) (v : Vfs) (file : v.File) (held : List ℕ) where
  -- The super block is the one that `held` says, has the signature, and is one that the driver
  -- supports; the partition is the file.
  Known : SuperBlock → Option v.File → Type 0
  Known super partition =
      (load_super held ≡ done super)
      × (super.sig ≡ ext2_sig)
      × Supported super
      × (partition ≡ some file)

  Mounted : SuperState v.File → Type 0
  Mounted s =
      Known s.super_block s.basic.partition × (s.basic.block_size ≡ block_size_of s.super_block)

  Good : Outcome (Started masks v) → Type 0
  Good (done (code, some s, w)) = (code ≡ 0) × Mounted s
  Good (done (code, none, w)) = Unit
  Good fault = Unit
  Good out_of_fuel = Unit

  bind_Good :
      {A : Type 0} (o : Outcome A) (k : A → Outcome (Started masks v))
      → ((x : A) → Good (k x))
      → Good (o >>= k)
  unfolding Good
  bind_Good (done x) k h = h x
  bind_Good fault k h = tt
  bind_Good out_of_fuel k h = tt

  bind_Good_of :
      {A : Type 0} (o : Outcome A) (k : A → Outcome (Started masks v))
      → ((x : A) → o ≡ done x → Good (k x))
      → Good (o >>= k)
  unfolding Good
  bind_Good_of (done x) k h = h x refl
  bind_Good_of fault k h = tt
  bind_Good_of out_of_fuel k h = tt

  if_Good :
      (b : Bool) (t e : Outcome (Started masks v))
      → (b ≡ true → Good t)
      → Good e
      → Good (if b then t else e)
  if_Good true t e p q = p refl
  if_Good false t e p q = q

  failed-Good : (code : ℕ) (file : Option v.File) (w : v.World) → Good (failed masks v code file w)
  unfolding Good
  failed-Good code file w = tt

  with_node-Good :
      (state : SuperState v.File) (r : Option (List ℕ) × v.World)
      → Known state.super_block state.basic.partition
      → state.basic.block_size ≡ block_size_of state.super_block
      → Good (with_node masks v state r)
  unfolding with_node Good Mounted
  with_node-Good state (bytes, w) known size = (refl, (known, size))

  with_table-Good :
      (memory : Memory) (path : List ℕ) (state : SuperState v.File) (w : v.World)
      (descs : List GroupDesc)
      → Known state.super_block state.basic.partition
      → state.basic.block_size ≡ block_size_of state.super_block
      → Good (with_table masks v memory path state w descs)
  unfolding with_table
  with_table-Good memory path state w descs known size =
      let state' : SuperState v.File = record state {
        descriptor_table = some descs;
        partition_path = if memory.path then some path else none;
      } in
      bind_Good (ext2_read_inode v memory.node (some state') 2 w) (λ r. with_node masks v state' r)
        (λ r. with_node-Good state' r known size)

  start_table-Good :
      (memory : Memory) (path : List ℕ) (state : SuperState v.File) (groups : ℕ) (table : List ℕ)
      (w : v.World)
      → Known state.super_block state.basic.partition
      → state.basic.block_size ≡ block_size_of state.super_block
      → Good (start_table masks v memory path state groups table w)
  unfolding start_table
  start_table-Good memory path state groups table w known size =
      let file = state.basic.partition in
      let w' =
        v.vfs_seek file (u64 (u32 (1 + state.super_block.superblock) * state.basic.block_size)) w in
      let r = v.vfs_read table 0 1 (groups * desc_size) file w' in
      if_Good (r.0.0 == groups * desc_size)
        (load_table groups r.0.1 0 >>= λ descs. with_table masks v memory path state r.1 descs)
        (failed masks v 8 file r.1)
        (λ _.
          bind_Good (load_table groups r.0.1 0)
            (λ descs. with_table masks v memory path state r.1 descs)
            (λ descs. with_table-Good memory path state r.1 descs known size))
        (failed-Good 8 file r.1)

  with_groups-Good :
      (table : Option (List ℕ)) (memory : Memory) (path : List ℕ) (state : SuperState v.File)
      (w : v.World) (groups : ℕ)
      → Known state.super_block state.basic.partition
      → Good (with_groups masks v table memory path state w groups)
  unfolding with_groups
  with_groups-Good none memory path state w groups known = failed-Good 7 state.basic.partition w
  with_groups-Good (some table) memory path state w groups known =
      let state' : SuperState v.File = record state {
        descriptor_count = groups;
        basic = record state.basic { block_size = block_size_of state.super_block };
      } in
      start_table-Good memory path state' groups table w known refl

  start_groups-Good :
      (memory : Memory) (path : List ℕ) (state : SuperState v.File) (w : v.World)
      → Known state.super_block state.basic.partition
      → Good (start_groups masks v memory path state w)
  unfolding start_groups
  start_groups-Good memory path state w known =
      bind_Good (block_groups state.super_block)
        (λ groups. with_groups masks v memory.table memory path state w groups)
        (λ groups. with_groups-Good memory.table memory path state w groups known)

  equal : (a b : ℕ) → (a == b) ≡ true → a ≡ b
  equal a b h = ground arith

  -- What a result of the check that lets the mount go on has to say.
  Safe : ℕ × Option (SuperState v.File) → Type 0
  Safe (code, none) = Unit
  Safe (code, some state) = code ≡ 0 → Known state.super_block state.basic.partition

  start_checked-Good :
      (memory : Memory) (path : List ℕ) (file' : Option v.File) (super : SuperBlock)
      (r : ℕ × Option (SuperState v.File)) (w : v.World)
      → Safe r
      → Good (start_checked masks v memory path file' super r w)
  unfolding start_checked Safe
  start_checked-Good memory path file' super (code, none) w safe = failed-Good 6 file' w
  start_checked-Good memory path file' super (code, some state) w safe =
      if_Good (code == 0) (start_groups masks v memory path state w) (failed masks v 6 file' w)
        (λ ok. start_groups-Good memory path state w (safe (equal code 0 ok)))
        (failed-Good 6 file' w)

  start_super-Good :
      (memory : Memory) (path : List ℕ) (super : SuperBlock) (w : v.World)
      → load_super held ≡ done super
      → Good (start_super masks v memory path (some file) super w)
  unfolding start_super Safe Known ext2_check_super
  start_super-Good memory path super w is_held =
      let state : SuperState v.File = record {
        partition_path = none;
        descriptor_table = none;
        descriptor_count = 0;
        basic = record {
          partition = some file;
          node = none;
          attributes = masks.masked_write 0 1 1 1;
          block_size = 0;
          inode = 0;
        };
        super_block = super;
      } in
      if_Good (super.sig == ext2_sig)
        (start_checked masks v memory path (some file) super (ext2_check_super masks (some state))
          w)
        (failed masks v 5 (some file) w)
        (λ signed.
          start_checked-Good memory path (some file) super (ext2_check_super masks (some state)) w
            (λ ok. (
              is_held,
              equal super.sig ext2_sig signed,
              code-Supported masks super state.basic.attributes ok,
              refl,
            )))
        (failed-Good 5 (some file) w)

  start_file-Good :
      (memory : Memory) (path : List ℕ) (w : v.World)
      → (v.vfs_read
          (replicate super_size 0)
          0
          1
          super_size
          (some file)
          (v.vfs_seek (some file) 1024 w)).0.1
        ≡ held
      → Good (start_file masks v memory path (some file) w)
  unfolding start_file
  start_file-Good memory path w is_read =
      let w' = v.vfs_seek (some file) 1024 w in
      let r = v.vfs_read (replicate super_size 0) 0 1 super_size (some file) w' in
      if_Good (r.0.0 == super_size)
        (load_super r.0.1 >>= λ super. start_super masks v memory path (some file) super r.1)
        (failed masks v 4 (some file) r.1)
        (λ _.
          bind_Good_of (load_super r.0.1)
            (λ super. start_super masks v memory path (some file) super r.1)
            (λ super e. start_super-Good memory path super r.1 (sym (ap load_super is_read) ∙ e)))
        (failed-Good 4 (some file) r.1)

  init-Good :
      (memory : Memory) (path : List ℕ) (w : v.World)
      → (v.vfs_open path w).0 ≡ some file
      → (v.vfs_read
          (replicate super_size 0)
          0
          1
          super_size
          (some file)
          (v.vfs_seek (some file) 1024 (v.vfs_open path w).1)).0.1
        ≡ held
      → Good (init_ext2_super masks v memory true (some path) w)
  unfolding init_ext2_super Good
  init-Good memory path w opens is_read =
      let r = v.vfs_open path w in
      if_Good memory.state (start_file masks v memory path r.0 r.1) (done (neg 2, none, w))
        (λ _. rw opens (start_file-Good memory path r.1 is_read)) tt

module _ (masks : Masks) (v : Vfs) (file : v.File) (d : IsDevice v file) (path : List ℕ)
    (w : v.World) where
  -- The bytes of the super block on the partition.
  abbrev pub super_bytes : List ℕ
  super_bytes = slice (d.bytes (v.vfs_open path w).1) 1024 super_size

  super_read :
      1024 + super_size ≤ length (d.bytes (v.vfs_open path w).1)
      → (v.vfs_read
          (replicate super_size 0)
          0
          1
          super_size
          (some file)
          (v.vfs_seek (some file) 1024 (v.vfs_open path w).1)).0.1
        ≡ super_bytes
  super_read inside =
      ap (λ (x : ℕ × List ℕ). x.1)
        (read_whole v file d (replicate super_size 0) 1024 super_size (v.vfs_open path w).1
          (length-replicate {A = ℕ} super_size 0) inside).0

  -- Where mounting a partition that opens, and that reaches to the end of the super block, leaves
  -- a driver state, it has succeeded: the state's super block is what the partition's bytes from
  -- 1024 on say, field by field, it has the signature and asks for no feature that the driver
  -- lacks, the file is the one that was opened, and the size of a block is 1024 times the power
  -- of two that the super block asks for, up to 2 ^ 63.
  pub init_ext2_super-Mounted :
      (memory : Memory) (w' : v.World) (code : ℕ) (s : SuperState v.File)
      → (v.vfs_open path w).0 ≡ some file
      → 1024 + super_size ≤ length (d.bytes (v.vfs_open path w).1)
      → init_ext2_super masks v memory true (some path) w ≡ done (code, some s, w')
      → s.super_block.log2_block_size ≤ 53
      → (code ≡ 0)
        × (load_super super_bytes ≡ done s.super_block)
        × (s.super_block.sig ≡ ext2_sig)
        × Supported s.super_block
        × (s.basic.partition ≡ some file)
        × (s.basic.block_size ≡ 1024 * 2 ^ s.super_block.log2_block_size)
  unfolding Good Mounted Known
  init_ext2_super-Mounted memory w' code s opens inside e small =
      let good : Good masks v file super_bytes (done (code, some s, w')) =
        subst (Good masks v file super_bytes) e
          (init-Good masks v file super_bytes memory path w opens (super_read inside)) in
      let known = good.1.0 in
      (
        good.0,
        known.0,
        known.1,
        known.2,
        known.3,
        good.1.1 ∙ block_size_of-eq-pow s.super_block small,
      )

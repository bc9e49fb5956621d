-- ===== src/Ext2/Node.antt =====
-- src/c/sysfs/ext2/file.c and directory.c: the drivers of one file or directory, and looking a
-- name up in a directory, which super.c does for the root in the same way.
use kdrivers.Base.{
  ℕ, ◌*◌, Option, none, some, Bool, true, false, ◌||◌, List, ◌==◌, if◌then◌else◌, u32, u64, Outcome,
  done, fault, ◌>>=◌,
}
use kdrivers.Base.Alloc.{neg}
use kdrivers.Base.Vfs.{Vfs}
use kdrivers.Ext2.{load_type_perms, load_size_low, BasicState, SuperState, NodeState, LocateArgs}
use kdrivers.Ext2.Inode.{ext2_read_inode}

-- The interface of util.c: the data of an inode, and the search of a directory.
pub record InodeData (v : Vfs) : Type 0 where
  pub ext2_read_inode_data :
      BasicState v.File → List ℕ → ℕ → ℕ → v.World → Outcome ((ℕ × List ℕ) × v.World)
  pub ext2_write_inode_data :
      NodeState v.File → List ℕ → ℕ → ℕ → v.World → Outcome ((ℕ × NodeState v.File) × v.World)
  pub ext2_get_inode_in_dir : BasicState v.File → List ℕ → v.World → Outcome (ℕ × v.World)

-- The fields of `struct stat` that `stat_ext2_file` sets.
pub record Stat : Type 0 where
  pub st_mode : ℕ
  pub st_size : ℕ

module _ (v : Vfs) where
  open v use {World, File, vfs_open}

  -- The attributes of the state are never set: they stay what the allocated memory held. A path
  -- that is `NULL` opens as `vfs_open` does, which is left to a fault here.
  unfoldable pub open_node :
      Option ℕ
      → Bool
      → Option (LocateArgs File)
      → World
      → Outcome (ℕ × Option (NodeState File) × World)
  open_node none true (some args) w = done (neg 2, none, w)
  open_node (some held) true (some args) w = elim args.super.partition_path [
    | none ↦ fault
    | some path ↦
        let (file, w') = vfs_open path w in
        let basic : BasicState File = record {
          partition = file;
          node = args.node;
          attributes = held;
          block_size = args.super.basic.block_size;
          inode = args.inode;
        } in
        elim file [
          | none ↦ done (neg 3, none, w')
          | some f ↦ done (0, some (record { super = args.super; basic = basic }), w')
        ]
  ]
  open_node memory res args w = done (neg 1, none, w)

  unfoldable pub init_ext2_file :
      Option ℕ
      → Bool
      → Option (LocateArgs File)
      → World
      → Outcome (ℕ × Option (NodeState File) × World)
  unfolding open_node
  init_ext2_file memory res args w = open_node memory res args w

  unfoldable pub init_ext2_directory :
      Option ℕ
      → Bool
      → Option (LocateArgs File)
      → World
      → Outcome (ℕ × Option (NodeState File) × World)
  unfolding open_node
  init_ext2_directory memory res args w = open_node memory res args w

  module _ (store : InodeData v) where
    open store use {ext2_read_inode_data, ext2_write_inode_data, ext2_get_inode_in_dir}

    -- `file` is the file's offset, and `res` the driver state.
    unfoldable pub read_ext2_file :
        Option (List ℕ)
        → ℕ
        → ℕ
        → Option ℕ
        → Option (NodeState File)
        → World
        → Outcome ((ℕ × Option (List ℕ)) × World)
    read_ext2_file (some buffer) size count (some offset) (some state) w =
        if size == 0 || count == 0
        then done ((0, some buffer), w)
        else ext2_read_inode_data state.basic buffer offset (u64 (size * count)) w >>= λ r.
            done ((r.0.0, some r.0.1), r.1)
    read_ext2_file buffer size count file res w = done ((0, buffer), w)

    unfoldable pub write_ext2_file :
        Option (List ℕ)
        → ℕ
        → ℕ
        → Option ℕ
        → Option (NodeState File)
        → World
        → Outcome ((ℕ × Option (NodeState File)) × World)
    write_ext2_file (some buffer) size count (some offset) (some state) w =
        if size == 0 || count == 0
        then done ((0, some state), w)
        else ext2_write_inode_data state buffer offset (u64 (size * count)) w >>= λ r.
            done ((r.0.0, some r.0.1), r.1)
    write_ext2_file buffer size count file res w = done ((0, res), w)

    -- The mode of the inode that was found.
    unfoldable pub stat_inode : Option (List ℕ) → World → Outcome ((ℕ × Option ℕ) × World)
    stat_inode none w = done ((neg 1, none), w)
    stat_inode (some node) w = load_type_perms node >>= λ mode. done ((0, some mode), w)

    -- `memory` is what the allocation of the inode gives. The code, and the mode where it is set.
    unfoldable pub stat_in :
        Option (List ℕ)
        → SuperState File
        → BasicState File
        → Option (List ℕ)
        → World
        → Outcome ((ℕ × Option ℕ) × World)
    unfolding stat_inode
    stat_in memory super dir none w = done ((0, none), w)
    stat_in memory super dir (some filename) w = do
      (inode, w') ← ext2_get_inode_in_dir dir filename w
      (node, w'') ← ext2_read_inode v memory (some super) inode w'
      stat_inode node w''

    unfoldable pub stat_ext2_super :
        Option (List ℕ)
        → Option (SuperState File)
        → Option (List ℕ)
        → Bool
        → World
        → Outcome ((ℕ × Option ℕ) × World)
    unfolding stat_in
    stat_ext2_super memory (some state) filename true w =
        stat_in memory state state.basic filename w
    stat_ext2_super memory res filename stat w = done ((neg 1, none), w)

    unfoldable pub stat_ext2_directory :
        Option (List ℕ)
        → Option (NodeState File)
        → Option (List ℕ)
        → Bool
        → World
        → Outcome ((ℕ × Option ℕ) × World)
    unfolding stat_in
    stat_ext2_directory memory (some state) filename true w =
        stat_in memory state.super state.basic filename w
    stat_ext2_directory memory res filename stat w = done ((neg 1, none), w)

    unfoldable pub locate_in :
        Option (List ℕ)
        → SuperState File
        → BasicState File
        → List ℕ
        → World
        → Outcome (Option (LocateArgs File) × World)
    locate_in memory super dir filename w = do
      (inode, w') ← ext2_get_inode_in_dir dir filename w
      (node, w'') ← ext2_read_inode v memory (some super) inode w'
      done (some (record { node = node; super = super; inode = u32 inode }), w'')

    -- `args_memory` says whether the arguments' allocation succeeds.
    unfoldable pub locate_ext2_super :
        Bool
        → Option (List ℕ)
        → Option (SuperState File)
        → Option (List ℕ)
        → World
        → Outcome (Option (LocateArgs File) × World)
    unfolding locate_in
    locate_ext2_super true memory (some state) (some filename) w =
        locate_in memory state state.basic filename w
    locate_ext2_super args_memory memory res filename w = done (none, w)

    unfoldable pub locate_ext2_directory :
        Bool
        → Option (List ℕ)
        → Option (NodeState File)
        → Option (List ℕ)
        → World
        → Outcome (Option (LocateArgs File) × World)
    unfolding locate_in
    locate_ext2_directory true memory (some state) (some filename) w =
        locate_in memory state.super state.basic filename w
    locate_ext2_directory args_memory memory res filename w = done (none, w)

-- The operations that check their arguments only. A Bool says that a pointer is not `NULL`.
unfoldable pub uninit_ext2_file : Bool → ℕ
uninit_ext2_file true = 0
uninit_ext2_file false = neg 1

unfoldable pub uninit_ext2_directory : Bool → ℕ
uninit_ext2_directory true = 0
uninit_ext2_directory false = neg 1

unfoldable pub read_ext2_directory : Bool → ℕ → ℕ → Bool → Bool → ℕ
read_ext2_directory buffer size count file res = 0

unfoldable pub write_ext2_directory : Bool → ℕ → ℕ → Bool → Bool → ℕ
write_ext2_directory buffer size count file res = 0

-- `stat_ext2_file`: a node that is `NULL` is a fault.
unfoldable pub stat_ext2_file :
    {File : Type 0} → Option (NodeState File) → Bool → Outcome (ℕ × Option Stat)
stat_ext2_file (some state) true = elim state.basic.node [
  | none ↦ fault
  | some node ↦ do
    mode ← load_type_perms node
    size ← load_size_low node
    done (0, some (record { st_mode = mode; st_size = size }))
]
stat_ext2_file res stat = done (neg 1, none)

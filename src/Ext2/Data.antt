-- ===== src/Ext2/Data.antt =====
-- src/c/sysfs/ext2/util.c: reading and writing the data of an inode, block by block.
use kdrivers.Base.{
  ℕ, zero, suc, ◌+◌, ◌*◌, ◌/◌, min, Option, none, some, ◌||◌, List, ◌==◌, ltb, if◌then◌else◌, u64,
  sub64, Outcome, done, fault, out_of_fuel, ◌>>=◌,
}
use kdrivers.Base.Masks.{Masks}
use kdrivers.Base.Vfs.{Vfs}
use kdrivers.Ext2.{BasicState, NodeState}
use kdrivers.Ext2.Blocks.{Tables, TableMemory, no_tables, Found, resolve, exit_tables}

-- The callback of a block that is created: allocation is not implemented.
unfoldable pub ext2_create_callback : ℕ → ℕ
ext2_create_callback inode = 0

module _ (v : Vfs) (state : BasicState v.File) (size : ℕ) where
  open v use {World, vfs_seek, vfs_read, vfs_write}

  abbrev pub copy_size : ℕ → ℕ → ℕ
  copy_size traversed jank = min (sub64 state.block_size jank) (sub64 size traversed)

  -- The callbacks, on the caller's buffer: the count, the buffer, the world.
  unfoldable pub ext2_read_callback : ℕ → ℕ → ℕ → List ℕ → World → (ℕ × List ℕ) × World
  ext2_read_callback block traversed jank buffer w =
      vfs_read buffer traversed 1 (copy_size traversed jank) state.partition
        (vfs_seek state.partition (u64 (block * state.block_size + jank)) w)

  unfoldable pub ext2_write_callback : ℕ → ℕ → ℕ → List ℕ → World → (ℕ × List ℕ) × World
  ext2_write_callback block traversed jank buffer w =
      let (n, w') =
        vfs_write buffer traversed 1 (copy_size traversed jank) state.partition
          (vfs_seek state.partition (u64 (block * state.block_size + jank)) w) in
      ((n, buffer), w')

module _ (v : Vfs) (create : Option (ℕ → ℕ)) (memory : TableMemory) (state : BasicState v.File)
    (node : List ℕ) (offset size : ℕ)
    (callback : ℕ → ℕ → ℕ → List ℕ → v.World → (ℕ × List ℕ) × v.World) where
  -- The bytes that were moved, and the caller's buffer.
  abbrev pub Moved : Type 0
  Moved = (ℕ × List ℕ) × v.World

  -- From `exit` on.
  unfoldable pub leave : ℕ → Tables → List ℕ → v.World → Outcome Moved
  unfolding exit_tables
  leave traversed t buffer w =
      exit_tables v create memory state node t w >>= λ w'. done ((traversed, buffer), w')

  -- The rest of a round, once the block is looked up; `go` is the next round.
  unfoldable pub with_block :
      (ℕ → Tables → List ℕ → v.World → Outcome Moved)
      → ℕ
      → ℕ
      → List ℕ
      → Found v create memory state node
      → Outcome Moved
  unfolding leave
  with_block go traversed jank buffer (none, t, w) = leave traversed t buffer w
  with_block go traversed jank buffer (some block, t, w) =
      let (r, w') = callback block traversed jank buffer w in go (u64 (traversed + r.0)) t r.1 w'

  -- The loop, on fuel.
  unfoldable pub traverse : ℕ → ℕ → Tables → List ℕ → v.World → Outcome Moved
  unfolding with_block leave resolve
  traverse zero traversed t buffer w = out_of_fuel
  traverse (suc fuel) traversed t buffer w =
      let at = u64 (traversed + offset) in
      let idx = at / state.block_size in
      let jank = sub64 at (u64 (idx * state.block_size)) in
      let round = resolve v create memory state node idx t w >>= λ found.
      with_block (λ traversed' t' buffer' w'. traverse fuel traversed' t' buffer' w') traversed jank
        buffer found in
      if ltb traversed size
      then (if state.block_size == 0 then fault else round)
      else leave traversed t buffer w

-- A node that is `NULL` is a fault. The fuel is one round for each byte, and one more.
unfoldable pub ext2_traverse_blocks :
    (v : Vfs)
    → Option (ℕ → ℕ)
    → TableMemory
    → BasicState v.File
    → Option (List ℕ)
    → ℕ
    → ℕ
    → (ℕ → ℕ → ℕ → List ℕ → v.World → (ℕ × List ℕ) × v.World)
    → List ℕ
    → v.World
    → Outcome ((ℕ × List ℕ) × v.World)
unfolding traverse
ext2_traverse_blocks v create memory state none offset size callback buffer w =
    if size == 0 then done ((0, buffer), w) else fault
ext2_traverse_blocks v create memory state (some node) offset size callback buffer w =
    if size == 0
    then done ((0, buffer), w)
    else traverse v create memory state node offset size callback (size + 1) 0 no_tables buffer w

unfoldable pub ext2_read_inode_data :
    (v : Vfs)
    → TableMemory
    → BasicState v.File
    → List ℕ
    → ℕ
    → ℕ
    → v.World
    → Outcome ((ℕ × List ℕ) × v.World)
unfolding ext2_traverse_blocks ext2_read_callback
ext2_read_inode_data v memory state buffer offset size w =
    if size == 0
    then done ((0, buffer), w)
    else ext2_traverse_blocks v none memory state state.node offset size
        (ext2_read_callback v state size) buffer w

-- The super driver's state that the callback is given is not `NULL`, and the inode not 0.
unfoldable pub ext2_write_inode_data :
    Masks
    → (v : Vfs) → TableMemory
    → NodeState v.File
    → List ℕ
    → ℕ
    → ℕ
    → v.World
    → Outcome ((ℕ × NodeState v.File) × v.World)
unfolding ext2_traverse_blocks ext2_write_callback ext2_create_callback
ext2_write_inode_data masks v memory state buffer offset size w =
    if size == 0 || masks.masked_read state.basic.attributes 1 1 == 0
    then done ((0, state), w)
    else (ext2_traverse_blocks v (some ext2_create_callback) memory state.basic state.basic.node
          offset size (ext2_write_callback v state.basic size) buffer w
        >>= λ r. done ((r.0.0, state), r.1))

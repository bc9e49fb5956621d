-- ===== src/Ext2/Blocks.antt =====
-- src/c/sysfs/ext2/util.c: from the index of a block of an inode to its place on the partition,
-- through up to three levels of tables, which are kept from one round of the traversal to the next
-- and written back when they change and at the end.
use kdrivers.Base.{
  ℕ, ◌+◌, ◌-◌, ◌*◌, ◌/◌, ◌%◌, Option, none, some, not, ◌&&◌, List, ◌==◌, ltb, leb, if◌then◌else◌,
  u64, sub64, Outcome, done, fault, ◌>>=◌,
}
use kdrivers.Base.Alloc.{neg}
use kdrivers.Base.Vfs.{Vfs}
use kdrivers.Ext2.{load32, BasicState}

-- What the allocations of the three tables give.
pub record TableMemory : Type 0 where
  pub for_sibp : Option (List ℕ)
  pub for_dibp : Option (List ℕ)
  pub for_tibp : Option (List ℕ)

-- The local variables of the traversal: the tables in memory, and where the two lower ones that
-- are not the inode's own came from.
pub record Tables : Type 0 where
  pub sibp : Option (List ℕ)
  pub dibp : Option (List ℕ)
  pub tibp : Option (List ℕ)
  pub last_doubly : ℕ
  pub last_triply : ℕ

abbrev pub no_tables : Tables
no_tables = record { sibp = none; dibp = none; tibp = none; last_doubly = 0; last_triply = 0 }

-- `dbp[i]`, `sibp`, `dibp` and `tibp` of `struct ext2_inode`, and entry `i` of a table.
unfoldable pub load_dbp : List ℕ → ℕ → Outcome ℕ
load_dbp node i = load32 node (40 + 4 * i)

unfoldable pub load_sibp : List ℕ → Outcome ℕ
load_sibp node = load32 node 88

unfoldable pub load_dibp : List ℕ → Outcome ℕ
load_dibp node = load32 node 92

unfoldable pub load_tibp : List ℕ → Outcome ℕ
load_tibp node = load32 node 96

unfoldable pub load_entry : Option (List ℕ) → ℕ → Outcome ℕ
load_entry none i = fault
load_entry (some table) i = load32 table (4 * i)

-- `block` is what the pointer points to, `create` the callback where there is one.
unfoldable pub ext2_load_block : ℕ → Option (ℕ → ℕ) → ℕ → ℕ
ext2_load_block block none inode = block
ext2_load_block block (some create) inode = if block == 0 then create inode else block

abbrev or_else : Option (List ℕ) → Option (List ℕ) → Option (List ℕ)
or_else none memory = memory
or_else (some table) memory = some table

module _ (v : Vfs) (create : Option (ℕ → ℕ)) (memory : TableMemory) (state : BasicState v.File)
    (node : List ℕ) where
  open v use {World, vfs_seek, vfs_read, vfs_write}

  abbrev pub ptr_count : ℕ
  ptr_count = state.block_size / 4

  abbrev pub block_place : ℕ → ℕ
  block_place block = u64 (block * state.block_size)

  -- The code, and `*out`.
  unfoldable pub read_table : ℕ → Option (List ℕ) → World → (ℕ × Option (List ℕ)) × World
  read_table block none w = ((neg 2, none), w)
  read_table block (some table) w =
      let w' = vfs_seek state.partition (block_place block) w in
      let ((n, table'), w'') = vfs_read table 0 1 state.block_size state.partition w' in
      if block == 0 then ((neg 3, some table), w) else ((0, some table'), w'')

  unfoldable pub ext2_load_read_block :
      ℕ → Option (List ℕ) → Option (List ℕ) → World → (ℕ × Option (List ℕ)) × World
  unfolding read_table ext2_load_block
  ext2_load_read_block block out held w =
      read_table (ext2_load_block block create state.inode) (or_else out held) w

  -- `vfs_write` of a table at a block; a table that is `NULL` is a fault.
  unfoldable pub write_table : Option (List ℕ) → ℕ → World → Outcome World
  write_table none block w = fault
  write_table (some table) block w =
      done
        (vfs_write table 0 1 state.block_size state.partition
          (vfs_seek state.partition (block_place block) w)).1

  -- What the code that finds a block gives: `none` for `goto exit`, and the new variables.
  abbrev pub Found : Type 0
  Found = Option ℕ × Tables × World

  -- A block number, 0 for none.
  abbrev pub found_block : ℕ → Tables → World → Outcome Found
  found_block block t w = done ((if block == 0 then none else some block), t, w)

  -- From `skip_dibp` on.
  unfoldable pub skip_dibp : ℕ → Tables → World → Outcome Found
  unfolding ext2_load_block
  skip_dibp singly_idx t w = load_entry t.sibp singly_idx >>= λ entry.
      found_block (ext2_load_block entry create state.inode) t w

  -- The table of `block` is read into `sibp`; what that returns is not looked at.
  unfoldable pub next_sibp : ℕ → ℕ → ℕ → Tables → World → Outcome Found
  unfolding ext2_load_read_block skip_dibp
  next_sibp entry block singly_idx t w =
      let (r, w') = ext2_load_read_block entry t.sibp memory.for_sibp w in
      skip_dibp singly_idx (record t { sibp = r.1; last_doubly = block }) w'

  unfoldable pub switch_sibp : ℕ → ℕ → ℕ → Tables → World → Outcome Found
  unfolding next_sibp write_table skip_dibp
  switch_sibp entry block singly_idx t w =
      if block == 0
      then done (none, t, w)
      else if not (t.last_doubly == 0) && not (block == t.last_doubly)
      then (write_table t.sibp t.last_doubly w >>= λ w'. next_sibp entry block singly_idx t w')
      else if block == t.last_doubly
      then skip_dibp singly_idx t w
      else next_sibp entry block singly_idx t w

  -- From `do_dibp` on.
  unfoldable pub do_dibp : ℕ → ℕ → Tables → World → Outcome Found
  unfolding switch_sibp ext2_load_block
  do_dibp doubly_idx singly_idx t w =
      load_entry t.dibp (sub64 doubly_idx 1 % ptr_count) >>= λ entry.
      switch_sibp entry (ext2_load_block entry create state.inode) singly_idx t w

  -- The table of `block` is read into `dibp`; what that returns is not looked at.
  unfoldable pub next_dibp : ℕ → ℕ → ℕ → ℕ → Tables → World → Outcome Found
  unfolding ext2_load_read_block do_dibp
  next_dibp entry block doubly_idx singly_idx t w =
      let (r, w') = ext2_load_read_block entry t.dibp memory.for_dibp w in
      do_dibp doubly_idx singly_idx (record t { dibp = r.1; last_triply = block }) w'

  unfoldable pub switch_dibp : ℕ → ℕ → ℕ → ℕ → Tables → World → Outcome Found
  unfolding next_dibp write_table do_dibp
  switch_dibp entry block doubly_idx singly_idx t w =
      if block == 0
      then done (none, t, w)
      else if not (t.last_triply == 0) && not (block == t.last_triply)
      then (write_table t.dibp t.last_triply w >>= λ w'.
          next_dibp entry block doubly_idx singly_idx t w')
      else if block == t.last_triply
      then do_dibp doubly_idx singly_idx t w
      else next_dibp entry block doubly_idx singly_idx t w

  unfoldable pub do_tibp : ℕ → ℕ → ℕ → Tables → World → Outcome Found
  unfolding switch_dibp ext2_load_block
  do_tibp triply_idx doubly_idx singly_idx t w =
      load_entry t.tibp (sub64 triply_idx 1 % ptr_count) >>= λ entry.
      switch_dibp entry (ext2_load_block entry create state.inode) doubly_idx singly_idx t w

  -- `X == NULL && ext2_load_read_block(state, &state->node->X, &X, ...) != 0`: `block` is the
  -- inode's field. The first part says whether to go on.
  unfoldable pub own_table :
      Option (List ℕ)
      → Option (List ℕ)
      → Outcome ℕ
      → World
      → Outcome ((ℕ × Option (List ℕ)) × World)
  unfolding ext2_load_read_block
  own_table (some table) held field w = done ((0, some table), w)
  own_table none held field w = field >>= λ block. done (ext2_load_read_block block none held w)

  -- The three branches for a block that is not one of the inode's own twelve.
  unfoldable pub resolve_indirect : ℕ → ℕ → ℕ → Tables → World → Outcome Found
  unfolding own_table skip_dibp do_dibp do_tibp load_sibp load_dibp load_tibp
  resolve_indirect triply_idx doubly_idx singly_idx t w =
      if doubly_idx == 0 && triply_idx == 0
      then (own_table t.sibp memory.for_sibp (load_sibp node) w >>= λ r.
          let t' = record t { sibp = r.0.1 } in
          if r.0.0 == 0 then skip_dibp singly_idx t' r.1 else done (none, t', r.1))
      else if leb (ptr_count + 1) doubly_idx
      then (own_table t.tibp memory.for_tibp (load_tibp node) w >>= λ r.
          let t' = record t { tibp = r.0.1 } in
          if r.0.0 == 0
          then do_tibp triply_idx doubly_idx singly_idx t' r.1
          else done (none, t', r.1))
      else (own_table t.dibp memory.for_dibp (load_dibp node) w >>= λ r.
          let t' = record t { dibp = r.0.1 } in
          if r.0.0 == 0 then do_dibp doubly_idx singly_idx t' r.1 else done (none, t', r.1))

  -- The block of index `idx` of the inode.
  unfoldable pub resolve : ℕ → Tables → World → Outcome Found
  unfolding resolve_indirect load_dbp ext2_load_block
  resolve idx t w =
      let singly = idx - 12 in
      let doubly = singly / state.block_size in
      let triply = doubly / state.block_size in
      if ltb idx 12
      then (load_dbp node idx >>= λ entry.
          found_block (ext2_load_block entry create state.inode) t w)
      else if ptr_count == 0
      then fault
      else resolve_indirect triply doubly (singly % ptr_count) t w

  -- From `exit` on: each table that is in memory is written back.
  unfoldable pub write_back : Option (List ℕ) → ℕ → Outcome ℕ → World → Outcome World
  unfolding write_table
  write_back none last field w = done w
  write_back (some table) last field w =
      if last == 0
      then (field >>= λ block. write_table (some table) block w)
      else write_table (some table) last w

  unfoldable pub exit_tables : Tables → World → Outcome World
  unfolding write_back load_sibp load_dibp load_tibp
  exit_tables t w = do
    w1 ← write_back t.tibp 0 (load_tibp node) w
    w2 ← write_back t.dibp t.last_triply (load_dibp node) w1
    write_back t.sibp t.last_doubly (load_sibp node) w2

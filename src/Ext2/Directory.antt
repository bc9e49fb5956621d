-- ===== src/Ext2/Directory.antt =====
-- src/c/sysfs/ext2/util.c: listing the entries of a directory, and searching them for a name.
use kdrivers.Base.{
  ℕ, zero, suc, ◌+◌, Option, none, some, Bool, false, List, ◌==◌, ltb, if◌then◌else◌, drop, u64,
  Outcome, done, out_of_fuel, ◌>>=◌,
}
use kdrivers.Base.Masks.{Masks}
use kdrivers.Base.Memory.{load8, load16, strncmp_eq}
use kdrivers.Base.Vfs.{Vfs}
use kdrivers.Ext2.{load32, BasicState}
use kdrivers.Ext2.Blocks.{TableMemory}
use kdrivers.Ext2.Data.{ext2_read_inode_data, ext2_write_inode_data}
use kdrivers.Ext2.Node.{InodeData}

-- The fields of `struct ext2_dir_ent` at byte `i` of a block; its name begins at byte `i + 8`.
unfoldable pub load_ent_inode : List ℕ → ℕ → Outcome ℕ
load_ent_inode block i = load32 block i

unfoldable pub load_total_size : List ℕ → ℕ → Outcome ℕ
load_total_size block i = load16 block (i + 4)

unfoldable pub load_name_len : List ℕ → ℕ → Outcome ℕ
load_name_len block i = load8 block (i + 6)

-- Whether the callback returns 0, and its argument afterwards: the inode number that was found.
unfoldable pub callback_get_inode_in_dir : List ℕ → List ℕ → ℕ → ℕ → Outcome (Bool × ℕ)
unfolding load_ent_inode load_name_len
callback_get_inode_in_dir target block i found = do
  name_len ← load_name_len block i
  same ← strncmp_eq name_len (drop (i + 8) block) target
  inode ← (if same then load_ent_inode block i else done found)
  done (same, inode)

module _ {A : Type 0} (callback : List ℕ → ℕ → A → Outcome (Bool × A)) where
  -- The loop over the entries of a block, on fuel: whether the callback has ended it.
  unfoldable pub list_block : ℕ → List ℕ → ℕ → ℕ → A → Outcome (Bool × A)
  unfolding load_total_size
  list_block zero block block_size i arg = out_of_fuel
  list_block (suc fuel) block block_size i arg =
      let entry = load_total_size block i >>= λ total_size.
      let next = callback block i arg >>= λ r.
      let rest = list_block fuel block block_size (u64 (i + total_size)) r.1 in
      if r.0 then done r else rest in
      if total_size == 0 then done (false, arg) else next in
      if ltb i block_size then entry else done (false, arg)

  module _ (v : Vfs) (memory : TableMemory) (dir : BasicState v.File) where
    -- The loop over the blocks, on fuel. An entry takes a byte at least, which bounds the rounds
    -- in a block.
    unfoldable pub list_blocks : ℕ → List ℕ → ℕ → A → v.World → Outcome (A × v.World)
    unfolding ext2_read_inode_data list_block
    list_blocks zero block offset arg w = out_of_fuel
    list_blocks (suc fuel) block offset arg w =
        ext2_read_inode_data v memory dir block offset dir.block_size w >>= λ moved.
        let (r, w') = moved in
        let next = list_block (dir.block_size + 1) r.1 dir.block_size 0 arg >>= λ s.
        let rest = list_blocks fuel r.1 (u64 (offset + r.0)) s.1 w' in
        if s.0 then done (s.1, w') else rest in
        if r.0 == 0 then done (arg, w') else next

    -- The second argument is what the allocation of the block gives: a read into `NULL` gives 0.
    unfoldable pub ext2_list_directory : ℕ → Option (List ℕ) → A → v.World → Outcome (A × v.World)
    unfolding list_blocks
    ext2_list_directory fuel none arg w = done (arg, w)
    ext2_list_directory fuel (some block) arg w = list_blocks fuel block 0 arg w

-- The initialiser leaves 0 for the number.
unfoldable pub ext2_get_inode_in_dir :
    (v : Vfs)
    → TableMemory
    → ℕ
    → Option (List ℕ)
    → BasicState v.File
    → List ℕ
    → v.World
    → Outcome (ℕ × v.World)
unfolding ext2_list_directory callback_get_inode_in_dir
ext2_get_inode_in_dir v memory fuel block dir filename w =
    ext2_list_directory (callback_get_inode_in_dir filename) v memory dir fuel block 0 w

-- The interface of util.c that file.c, directory.c and super.c use, filled by it.
abbrev pub util : Masks → (v : Vfs) → TableMemory → ℕ → Option (List ℕ) → InodeData v
util masks v memory fuel block = record {
  ext2_read_inode_data = ext2_read_inode_data v memory;
  ext2_write_inode_data = ext2_write_inode_data masks v memory;
  ext2_get_inode_in_dir = ext2_get_inode_in_dir v memory fuel block;
}

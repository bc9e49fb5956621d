-- ===== src/Ext2/Allocate.antt =====
-- src/c/sysfs/ext2/super.c: choosing free blocks for an inode, and the control function. The
-- bitmap is changed in memory only.
use kdrivers.Base.{
  ℕ, zero, suc, ◌+◌, ◌-◌, ◌*◌, ◌/◌, ◌%◌, ◌^◌, min, Option, none, some, Bool, ◌||◌, List, [], bit_or,
  get_elem?, set, length, ◌==◌, ltb, leb, if◌then◌else◌, u32, u64, sub32, sign_extend, lowest_bit,
  ◌<<◌, Outcome, done, fault, ◌>>=◌,
}
use kdrivers.Base.Masks.{Masks}
use kdrivers.Base.Memory.{load64}
use kdrivers.Base.Vfs.{Vfs}
use kdrivers.Ext2.{GroupDesc, SuperState}
use kdrivers.Ext2.Inode.{block_group}

-- The arrays that the two allocations give: the words of the result, and the bytes of the bitmap.
pub record AllocateMemory : Type 0 where
  pub for_ret : Option (List ℕ)
  pub for_bmp : Option (List ℕ)

-- The first group with `count` unallocated blocks, of the `left` ones from `group + i` on, in the
-- circle of the `groups`.
unfoldable pub find_group : List GroupDesc → ℕ → ℕ → ℕ → ℕ → ℕ → Outcome (Option ℕ)
find_group table groups group count zero i = done none
find_group table groups group count (suc left) i =
    let rest = find_group table groups group count left (i + 1) in
    let use_group = u64 (group + i) % groups in
    elim (get_elem? table use_group) [
      | none ↦ fault
      | some desc ↦ if leb count desc.unallocated_blocks then done (some use_group) else rest
    ]

-- `ret[idx] = value`.
unfoldable pub store_ret : List ℕ → ℕ → ℕ → Outcome (List ℕ)
store_ret ret idx value = if ltb idx (length ret) then done (set ret idx value) else fault

-- The variables of the loop over the bitmap: the blocks that are still wanted, the next index of
-- the result, and the result.
pub record Picked : Type 0 where
  pub count : ℕ
  pub next : ℕ
  pub ret : List ℕ

module _ (masks : Masks) where
  -- The loop over the bits of a word, of `left` rounds. `__builtin_ffs` looks at the lower half of
  -- the word, and a half without a clear bit gives a shift by -1.
  unfoldable pub pick_bits : ℕ → ℕ → ℕ → Picked → Outcome Picked
  unfolding store_ret
  pick_bits zero start word p = done p
  pick_bits (suc left) start word p =
      let go : Outcome Picked = elim (lowest_bit 32 0 (u32 (2 ^ 64 - 1 - word))) [
        | none ↦ fault
        | some bit ↦ store_ret p.ret p.next (bit_or (1 << 32) (u64 (start + bit))) >>= λ ret.
            pick_bits left start (masks.masked_write word 1 bit 1)
              (record { count = p.count - 1; next = p.next + 1; ret = ret })
      ] in
      if p.count == 0 then done p else go

  -- A word without a block in use. A shift by 64, the width of the word, is a fault.
  unfoldable pub pick_run : ℕ → Picked → Outcome Picked
  unfolding store_ret
  pick_run start p =
      let run = min p.count 64 in
      let next = store_ret p.ret p.next (bit_or (sub32 run 1 << 32) start) >>= λ ret.
      done (record p { next = p.next + 1; ret = ret }) in
      if run == 64 then fault else next

  -- The loop over the words of the bitmap, of which `left` are left.
  unfoldable pub pick_words : ℕ → ℕ → List ℕ → ℕ → Picked → Outcome Picked
  unfolding pick_bits pick_run
  pick_words zero offset bmp base p = done p
  pick_words (suc left) offset bmp base p =
      let start = u64 (base + u64 (offset << 3)) in
      load64 bmp (8 * offset) >>= λ word.
      (if word == 0 then pick_run start p else pick_bits 64 start word p) >>= λ p'.
      pick_words left (offset + 1) bmp base p'

  -- ALIGN_UP (lib/util.h, outside the repository) is a parameter.
  module _ (v : Vfs) (align_up : ℕ → ℕ → ℕ) (state : SuperState v.File) where
    open v use {World, vfs_seek, vfs_read}

    abbrev pub base_block : GroupDesc → ℕ
    base_block desc =
        align_up
          (u64 (desc.inode_table_start + state.basic.block_size * 8 * state.super_block.inode_size))
          state.basic.block_size
        / state.basic.block_size

    -- From the chosen group's bitmap on.
    unfoldable pub pick_in :
        ℕ → List ℕ → List ℕ → Option GroupDesc → World → Outcome (Option (List ℕ) × World)
    unfolding pick_words
    pick_in count ret bmp none w = fault
    pick_in count ret bmp (some desc) w =
        let size = state.basic.block_size in
        let at = u64 (desc.usage_bmp_block * size) in
        let ((n, bmp'), w') =
          vfs_read bmp 0 1 size state.basic.partition (vfs_seek state.basic.partition at w) in
        let picked =
          pick_words (size / 8) 0 bmp' (base_block desc)
            (record { count = count; next = 0; ret = ret }) in
        if size == 0 then fault else (picked >>= λ p. done (some p.ret, w'))

    -- The group is kept in an `int`, where -1 stands for none.
    unfoldable pub pick_from :
        List GroupDesc → AllocateMemory → ℕ → Option ℕ → World → Outcome (Option (List ℕ) × World)
    unfolding pick_in
    pick_from table memory count none w = done (none, w)
    pick_from table memory count (some group) w =
        let use_group = sign_extend (u32 group) in
        let picked : Outcome (Option (List ℕ) × World) = elim memory.for_ret [
          | none ↦ done (none, w)
          | some ret ↦ elim memory.for_bmp [
            | none ↦ done (none, w)
            | some bmp ↦ pick_in count ret bmp (get_elem? table use_group) w
          ]
        ] in
        if u32 group == 2 ^ 32 - 1 then done (none, w) else picked

    -- A table that is `NULL` is a fault where there is a group to look at.
    unfoldable pub table_of : Outcome (List GroupDesc)
    table_of = elim state.descriptor_table [
      | none ↦ if state.descriptor_count == 0 then done [] else fault
      | some table ↦ done table
    ]

    unfoldable pub ext2_allocate_blocks :
        AllocateMemory → ℕ → ℕ → World → Outcome (Option (List ℕ) × World)
    unfolding find_group pick_from block_group table_of
    ext2_allocate_blocks memory inode count w =
        let chosen = table_of >>= λ table.
        find_group table state.descriptor_count (block_group state.super_block inode) count
          state.descriptor_count 0
        >>= λ group. pick_from table memory count group w in
        if inode == 0 || count == 0
        then done (none, w)
        else if state.super_block.inodes_per_group == 0
        then fault
        else chosen

-- The commands are commented out: every response is zeros, of type, size and data.
unfoldable pub control_ext2_super : Bool → Bool → ℕ × ℕ × Option ℕ
control_ext2_super res inst = (0, 0, none)

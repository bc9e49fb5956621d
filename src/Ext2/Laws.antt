-- ===== src/Ext2/Laws.antt =====
-- src/c/sysfs/ext2/super.c: where inodes are read from, and the size of a block.
use kdrivers.Base.{
  ℕ, zero, suc, ◌+◌, ◌-◌, ◌*◌, ◌/◌, ◌%◌, ◌^◌, ◌≤◌, ◌<◌, ◌≡◌, ◌≢◌, refl, ap, sym, ◌∙◌, some, List,
  ==_false, length, get_elem?, get_elem?-eq-none, lt→leb_false, u64, done, fault, arith,
}
use kdrivers.Base.Slices.{slice, blit, length-slice, blit_whole}
use kdrivers.Base.Vfs.{Vfs, IsDevice}
use kdrivers.Ext2.{GroupDesc, SuperBlock, SuperState}
use kdrivers.Ext2.Inode.{
  block_group, inode_offset, inode_table_address, read_from_table, read_from, read_with,
  ext2_read_inode,
}
use kdrivers.Ext2.Super.{shifted, block_size_of}
use mathlib.Core.Logic.{◌↔◌}
use native.Mathlib.Nat.{
  pow-suc, one-le-pow, pow-le-pow_right, le-div_iff_mul-le, mod-lt, div-add-mod, mul-le-mul_left,
  mul-le-mul,
}

shifted-eq-pow : (n size : ℕ) → size * 2 ^ n < 2 ^ 64 → shifted n size ≡ size * 2 ^ n
unfolding shifted
shifted-eq-pow zero size h = omega arith
shifted-eq-pow (suc n) size h =
    let next : u64 (size * 2) ≡ size * 2 =
      omega (arith, two_more, mul-le-mul_left (size * 2) (one-le-pow n 2 (omega arith))) in
    rw next (shifted-eq-pow n (size * 2) (omega (arith, two_more)) ∙ sym two_more)
  where
    two_more : size * 2 ^ suc n ≡ size * 2 * 2 ^ n
    two_more = ap (λ (t : ℕ). size * t) (pow-suc 2 n) ∙ grind arith

product_small : (x y : ℕ) → x < 2 ^ 16 → y < 2 ^ 32 → x * y < 2 ^ 64
product_small x y hx hy = omega (
  arith,
  mul-le-mul (let p : x ≤ 2 ^ 16 - 1 = omega arith in p) (let p : y ≤ 2 ^ 32 = omega arith in p),
)

le-div_mul : (x y k : ℕ) → k ≢ 0 → x * k ≤ y → x ≤ y / k
le-div_mul x y k hk h =
    let positive : 0 < k = omega arith in
    let both : (x ≤ y / k) ↔ (x * k ≤ y) = le-div_iff_mul-le positive in both.1 h

-- Up to the largest power of two that 64 bits hold, the block size is 1024 times the power of two
-- that the super block asks for.
pub block_size_of-eq-pow :
    (super : SuperBlock)
    → super.log2_block_size ≤ 53
    → block_size_of super ≡ 1024 * 2 ^ super.log2_block_size
unfolding block_size_of
block_size_of-eq-pow super h =
    let bound : 2 ^ super.log2_block_size ≤ 2 ^ 53 = pow-le-pow_right (omega arith) h in
    rw (lt→leb_false (2 ^ 31) super.log2_block_size (omega arith))
      (shifted-eq-pow super.log2_block_size 1024 (omega (arith, bound)))

-- Two inodes of one group stand apart in its table: the record of the one with the lower number
-- ends before that of the other.
inode_offset_apart :
    (super : SuperBlock) (n m : ℕ)
    → super.inode_size < 2 ^ 16
    → super.inodes_per_group < 2 ^ 32
    → super.inodes_per_group ≢ 0
    → n ≢ 0
    → n < m
    → block_group super n ≡ block_group super m
    → inode_offset super n + super.inode_size ≤ inode_offset super m
unfolding block_group inode_offset
inode_offset_apart super n m hs hg hz hn lt same =
    let g = super.inodes_per_group in
    let size = super.inode_size in
    let a = (n - 1) % g in
    let b = (m - 1) % g in
    let above : a + 1 ≤ b = grind (arith, div-add-mod (n - 1) g, div-add-mod (m - 1) g, same) in
    let room : size * a + size ≤ size * b = grind (arith, mul-le-mul_left size above) in
    let below : b < g = mod-lt (m - 1) (let p : 0 < g = omega arith in p) in
    let small : size * b < 2 ^ 64 = product_small size b hs (omega arith) in omega arith

module _ (v : Vfs) (state : SuperState v.File) (n : ℕ) (w : v.World) where
  -- Every inode number above those of the table's groups is looked up outside of the table.
  pub ext2_read_inode_outside :
      (buffer : List ℕ) (table : List GroupDesc)
      → state.descriptor_table ≡ some table
      → state.super_block.inodes_per_group ≢ 0
      → length table * state.super_block.inodes_per_group < n
      → ext2_read_inode v (some buffer) (some state) n w ≡ fault
  unfolding ext2_read_inode read_with read_from read_from_table block_group
  ext2_read_inode_outside buffer table has hz out =
      let beyond : length table ≤ (n - 1) / state.super_block.inodes_per_group =
        le-div_mul (length table) (n - 1) state.super_block.inodes_per_group hz (omega arith) in
      rw
        (
          has,
          ==_false n 0 (omega arith),
          ==_false state.super_block.inodes_per_group 0 hz,
          get_elem?-eq-none table ((n - 1) / state.super_block.inodes_per_group) beyond,
        )
        refl

  -- An inode of a group of the table is read from its place in the group's inode table, in its
  -- whole size, and nothing on the partition changes.
  pub ext2_read_inode-slice :
      (file : v.File) (d : IsDevice v file) (buffer : List ℕ) (table : List GroupDesc)
      (desc : GroupDesc)
      → state.basic.partition ≡ some file
      → state.descriptor_table ≡ some table
      → n ≢ 0
      → state.super_block.inodes_per_group ≢ 0
      → get_elem? table ((n - 1) / state.super_block.inodes_per_group) ≡ some desc
      → length buffer ≡ state.super_block.inode_size
      → let address =
          desc.inode_table_start * state.basic.block_size
          + state.super_block.inode_size * ((n - 1) % state.super_block.inodes_per_group) in
        address + state.super_block.inode_size ≤ length (d.bytes w)
        → length (d.bytes w) < 2 ^ 64
        → (w' : v.World) × (ext2_read_inode v (some buffer) (some state) n w
            ≡ done (some (slice (d.bytes w) address state.super_block.inode_size), w'))
          × (d.bytes w' ≡ d.bytes w)
  unfolding ext2_read_inode read_with read_from read_from_table block_group inode_offset
      inode_table_address
  ext2_read_inode-slice file d buffer table desc open_file has hn hz group fits on_disk small =
      let g = state.super_block.inodes_per_group in
      let size = state.super_block.inode_size in
      let table_at = desc.inode_table_start * state.basic.block_size in
      let offset = size * ((n - 1) % g) in
      let at : u64 (u64 table_at + u64 offset) ≡ table_at + offset = omega arith in
      let w' = v.vfs_seek (some file) (table_at + offset) w in
      let fits' : 0 + 1 * size ≤ length buffer = omega arith in
      let room : d.place w' + 1 * size ≤ length (d.bytes w') =
        rw (d.seek_place, d.seek_bytes) (omega arith) in
      let read = d.read_result buffer 0 1 size w' fits' room in
      let bytes : slice (d.bytes w') (d.place w') (1 * size)
          ≡ slice (d.bytes w) (table_at + offset) size =
        rw (d.seek_place, d.seek_bytes)
          (ap (λ (k : ℕ). slice (d.bytes w) (table_at + offset) k) (omega arith)) in
      let full : blit buffer 0 (slice (d.bytes w) (table_at + offset) size)
          ≡ slice (d.bytes w) (table_at + offset) size =
        blit_whole buffer (slice (d.bytes w) (table_at + offset) size)
          (length-slice (d.bytes w) (table_at + offset) size (omega arith) ∙ sym fits) in
      (
        (v.vfs_read buffer 0 1 size (some file) w').1,
        rw (open_file, has, ==_false n 0 hn, ==_false g 0 hz, group, at)
            (ap (λ (l : List ℕ). done (some l, (v.vfs_read buffer 0 1 size (some file) w').1))
              (ap (λ (r : ℕ × List ℕ). r.1) read
                ∙ ap (λ (l : List ℕ). blit buffer 0 l) bytes
                ∙ full)),
        d.read_bytes buffer 0 1 size w' ∙ d.seek_bytes (table_at + offset) w,
      )

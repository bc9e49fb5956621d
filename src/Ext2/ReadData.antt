-- ===== src/Ext2/ReadData.antt =====
-- src/c/sysfs/ext2/util.c: reading the data of an inode gives the bytes of its blocks.
use kdrivers.Base.{
  ℕ, zero, suc, ◌+◌, ◌-◌, ◌*◌, ◌/◌, ◌%◌, ◌^◌, ◌≤◌, ◌<◌, ◌≡◌, ◌≢◌, ◌↔◌, refl, ap, ◌∙◌, min, none,
  some, List, ==_false, lt→ltb, le→ltb_false, length, get_or, u64, sub64, done, arith, inl,
}
use kdrivers.Base.Filled.{IsFilled, IsFilled-refl, IsFilled-trans, IsFilled-blit}
use kdrivers.Base.Slices.{slice, blit, length-slice, length-blit}
use kdrivers.Base.Vfs.{Vfs, IsDevice}
use kdrivers.Ext2.{BasicState}
use kdrivers.Ext2.Blocks.{TableMemory, Tables, no_tables}
use kdrivers.Ext2.Data.{
  ext2_read_callback, leave, with_block, traverse, ext2_traverse_blocks, ext2_read_inode_data,
}
use kdrivers.Ext2.Layout.{block_of, IsLayout, IsCached}
use kdrivers.Ext2.Resolve.{resolve-block, exit_tables-same}
use native.Mathlib.Decide.{dec_lt}
use native.Mathlib.Nat.{
  div-eq_of_lt, mod-eq_of_lt, mod-lt, div-add-mod, mul-add-div_right, add-mul-mod_self_right,
  div-lt_iff_lt-mul, mul_comm,
}

-- A place in a block, and those behind it in the same block.
module _ (size x k : ℕ) (positive : 0 < size) (inside : x % size + k < size) where
  split_at : x + k ≡ x / size * size + (x % size + k)
  split_at = omega (arith, div-add-mod x size, mul_comm size (x / size))

  pub same_block : (x + k) / size ≡ x / size
  same_block =
      ap (λ (t : ℕ). t / size) split_at
      ∙ mul-add-div_right positive (x / size) (x % size + k)
      ∙ omega (arith, div-eq_of_lt inside)

  pub same_block_at : (x + k) % size ≡ x % size + k
  same_block_at =
      ap (λ (t : ℕ). t % size) (split_at ∙ omega arith)
      ∙ add-mul-mod_self_right (x % size + k) (x / size) size
      ∙ mod-eq_of_lt inside

-- Where byte `x` of the data of an inode is on a partition of `bytes`, and the byte.
abbrev pub place_of : List ℕ → List ℕ → ℕ → ℕ → ℕ
place_of bytes node block_size x =
    block_of bytes node block_size (x / block_size) * block_size + x % block_size

abbrev pub data_byte : List ℕ → List ℕ → ℕ → ℕ → ℕ
data_byte bytes node block_size x = get_or bytes (place_of bytes node block_size x) 0

module _ (v : Vfs) (file : v.File) (d : IsDevice v file) (memory : TableMemory)
    (state : BasicState v.File) (node bytes : List ℕ) (limit : ℕ)
    (layout : IsLayout v file d none memory state node bytes limit) where
  open layout use {open_partition, words, partition_small, block_inside}

  -- One round moves what is left of the block, or of what is wanted.
  read_callback-eq :
      (size block traversed jank n : ℕ) (buffer : List ℕ) (w : v.World)
      → d.bytes w ≡ bytes
      → block * state.block_size + state.block_size ≤ length bytes
      → jank < state.block_size
      → traversed < size
      → size ≤ length buffer
      → size < 2 ^ 64
      → n ≡ min (state.block_size - jank) (size - traversed)
      → let r = ext2_read_callback v state size block traversed jank buffer w in
        (r.0 ≡ (n, blit buffer traversed (slice bytes (block * state.block_size + jank) n)))
        × (d.bytes r.1 ≡ bytes)
  unfolding ext2_read_callback
  read_callback-eq size block traversed jank n buffer w at inside hj ht fits small e =
      let place = block * state.block_size + jank in
      let w1 = v.vfs_seek (some file) place w in
      let count : min (sub64 state.block_size jank) (sub64 size traversed) ≡ n = omega arith in
      let no_wrap : u64 place ≡ place = omega arith in
      let once : 1 * n ≡ n = omega arith in
      let read =
        d.read_result buffer traversed 1 n w1 (omega arith)
          (rw (d.seek_place, d.seek_bytes, at) (omega arith)) in
      let same : slice (d.bytes w1) (d.place w1) (1 * n) ≡ slice bytes place n =
        rw (d.seek_place, d.seek_bytes, at) (ap (λ (k : ℕ). slice bytes place k) once) in
      rw (ext2_read_callback, count, open_partition, no_wrap)
        (
          read
              ∙ ap (λ (l : List ℕ). (1 * n, blit buffer traversed l)) same
              ∙ ap (λ (k : ℕ). (k, blit buffer traversed (slice bytes place n))) once,
          d.read_bytes buffer traversed 1 n w1 ∙ d.seek_bytes place w ∙ at,
        )

  module _ (offset size : ℕ) (in_file : offset + size ≤ limit * state.block_size)
      (no_wrap : offset + size < 2 ^ 64) where
    abbrev wanted : ℕ → ℕ
    wanted i = data_byte bytes node state.block_size (offset + i)

    abbrev pub Reads : ℕ → ℕ → Tables → List ℕ → v.World → Type 0
    Reads fuel traversed t buffer w =
        (buffer' : List ℕ) × (w' : v.World) × (traverse v none memory state node offset size
            (ext2_read_callback v state size) fuel traversed t buffer w
          ≡ done ((size, buffer'), w'))
        × IsFilled wanted traversed size buffer buffer'
        × (d.bytes w' ≡ bytes)

    wanted_at :
        (traversed k : ℕ)
        → (traversed + offset) % state.block_size + k < state.block_size
        → get_or bytes (place_of bytes node state.block_size (traversed + offset) + k) 0
          ≡ wanted (traversed + k)
    wanted_at traversed k h =
        let bs = state.block_size in
        let x = traversed + offset in
        let positive : 0 < bs = omega arith in
        let e : offset + (traversed + k) ≡ x + k = omega arith in
        rw (e, same_block bs x k positive h, same_block_at bs x k positive h)
          (ap (λ (p : ℕ). get_or bytes p 0) (omega arith))

    below : (x : ℕ) → x < offset + size → x / state.block_size < limit
    below x h =
        let positive : 0 < state.block_size = omega arith in
        let both : (x / state.block_size < limit) ↔ (x < limit * state.block_size) =
          div-lt_iff_lt-mul positive in
        both.1 (omega arith)

    abbrev Cached : Tables → Type 0
    Cached t = IsCached v file d none memory state node bytes t

    reads :
        (fuel traversed : ℕ) (t : Tables) (buffer : List ℕ) (w : v.World)
        → traversed ≤ size
        → size < traversed + fuel
        → Cached t
        → d.bytes w ≡ bytes
        → size ≤ length buffer
        → Reads fuel traversed t buffer w
    unfolding traverse with_block leave
    reads zero traversed t buffer w h enough c at fits = absurd (omega arith)
    reads (suc fuel) traversed t buffer w h enough c at fits = elim (dec_lt traversed size) [
      | yes more ↦
          let x = traversed + offset in
          let bs = state.block_size in
          let idx = x / bs in
          let jank = x % bs in
          let positive : 0 < bs = omega arith in
          let in_block : jank < bs = mod-lt x positive in
          let whole = div-add-mod x bs in
          let idx_in : idx < limit = below x (omega arith) in
          let found =
            resolve-block v file d none memory state node bytes limit layout idx t w idx_in c at in
          let block = block_of bytes node bs idx in
          let n = min (bs - jank) (size - traversed) in
          let inside = block_inside idx idx_in in
          let moved =
            read_callback-eq size block traversed jank n buffer found.1 found.4 inside in_block more
              fits (omega arith) refl in
          let copied_length : length (slice bytes (block * bs + jank) n) ≡ n =
            length-slice bytes (block * bs + jank) n (omega arith) in
          let copied = blit buffer traversed (slice bytes (block * bs + jank) n) in
          let rest =
            reads fuel (traversed + n) found.0 copied
              (ext2_read_callback v state size block traversed jank buffer found.1).1 (omega arith)
              (omega arith) found.3 moved.1
              (rw
                (length-blit buffer traversed (slice bytes (block * bs + jank) n)
                  (omega (arith, copied_length)))
                fits) in
          let at_x : u64 x ≡ x = omega arith in
          let jank_x : sub64 x (u64 (idx * bs)) ≡ jank = omega (arith, mul_comm bs idx) in
          let next : u64 (traversed + n) ≡ traversed + n = omega arith in
          let step : ext2_read_callback v state size block traversed jank buffer found.1 ≡ (
            (n, copied),
            (ext2_read_callback v state size block traversed jank buffer found.1).1,
          ) =
            ap
              (λ (r : ℕ × List ℕ).
                (r, (ext2_read_callback v state size block traversed jank buffer found.1).1))
              moved.0 in
          (
            rest.0,
            rest.1,
            rw
                (
                  lt→ltb traversed size more,
                  ==_false bs 0 (omega arith),
                  at_x,
                  jank_x,
                  found.2,
                  moved.0,
                  next,
                )
                rest.2,
            IsFilled-trans {y = copied} {z = rest.0} (omega arith) (omega arith)
                (IsFilled-blit wanted buffer traversed bytes (block * bs + jank) n (traversed + n)
                  refl (omega arith) (omega arith) (λ k hk. wanted_at traversed k (omega arith)))
                rest.3,
            rest.4,
          )
      | no over ↦
          let left = exit_tables-same v file d none memory state node bytes limit layout t w c at in
          let all : traversed ≡ size = omega arith in
          (
            buffer,
            left.0,
            rw (le→ltb_false traversed size (omega arith), left.1, all) refl,
            IsFilled-refl wanted traversed size buffer (omega arith),
            left.2,
          )
    ]

    -- A read within the blocks that the inode names itself or by its first table fills the buffer
    -- with the bytes of the blocks, in order and from the offset on, up to the size that is asked
    -- for; it ends, and leaves the rest of the buffer and the partition as they were.
    pub ext2_read_inode_data-IsFilled :
        (buffer : List ℕ) (w : v.World)
        → state.node ≡ some node
        → size ≢ 0
        → d.bytes w ≡ bytes
        → size ≤ length buffer
        → (buffer' : List ℕ) × (w' : v.World) × (ext2_read_inode_data v memory state buffer offset
              size w
            ≡ done ((size, buffer'), w'))
          × IsFilled wanted 0 size buffer buffer'
          × (d.bytes w' ≡ bytes)
    unfolding ext2_read_inode_data ext2_traverse_blocks
    ext2_read_inode_data-IsFilled buffer w named nonzero at fits =
        let r =
          reads (size + 1) 0 no_tables buffer w (omega arith) (omega arith) (inl refl) at fits in
        (r.0, r.1, simp (named, ==_false size 0 nonzero) r.2, r.3, r.4)

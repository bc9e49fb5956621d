-- ===== src/Ext2/Search.antt =====
-- src/c/sysfs/ext2/util.c: the search of a directory of any number of blocks.
use kdrivers.Base.{
  true, false, All, ℕ, zero, suc, ◌+◌, ◌*◌, ◌%◌, ◌^◌, ◌≤◌, ◌<◌, ◌≡◌, refl, ap, sym, ◌∙◌, Option,
  none, some, List, [], ==_false, length, get_or, get_or-injective, u64, done, arith,
}
use kdrivers.Base.Filled.{IsFilled}
use kdrivers.Base.Slices.{slice, length-slice, get_or-slice}
use kdrivers.Base.Vfs.{Vfs, IsDevice}
use kdrivers.Ext2.{BasicState}
use kdrivers.Ext2.Blocks.{TableMemory}
use kdrivers.Ext2.Data.{ext2_read_inode_data}
use kdrivers.Ext2.Directory.{
  callback_get_inode_in_dir, list_block, list_blocks, ext2_list_directory, ext2_get_inode_in_dir,
}
use kdrivers.Ext2.Entries.{
  Entry, IsEntry, encode_block, first_match, search_result, list_block-encode, length-encode_block,
}
use kdrivers.Ext2.Layout.{block_of, IsLayout}
use kdrivers.Ext2.ReadData.{same_block, same_block_at, data_byte, ext2_read_inode_data-IsFilled}
use native.Mathlib.Decide.{ℕ_discrete}
use native.Mathlib.Nat.{mul-div_cancel, mul-mod_left, mul-le-mul_right}

module _ (v : Vfs) (file : v.File) (d : IsDevice v file) (memory : TableMemory)
    (dir : BasicState v.File) (node bytes : List ℕ) (limit : ℕ)
    (layout : IsLayout v file d none memory dir node bytes limit) (named : dir.node ≡ some node)
    (no_wrap : limit * dir.block_size < 2 ^ 64) where
  open layout use {words, partition_small, block_inside}

  abbrev pub block_bytes : ℕ → List ℕ
  block_bytes idx =
      slice bytes (block_of bytes node dir.block_size idx * dir.block_size) dir.block_size

  -- A buffer of the size of a block that is filled from the start of a block is the block.
  data_byte-block :
      (idx i : ℕ)
      → i < dir.block_size
      → data_byte bytes node dir.block_size (idx * dir.block_size + i)
        ≡ get_or bytes (block_of bytes node dir.block_size idx * dir.block_size + i) 0
  data_byte-block idx i h =
      let bs = dir.block_size in
      let positive : 0 < bs = omega arith in
      let start : idx * bs % bs ≡ 0 = mul-mod_left idx bs in
      let inside : idx * bs % bs + i < bs = omega arith in
      rw
        (
          same_block bs (idx * bs) i positive inside,
          same_block_at bs (idx * bs) i positive inside,
          start,
          mul-div_cancel idx positive,
        )
        (ap (λ (p : ℕ). get_or bytes p 0) (omega arith))

  filled_block :
      (idx : ℕ)
      → idx < limit
      → (buffer buffer' : List ℕ)
      → IsFilled
          (λ i. data_byte bytes node dir.block_size (idx * dir.block_size + i))
          0
          dir.block_size
          buffer
          buffer'
      → length buffer ≡ dir.block_size
      → buffer' ≡ block_bytes idx
  filled_block idx h buffer buffer' filled fits =
      let place = block_of bytes node dir.block_size idx * dir.block_size in
      let len : length (slice bytes place dir.block_size) ≡ dir.block_size =
        length-slice bytes place dir.block_size (block_inside idx h) in
      let same : length buffer' ≡ dir.block_size = filled.same_length ∙ fits in
      get_or-injective buffer' (block_bytes idx) (same ∙ sym len) (λ i p.
        filled.inside i (omega arith) (omega arith)
        ∙ data_byte-block idx i (omega arith)
        ∙ sym (get_or-slice bytes place dir.block_size i 0 (omega arith)))

  read_block :
      (idx : ℕ) (buffer : List ℕ) (w : v.World)
      → idx < limit
      → d.bytes w ≡ bytes
      → length buffer ≡ dir.block_size
      → (w' : v.World) × (ext2_read_inode_data v memory dir buffer
            (idx * dir.block_size)
            dir.block_size
            w
          ≡ done ((dir.block_size, block_bytes idx), w'))
        × (d.bytes w' ≡ bytes)
  read_block idx buffer w h at fits =
      let bs = dir.block_size in
      let in_file : idx * bs + bs ≤ limit * bs =
        omega (arith, mul-le-mul_right bs (let p : idx + 1 ≤ limit = omega arith in p)) in
      let r =
        ext2_read_inode_data-IsFilled v file d memory dir node bytes limit layout (idx * bs) bs
          in_file (omega arith) buffer w named (omega arith) at (omega arith) in
      let whole : r.0 ≡ block_bytes idx = filled_block idx h buffer r.0 r.3 fits in
      (r.1, r.2 ∙ ap (λ (l : List ℕ). done ((bs, l), r.1)) whole, r.4)

  module _ (target : List ℕ) (entries : ℕ → List Entry)
      (holds : (idx : ℕ) → idx < limit → block_bytes idx ≡ encode_block (entries idx))
      (valid : (idx : ℕ) → idx < limit → All IsEntry (entries idx)) where
    search_block :
        (idx found : ℕ)
        → idx < limit
        → list_block
            (callback_get_inode_in_dir target)
            (dir.block_size + 1)
            (block_bytes idx)
            dir.block_size
            0
            found
          ≡ done (search_result found (first_match target (entries idx)))
    search_block idx found h =
        let len : length (encode_block (entries idx)) ≡ dir.block_size =
          sym (ap (length {A = ℕ}) (holds idx h))
          ∙ length-slice bytes (block_of bytes node dir.block_size idx * dir.block_size)
              dir.block_size (block_inside idx h) in
        ap
          (λ (b : List ℕ).
            list_block (callback_get_inode_in_dir target) (dir.block_size + 1) b dir.block_size 0
              found)
          (holds idx h)
        ∙ list_block-encode target found dir.block_size (entries idx) [] (dir.block_size + 1)
            (valid idx h) len (omega (arith, block_inside idx h))
            (omega (arith, length-encode_block (entries idx)))

    -- One round of the loop over the blocks.
    next_hit :
        (fuel offset found inode : ℕ) (buffer blk : List ℕ) (w w' : v.World)
        → ext2_read_inode_data v memory dir buffer offset dir.block_size w
          ≡ done ((dir.block_size, blk), w')
        → list_block
            (callback_get_inode_in_dir target)
            (dir.block_size + 1)
            blk
            dir.block_size
            0
            found
          ≡ done (true, inode)
        → list_blocks
            (callback_get_inode_in_dir target)
            v
            memory
            dir
            (suc fuel)
            buffer
            offset
            found
            w
          ≡ done (inode, w')
    unfolding list_blocks
    next_hit fuel offset found inode buffer blk w w' read hit =
        rw (read, ==_false dir.block_size 0 (omega arith), hit) refl

    next_miss :
        (fuel offset found found' : ℕ) (buffer blk : List ℕ) (w w' : v.World)
        → ext2_read_inode_data v memory dir buffer offset dir.block_size w
          ≡ done ((dir.block_size, blk), w')
        → list_block
            (callback_get_inode_in_dir target)
            (dir.block_size + 1)
            blk
            dir.block_size
            0
            found
          ≡ done (false, found')
        → list_blocks
            (callback_get_inode_in_dir target)
            v
            memory
            dir
            (suc fuel)
            buffer
            offset
            found
            w
          ≡ list_blocks
              (callback_get_inode_in_dir target)
              v
              memory
              dir
              fuel
              blk
              (u64 (offset + dir.block_size))
              found'
              w'
    unfolding list_blocks
    next_miss fuel offset found found' buffer blk w w' read miss =
        rw (read, ==_false dir.block_size 0 (omega arith), miss) refl

    search_blocks :
        (fuel idx last inode : ℕ) (buffer : List ℕ) (w : v.World)
        → idx ≤ last
        → last < limit
        → last < idx + fuel
        → ((k : ℕ) → idx ≤ k → k < last → first_match target (entries k) ≡ none)
        → first_match target (entries last) ≡ some inode
        → d.bytes w ≡ bytes
        → length buffer ≡ dir.block_size
        → (w' : v.World) × (list_blocks
              (callback_get_inode_in_dir target)
              v
              memory
              dir
              fuel
              buffer
              (idx * dir.block_size)
              0
              w
            ≡ done (inode, w'))
          × (d.bytes w' ≡ bytes)
    search_blocks zero idx last inode buffer w h k enough before at_last at fits =
        absurd (omega arith)
    search_blocks (suc fuel) idx last inode buffer w h k enough before at_last at fits =
        let bs = dir.block_size in
        let idx_in : idx < limit = omega arith in
        let read = read_block idx buffer w idx_in at fits in
        let found = search_block idx 0 idx_in in
        let len : length (block_bytes idx) ≡ bs =
          length-slice bytes (block_of bytes node bs idx * bs) bs (block_inside idx idx_in) in
        let in_file : idx * bs + bs ≤ limit * bs =
          omega (arith, mul-le-mul_right bs (let p : idx + 1 ≤ limit = omega arith in p)) in
        let next : u64 (idx * bs + bs) ≡ (idx + 1) * bs = omega arith in
        elim (ℕ_discrete idx last) [
          | yes e ↦
              let hit : first_match target (entries idx) ≡ some inode =
                ap (λ (k : ℕ). first_match target (entries k)) e ∙ at_last in
              (
                read.0,
                next_hit fuel (idx * bs) 0 inode buffer (block_bytes idx) w read.0 read.1
                    (found ∙ ap (λ (o : Option ℕ). done (search_result 0 o)) hit),
                read.2,
              )
          | no ne ↦
              let rest =
                search_blocks fuel (idx + 1) last inode (block_bytes idx) read.0 (omega arith) k
                  (omega arith) (λ j p q. before j (omega arith) q) at_last read.2 len in
              let miss = before idx (omega arith) (omega arith) in
              (
                rest.0,
                next_miss fuel (idx * bs) 0 0 buffer (block_bytes idx) w read.0 read.1
                      (found ∙ ap (λ (o : Option ℕ). done (search_result 0 o)) miss)
                    ∙ ap
                        (λ (o : ℕ).
                          list_blocks (callback_get_inode_in_dir target) v memory dir fuel
                            (block_bytes idx) o 0 read.0)
                        next
                    ∙ rest.1,
                rest.2,
              )
        ]

    pub ext2_get_inode_in_dir-first_match :
        (fuel last inode : ℕ) (buffer : List ℕ) (w : v.World)
        → last < limit
        → last < fuel
        → ((k : ℕ) → k < last → first_match target (entries k) ≡ none)
        → first_match target (entries last) ≡ some inode
        → d.bytes w ≡ bytes
        → length buffer ≡ dir.block_size
        → (w' : v.World) × (ext2_get_inode_in_dir v memory fuel (some buffer) dir target w
            ≡ done (inode, w'))
          × (d.bytes w' ≡ bytes)
    unfolding ext2_get_inode_in_dir ext2_list_directory
    ext2_get_inode_in_dir-first_match fuel last inode buffer w h enough before at_last at fits =
        let r =
          search_blocks fuel 0 last inode buffer w (omega arith) h (omega arith)
            (λ k p q. before k q) at_last at fits in
        let start : 0 ≡ 0 * dir.block_size = omega arith in
        (
          r.0,
          ap
                (λ (o : ℕ).
                  list_blocks (callback_get_inode_in_dir target) v memory dir fuel buffer o 0 w)
                start
              ∙ r.1,
          r.2,
        )

-- ===== src/Ext2/RoundTrip.antt =====
-- src/c/sysfs/ext2/file.c over util.c: what is written to a file is read back.
use kdrivers.Base.{
  ℕ, ◌+◌, ◌*◌, ◌/◌, ◌%◌, ◌^◌, ◌≤◌, ◌<◌, ◌≡◌, ◌≢◌, ◌↔◌, refl, ap, ◌∙◌, Option, none, some, List,
  ==_false, length, get_or, u64, done, arith,
}
use kdrivers.Base.Filled.{IsFilled}
use kdrivers.Base.Masks.{Masks}
use kdrivers.Base.Slices.{mul_nonzero}
use kdrivers.Base.Vfs.{Vfs, IsDevice}
use kdrivers.Ext2.{NodeState}
use kdrivers.Ext2.Blocks.{TableMemory}
use kdrivers.Ext2.Data.{
  ext2_write_inode_data, ext2_traverse_blocks, ext2_create_callback, ext2_write_callback,
}
use kdrivers.Ext2.Direct.{direct_place, block_of-direct, IsDirect, IsDirect-IsLayout, IsWritten}
use kdrivers.Ext2.Directory.{util}
use kdrivers.Ext2.Node.{read_ext2_file, write_ext2_file}
use kdrivers.Ext2.ReadData.{data_byte, ext2_read_inode_data-IsFilled}
use kdrivers.Ext2.WriteData.{writes}
use native.Mathlib.Nat.{div-lt_iff_lt-mul}

module _ (masks : Masks) (v : Vfs) (file : v.File) (d : IsDevice v file) (memory : TableMemory)
    (state : NodeState v.File) (node : List ℕ) (limit total : ℕ)
    (direct : IsDirect node state.basic.block_size limit total)
    (open_partition : state.basic.partition ≡ some file) (named : state.basic.node ≡ some node)
    (writable : state.basic.attributes / 2 % 2 ≡ 1) where
  abbrev bs : ℕ
  bs = state.basic.block_size

  ext2_write_inode_data-IsWritten :
      (offset size : ℕ) (buffer : List ℕ) (w : v.World)
      → offset + size ≤ limit * bs
      → offset + size < 2 ^ 64
      → size ≤ length buffer
      → size ≢ 0
      → length (d.bytes w) ≡ total
      → (w' : v.World) × (ext2_write_inode_data masks v memory state buffer offset size w
          ≡ done ((size, state), w'))
        × IsWritten node bs offset buffer 0 size (d.bytes w) (d.bytes w')
  unfolding ext2_write_inode_data ext2_traverse_blocks
  ext2_write_inode_data-IsWritten offset size buffer w in_file no_wrap fits nonzero e =
      let r =
        writes v file d memory state.basic node limit total direct open_partition offset size buffer
          in_file no_wrap fits (size + 1) 0 w (omega arith) (omega arith) e in
      let bit : masks.masked_read state.basic.attributes 1 1 ≡ 1 =
        masks.read_field state.basic.attributes 1 1 ∙ writable in
      let traversed : ext2_traverse_blocks v (some ext2_create_callback) memory state.basic
            state.basic.node offset size (ext2_write_callback v state.basic size) buffer w
          ≡ done ((size, buffer), r.0) =
        simp (named, ==_false size 0 nonzero) r.1 in
      (r.0, rw (traversed, ==_false size 0 nonzero, bit) refl, r.2)

  data_byte-direct :
      (bytes : List ℕ) (x : ℕ)
      → x < limit * bs
      → data_byte bytes node bs x ≡ get_or bytes (direct_place node bs x) 0
  data_byte-direct bytes x h =
      let few = direct.limit_direct in
      let big = direct.words in
      let positive : 0 < bs = omega arith in
      let both : (x / bs < limit) ↔ (x < limit * bs) = div-lt_iff_lt-mul positive in
      let inside = both.1 h in
      ap (λ (b : ℕ). get_or bytes (b * bs + x % bs) 0)
        (block_of-direct node bs bytes (x / bs) (omega arith))

  -- A file that is open for writing, whose blocks are named by its inode, differ from each other
  -- and lie on the partition, is written within them and read back at the same place, into any
  -- array that holds as much: both calls of the file driver succeed with the whole count, the
  -- array is filled with what was written, and of the partition only the bytes of the file that
  -- were written to have changed.
  pub read_ext2_file-write :
      (fuel : ℕ) (block : Option (List ℕ)) (source buffer : List ℕ) (size count offset : ℕ)
      (w : v.World)
      → offset + size * count ≤ limit * state.basic.block_size
      → offset + size * count < 2 ^ 64
      → size * count ≤ length source
      → size * count ≤ length buffer
      → size ≢ 0
      → count ≢ 0
      → length (d.bytes w) ≡ total
      → let n = size * count in
        let util' = util masks v memory fuel block in
        (w1 : v.World) × (buffer' : List ℕ) × (w2 : v.World) × (write_ext2_file v util'
            (some source)
            size
            count
            (some offset)
            (some state)
            w
          ≡ done ((n, some state), w1))
        × (read_ext2_file v util' (some buffer) size count (some offset) (some state) w1
            ≡ done ((n, some buffer'), w2))
        × IsFilled (λ i. get_or source i 0) 0 n buffer buffer'
        × (d.bytes w2 ≡ d.bytes w1)
        × IsWritten node state.basic.block_size offset source 0 n (d.bytes w) (d.bytes w1)
  unfolding write_ext2_file read_ext2_file
  read_ext2_file-write fuel block source buffer size count offset w in_file no_wrap given room hs hc
        e =
      let n = size * count in
      let nonzero = mul_nonzero size count hs hc in
      let whole : u64 n ≡ n = omega arith in
      let wrote =
        ext2_write_inode_data-IsWritten offset n source w in_file no_wrap given nonzero e in
      let w1 = wrote.0 in
      let same = wrote.2.same_length in
      let layout =
        IsDirect-IsLayout v file d none memory state.basic node (d.bytes w1) limit total direct
          open_partition (same ∙ e) in
      let r =
        ext2_read_inode_data-IsFilled v file d memory state.basic node (d.bytes w1) limit layout
          offset n in_file no_wrap buffer w1 named nonzero refl room in
      let filled = r.3 in
      (
        w1,
        r.0,
        r.1,
        rw (==_false size 0 hs, ==_false count 0 hc, whole, wrote.1) refl,
        rw (==_false size 0 hs, ==_false count 0 hc, whole, r.2) refl,
        record {
          same_length = filled.same_length;
          inside = λ i p q.
              filled.inside i p q
              ∙ data_byte-direct (d.bytes w1) (offset + i) (omega arith)
              ∙ wrote.2.inside i p q;
          outside = filled.outside;
        },
        r.4,
        wrote.2,
      )

-- ===== src/Ext2/Layout.antt =====
-- src/c/sysfs/ext2/util.c: where the blocks of an inode are, as the format of the disk says, and
-- that the traversal finds them there. Twelve blocks are named by the inode itself, and further
-- ones by the table that `sibp` names.
use kdrivers.Base.{
  ℕ, ◌+◌, ◌-◌, ◌*◌, ◌/◌, ◌^◌, ◌≤◌, ◌<◌, ◌≡◌, ◌≢◌, ◌⊎◌, refl, ap, sym, ◌∙◌, Option, none, some, List,
  ltb, if◌then◌else◌, ==_false, lt→ltb, le→ltb_false, length, get_or, get_elem?-eq-get_or, u64,
  done, arith,
}
use kdrivers.Base.Memory.{load8, load16}
use kdrivers.Base.Slices.{slice, blit, length-slice, blit_whole, get_or-slice}
use kdrivers.Base.Vfs.{Vfs, IsDevice}
use kdrivers.Ext2.{load32, BasicState}
use kdrivers.Ext2.Blocks.{
  TableMemory, Tables, no_tables, load_dbp, load_sibp, load_entry, ext2_load_block, read_table,
  ext2_load_read_block, found_block, skip_dibp, own_table, resolve,
}

-- The 32-bit word at `p`.
unfoldable pub word32 : List ℕ → ℕ → ℕ
word32 m p =
    get_or m p 0
    + get_or m (p + 1) 0 * 256
    + (get_or m (p + 2) 0 + get_or m (p + 2 + 1) 0 * 256) * 65536

pub load8-eq : (m : List ℕ) (p : ℕ) → p < length m → load8 m p ≡ done (get_or m p 0)
unfolding load8
load8-eq m p h = rw (get_elem?-eq-get_or m p 0 h) refl

pub load32-eq : (m : List ℕ) (p : ℕ) → p + 4 ≤ length m → load32 m p ≡ done (word32 m p)
unfolding load32 load16 word32
load32-eq m p h =
    rw
      (
        load8-eq m p (omega arith),
        load8-eq m (p + 1) (omega arith),
        load8-eq m (p + 2) (omega arith),
        load8-eq m (p + 2 + 1) (omega arith),
      )
      refl

pub word32-slice :
    (m : List ℕ) (off n p : ℕ) → p + 4 ≤ n → word32 (slice m off n) p ≡ word32 m (off + p)
unfolding word32
word32-slice m off n p h = omega (
  arith,
  get_or-slice m off n p 0,
  get_or-slice m off n (p + 1) 0,
  get_or-slice m off n (p + 2) 0,
  get_or-slice m off n (p + 2 + 1) 0,
  ap (λ (k : ℕ). get_or m k 0) (let e : off + (p + 1) ≡ off + p + 1 = omega arith in e),
  ap (λ (k : ℕ). get_or m k 0) (let e : off + (p + 2) ≡ off + p + 2 = omega arith in e),
  ap (λ (k : ℕ). get_or m k 0) (let e : off + (p + 2 + 1) ≡ off + p + 2 + 1 = omega arith in e),
)

-- The block of index `idx`, of an inode `node` on a partition of `bytes`.
unfoldable pub block_of : List ℕ → List ℕ → ℕ → ℕ → ℕ
block_of bytes node block_size idx =
    if ltb idx 12
    then word32 node (40 + 4 * idx)
    else word32 bytes (word32 node 88 * block_size + 4 * (idx - 12))

module _ (v : Vfs) (file : v.File) (d : IsDevice v file) (create : Option (ℕ → ℕ))
    (memory : TableMemory) (state : BasicState v.File) (node bytes : List ℕ) where
  abbrev pub sibp_place : ℕ
  sibp_place = word32 node 88 * state.block_size

  -- The table of `sibp` lies on the partition, and there is memory for it.
  pub record HasTable : Type 0 where
    pub sibp_given : word32 node 88 ≢ 0
    pub sibp_inside : sibp_place + state.block_size ≤ length bytes
    pub held : List ℕ
    pub sibp_held : memory.for_sibp ≡ some held
    pub held_length : length held ≡ state.block_size

  -- The first `limit` blocks of the inode are named, and lie on the partition.
  pub record IsLayout (limit : ℕ) : Type 0 where
    pub open_partition : state.partition ≡ some file
    pub node_length : 128 ≤ length node
    pub words : 4 ≤ state.block_size
    pub partition_small : length bytes < 2 ^ 64
    pub limit_singly : limit ≤ 12 + state.block_size / 4
    pub has_table : 12 < limit → HasTable
    pub block_given : (idx : ℕ) → idx < limit → block_of bytes node state.block_size idx ≢ 0
    pub block_inside :
        (idx : ℕ)
        → idx < limit
        → block_of bytes node state.block_size idx * state.block_size + state.block_size
          ≤ length bytes

  abbrev pub the_table : List ℕ
  the_table = slice bytes sibp_place state.block_size

  abbrev pub with_table : Tables
  with_table = record no_tables { sibp = some the_table }

  -- The variables of a traversal that has not gone beyond the table of `sibp`.
  abbrev pub IsCached : Tables → Type 0
  IsCached t = (t ≡ no_tables) ⊎ (HasTable × (t ≡ with_table))

  given_block : (entry : ℕ) → entry ≢ 0 → ext2_load_block entry create state.inode ≡ entry
  unfolding ext2_load_block
  given_block entry h = elim create as (λ c. ext2_load_block entry c state.inode ≡ entry) [
    | none ↦ refl
    | some f ↦ rw (==_false entry 0 h) refl
  ]

  abbrev block : ℕ → ℕ
  block idx = block_of bytes node state.block_size idx

  block-direct : (idx : ℕ) → idx < 12 → block idx ≡ word32 node (40 + 4 * idx)
  unfolding block_of
  block-direct idx h = rw (lt→ltb idx 12 h) refl

  block-table : (i : ℕ) → block (12 + i) ≡ word32 bytes (sibp_place + 4 * i)
  unfolding block_of
  block-table i =
      let e : 12 + i - 12 ≡ i = omega arith in rw (le→ltb_false (12 + i) 12 (omega arith), e) refl

  -- A block that the given word names.
  found_word :
      (word idx : ℕ) (t : Tables) (w : v.World)
      → block idx ≡ word
      → block idx ≢ 0
      → found_block v create memory state node (ext2_load_block word create state.inode) t w
        ≡ done (some (block idx), t, w)
  found_word word idx t w e h =
      let given : word ≢ 0 = rw⁻¹ e h in rw (given_block word given, ==_false word 0 given, e) refl

  module _ (limit : ℕ) (layout : IsLayout limit) where
    open layout use {open_partition, node_length, words, partition_small, limit_singly, block_given}

    pub resolve_direct :
        (idx : ℕ) (t : Tables) (w : v.World)
        → idx < 12
        → idx < limit
        → resolve v create memory state node idx t w ≡ done (some (block idx), t, w)
    unfolding resolve load_dbp
    resolve_direct idx t w h k =
        rw (lt→ltb idx 12 h, load32-eq node (40 + 4 * idx) (omega arith))
          (found_word (word32 node (40 + 4 * idx)) idx t w (block-direct idx h) (block_given idx k))

    -- An entry of the table.
    pub skip_dibp-entry :
        (i : ℕ) (w : v.World)
        → HasTable
        → 12 + i < limit
        → skip_dibp v create memory state node i with_table w
          ≡ done (some (block (12 + i)), with_table, w)
    unfolding skip_dibp load_entry
    skip_dibp-entry i w has k =
        let inside : 4 * i + 4 ≤ state.block_size = omega arith in
        let len : length the_table ≡ state.block_size =
          length-slice bytes sibp_place state.block_size has.sibp_inside in
        let word : load32 the_table (4 * i) ≡ done (word32 bytes (sibp_place + 4 * i)) =
          load32-eq the_table (4 * i) (omega arith)
          ∙ ap (λ (x : ℕ). done x)
              (word32-slice bytes sibp_place state.block_size (4 * i) inside) in
        rw word (
          found_word (word32 bytes (sibp_place + 4 * i)) (12 + i) with_table w (block-table i)
            (block_given (12 + i) k))

    -- The read of the table, the first time.
    pub own_table-read :
        (w : v.World)
        → HasTable
        → d.bytes w ≡ bytes
        → (w' : v.World) × (own_table v create memory state node none memory.for_sibp
              (load_sibp node)
              w
            ≡ done ((0, some the_table), w'))
          × (d.bytes w' ≡ bytes)
    unfolding own_table ext2_load_read_block read_table load_sibp
    own_table-read w has at =
        let size = state.block_size in
        let w1 = v.vfs_seek (some file) sibp_place w in
        let small : u64 sibp_place ≡ sibp_place = omega (arith, has.sibp_inside) in
        let read =
          d.read_result has.held 0 1 size w1 (omega (arith, has.held_length))
            (rw (d.seek_place, d.seek_bytes, at) (omega (arith, has.sibp_inside))) in
        let same : slice (d.bytes w1) (d.place w1) (1 * size) ≡ the_table =
          rw (d.seek_place, d.seek_bytes, at)
            (ap (λ (k : ℕ). slice bytes sibp_place k) (omega arith)) in
        let full : blit has.held 0 (slice (d.bytes w1) (d.place w1) (1 * size)) ≡ the_table =
          ap (λ (l : List ℕ). blit has.held 0 l) same
          ∙ blit_whole has.held the_table
              (length-slice bytes sibp_place size has.sibp_inside ∙ sym has.held_length) in
        let w2 = (v.vfs_read has.held 0 1 size (some file) w1).1 in
        (
          w2,
          rw
              (
                load32-eq node 88 (omega arith),
                given_block (word32 node 88) has.sibp_given,
                has.sibp_held,
                open_partition,
                ==_false (word32 node 88) 0 has.sibp_given,
                small,
              )
              (ap (λ (l : List ℕ). done ((0, some l), w2))
                (ap (λ (r : ℕ × List ℕ). r.1) read ∙ full)),
          d.read_bytes has.held 0 1 size w1 ∙ d.seek_bytes sibp_place w ∙ at,
        )

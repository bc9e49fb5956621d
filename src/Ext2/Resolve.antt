-- ===== src/Ext2/Resolve.antt =====
-- src/c/sysfs/ext2/util.c: the traversal finds the blocks of an inode where the format has them,
-- and writing the tables back changes nothing.
use kdrivers.Base.{
  ℕ, ◌+◌, ◌-◌, ◌*◌, ◌/◌, ◌%◌, ◌<◌, ◌≡◌, ◌≢◌, inl, inr, refl, ap, ◌∙◌, Option, some, List, ==_false,
  le→ltb_false, length, u64, done, arith,
}
use kdrivers.Base.Slices.{slice, length-slice, blit-slice_same, slice-slice}
use kdrivers.Base.Vfs.{Vfs, IsDevice}
use kdrivers.Ext2.{BasicState}
use kdrivers.Ext2.Blocks.{
  TableMemory, Tables, load_sibp, write_table, own_table, resolve_indirect, resolve, write_back,
  exit_tables,
}
use kdrivers.Ext2.Layout.{
  load32-eq, block_of, HasTable, IsLayout, IsCached, the_table, with_table, sibp_place,
  resolve_direct, skip_dibp-entry, own_table-read,
}
use native.Mathlib.Decide.{dec_lt}
use native.Mathlib.Nat.{div-eq_of_lt, mod-eq_of_lt}

module _ (v : Vfs) (file : v.File) (d : IsDevice v file) (create : Option (ℕ → ℕ))
    (memory : TableMemory) (state : BasicState v.File) (node bytes : List ℕ) (limit : ℕ)
    (layout : IsLayout v file d create memory state node bytes limit) where
  open layout use {open_partition, node_length, words, partition_small, limit_singly, has_table}

  abbrev Cached : Tables → Type 0
  Cached t = IsCached v file d create memory state node bytes t

  abbrev kept : Tables
  kept = with_table v file d create memory state node bytes

  -- What a lookup gives that finds the block: the tables that are kept, and the same partition.
  abbrev pub Resolves : ℕ → Tables → v.World → Type 0
  Resolves idx t w =
      (t' : Tables) × (w' : v.World) × (resolve v create memory state node idx t w
        ≡ done (some (block_of bytes node state.block_size idx), t', w'))
      × Cached t'
      × (d.bytes w' ≡ bytes)

  resolve_table :
      (i : ℕ) (t : Tables) (w : v.World)
      → 12 + i < limit
      → Cached t
      → d.bytes w ≡ bytes
      → Resolves (12 + i) t w
  unfolding resolve resolve_indirect own_table
  resolve_table i t w k c at =
      let has : HasTable v file d create memory state node bytes = has_table (omega arith) in
      let first : 12 + i - 12 ≡ i = omega arith in
      let doubly : i / state.block_size ≡ 0 = div-eq_of_lt (omega arith) in
      let triply : 0 / state.block_size ≡ 0 = div-eq_of_lt (omega arith) in
      let singly : i % (state.block_size / 4) ≡ i = mod-eq_of_lt (omega arith) in
      let some_pointers : state.block_size / 4 ≢ 0 = omega arith in
      let read = own_table-read v file d create memory state node bytes limit layout w has at in
      let entry = λ (x : v.World).
        skip_dibp-entry v file d create memory state node bytes limit layout i x has k in
      elim c [
        | inl e ↦ (
          kept,
          read.0,
          rw
              (
                e,
                first,
                doubly,
                triply,
                singly,
                le→ltb_false (12 + i) 12 (omega arith),
                ==_false (state.block_size / 4) 0 some_pointers,
                read.1,
              )
              (entry read.0),
          inr (has, refl),
          read.2,
        )
        | inr (_, e) ↦ (
          kept,
          w,
          rw
              (
                e,
                first,
                doubly,
                triply,
                singly,
                le→ltb_false (12 + i) 12 (omega arith),
                ==_false (state.block_size / 4) 0 some_pointers,
              )
              (entry w),
          inr (has, refl),
          at,
        )
      ]

  pub resolve-block :
      (idx : ℕ) (t : Tables) (w : v.World)
      → idx < limit
      → Cached t
      → d.bytes w ≡ bytes
      → Resolves idx t w
  resolve-block idx t w k c at = elim (dec_lt idx 12) [
    | yes h ↦ (
      t,
      w,
      resolve_direct v file d create memory state node bytes limit layout idx t w h k,
      c,
      at,
    )
    | no h ↦
        let e : 12 + (idx - 12) ≡ idx = omega arith in
        rw⁻¹ e (resolve_table (idx - 12) t w (omega arith) c at)
  ]

  -- At the end of a traversal the partition is what it was.
  pub exit_tables-same :
      (t : Tables) (w : v.World)
      → Cached t
      → d.bytes w ≡ bytes
      → (w' : v.World) × (exit_tables v create memory state node t w ≡ done w')
        × (d.bytes w' ≡ bytes)
  unfolding exit_tables write_back write_table load_sibp
  exit_tables-same t w (inl e) at = (w, rw e refl, at)
  exit_tables-same t w (inr (has, e)) at =
      let table = the_table v file d create memory state node bytes in
      let place = sibp_place v file d create memory state node bytes in
      let size = state.block_size in
      let w1 = v.vfs_seek (some file) place w in
      let small : u64 place ≡ place = omega (arith, has.sibp_inside) in
      let len : length table ≡ size = length-slice bytes place size has.sibp_inside in
      let written =
        d.write_bytes table 0 1 size w1 (omega arith)
          (rw (d.seek_place, d.seek_bytes, at) (omega (arith, has.sibp_inside))) in
      let whole : slice table 0 (1 * size) ≡ table =
        ap (λ (k : ℕ). slice table 0 k) (omega arith)
        ∙ slice-slice bytes place size 0 size (omega arith)
        ∙ ap (λ (k : ℕ). slice bytes k size) (omega arith) in
      (
        (v.vfs_write table 0 1 size (some file) w1).1,
        rw (e, load32-eq node 88 (omega arith), open_partition, small) refl,
        written
            ∙ rw (d.seek_place, d.seek_bytes, at, whole)
                (blit-slice_same bytes place size (omega (arith, has.sibp_inside))),
      )

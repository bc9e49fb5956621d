-- ===== src/Ext2/Alias.antt =====
-- src/c/sysfs/ext2/util.c: where the lookup of a block goes wrong.
use kdrivers.Base.{
  ℕ, ◌+◌, ◌-◌, ◌/◌, ◌%◌, ◌≤◌, ◌<◌, ◌≡◌, ◌≢◌, refl, ap, ◌∙◌, Option, List, ==_false, le→ltb_false,
  arith,
}
use kdrivers.Base.Vfs.{Vfs}
use kdrivers.Ext2.{BasicState}
use kdrivers.Ext2.Blocks.{TableMemory, Tables, resolve, resolve_indirect}
use native.Mathlib.Nat.{div-eq_of_lt, add-mod_right}

module _ (v : Vfs) (create : Option (ℕ → ℕ)) (memory : TableMemory) (state : BasicState v.File)
    (node : List ℕ) (t : Tables) (w : v.World) where
  resolve_singly :
      (i : ℕ)
      → i < state.block_size
      → 4 ≤ state.block_size
      → resolve v create memory state node (12 + i) t w
        ≡ resolve_indirect v create memory state node 0 0 (i % (state.block_size / 4)) t w
  unfolding resolve
  resolve_singly i h words =
      let first : 12 + i - 12 ≡ i = omega arith in
      let doubly : i / state.block_size ≡ 0 = div-eq_of_lt h in
      let triply : 0 / state.block_size ≡ 0 = div-eq_of_lt (omega arith) in
      let pointers : state.block_size / 4 ≢ 0 = omega arith in
      rw
        (
          le→ltb_false (12 + i) 12 (omega arith),
          first,
          doubly,
          triply,
          ==_false (state.block_size / 4) 0 pointers,
        )
        refl

  -- A table has a quarter as many entries as a block has bytes, but the index of a doubly indirect
  -- table is found by dividing by the bytes: for an index behind those of the first table, and
  -- below 12 more than the bytes of a block, the lookup goes through the first table again, and
  -- gives all that it gives for the index that is one length of the table earlier, where a block
  -- has 4 bytes or more.
  pub resolve_aliases :
      (i : ℕ)
      → 4 ≤ state.block_size
      → i + state.block_size / 4 < state.block_size
      → resolve v create memory state node (12 + (i + state.block_size / 4)) t w
        ≡ resolve v create memory state node (12 + i) t w
  resolve_aliases i words h =
      resolve_singly (i + state.block_size / 4) h words
      ∙ ap (λ (k : ℕ). resolve_indirect v create memory state node 0 0 k t w)
          (add-mod_right i (state.block_size / 4))
      ∙ rw (resolve_singly i (omega arith) words) refl

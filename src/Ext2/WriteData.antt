-- ===== src/Ext2/WriteData.antt =====
-- src/c/sysfs/ext2/util.c: writing the data of an inode to the blocks that it names itself.
use kdrivers.Base.{
  ℕ, zero, suc, ◌+◌, ◌-◌, ◌*◌, ◌/◌, ◌%◌, ◌^◌, ◌≤◌, ◌<◌, ◌≡◌, ◌↔◌, refl, ap, sym, ◌∙◌, min, Option,
  some, List, ==_false, lt→ltb, le→ltb_false, length, u64, sub64, done, arith,
}
use kdrivers.Base.Slices.{slice, blit}
use kdrivers.Base.Vfs.{Vfs, IsDevice}
use kdrivers.Ext2.{BasicState}
use kdrivers.Ext2.Blocks.{TableMemory, no_tables, resolve}
use kdrivers.Ext2.Data.{ext2_create_callback, ext2_write_callback, leave, with_block, traverse}
use kdrivers.Ext2.Direct.{
  direct_block, direct_place, block_of-direct, IsDirect, IsDirect-IsLayout, Written, IsWritten-refl,
  IsWritten-trans, IsWritten-blit,
}
use kdrivers.Ext2.Layout.{IsLayout, resolve_direct}
use mathlib.Core.Path.{subst}
use native.Mathlib.Decide.{dec_lt}
use native.Mathlib.Nat.{mod-lt, div-add-mod, div-lt_iff_lt-mul, mul_comm}

abbrev counted : ℕ → List ℕ → ℕ × List ℕ
counted n buffer = (n, buffer)

module _ (v : Vfs) (file : v.File) (d : IsDevice v file) (memory : TableMemory)
    (state : BasicState v.File) (node : List ℕ) (limit total : ℕ)
    (direct : IsDirect node state.block_size limit total)
    (open_partition : state.partition ≡ some file) where
  abbrev pub create : Option (ℕ → ℕ)
  create = some ext2_create_callback

  layout_at :
      (w : v.World)
      → length (d.bytes w) ≡ total
      → IsLayout v file d create memory state node (d.bytes w) limit
  layout_at w e =
      IsDirect-IsLayout v file d create memory state node (d.bytes w) limit total direct
        open_partition e

  -- One round moves what is left of the block, or of what is wanted.
  write_callback-eq :
      (size block traversed jank n : ℕ) (buffer : List ℕ) (w : v.World)
      → block * state.block_size + state.block_size ≤ length (d.bytes w)
      → length (d.bytes w) < 2 ^ 64
      → jank < state.block_size
      → traversed < size
      → size ≤ length buffer
      → size < 2 ^ 64
      → n ≡ min (state.block_size - jank) (size - traversed)
      → let r = ext2_write_callback v state size block traversed jank buffer w in
        (r.0 ≡ (n, buffer))
        × (d.bytes r.1
            ≡ blit (d.bytes w) (block * state.block_size + jank) (slice buffer traversed n))
  unfolding ext2_write_callback
  write_callback-eq size block traversed jank n buffer w inside disk_small hj ht fits small e =
      let place = block * state.block_size + jank in
      let w1 = v.vfs_seek (some file) place w in
      let count : min (sub64 state.block_size jank) (sub64 size traversed) ≡ n = omega arith in
      let no_wrap : u64 place ≡ place = omega arith in
      let once : 1 * n ≡ n = omega arith in
      let room : d.place w1 + 1 * n ≤ length (d.bytes w1) =
        rw (d.seek_place, d.seek_bytes) (omega arith) in
      let moved = d.write_result buffer traversed 1 n w1 (omega arith) room in
      let stored = d.write_bytes buffer traversed 1 n w1 (omega arith) room in
      let same : blit (d.bytes w1) (d.place w1) (slice buffer traversed (1 * n))
          ≡ blit (d.bytes w) place (slice buffer traversed n) =
        rw (d.seek_place, d.seek_bytes)
          (ap (λ (k : ℕ). blit (d.bytes w) place (slice buffer traversed k)) once) in
      rw (count, open_partition, no_wrap)
        (ap (λ (k : ℕ). counted k buffer) (moved ∙ once), stored ∙ same)

  module _ (offset size : ℕ) (buffer : List ℕ) (in_file : offset + size ≤ limit * state.block_size)
      (no_wrap : offset + size < 2 ^ 64) (fits : size ≤ length buffer) where
    abbrev pub W : ℕ → ℕ → List ℕ → List ℕ → Type 0
    W lo hi before after = Written node state.block_size offset buffer lo hi before after

    abbrev pub Writes : ℕ → ℕ → v.World → Type 0
    Writes fuel traversed w =
        (w' : v.World) × (traverse v create memory state node offset size
            (ext2_write_callback v state size) fuel traversed no_tables buffer w
          ≡ done ((size, buffer), w'))
        × W traversed size (d.bytes w) (d.bytes w')

    named :
        (idx : ℕ) (w : v.World)
        → idx < limit
        → length (d.bytes w) ≡ total
        → resolve v create memory state node idx no_tables w
          ≡ done (some (direct_block node state.block_size idx), no_tables, w)
    named idx w h e =
        let few = direct.limit_direct in
        resolve_direct v file d create memory state node (d.bytes w) limit (layout_at w e) idx
          no_tables w (omega arith) h
        ∙ ap (λ (b : ℕ). done (some b, no_tables, w))
            (block_of-direct node state.block_size (d.bytes w) idx (omega arith))

    finish : (fuel traversed : ℕ) (w : v.World) → traversed ≡ size → Writes (suc fuel) traversed w
    unfolding traverse leave
    finish fuel traversed w all = (
      w,
      rw (le→ltb_false traversed size (omega arith), all) refl,
      IsWritten-refl node state.block_size offset buffer traversed size (d.bytes w) (omega arith),
    )

    pub writes :
        (fuel traversed : ℕ) (w : v.World)
        → traversed ≤ size
        → size < traversed + fuel
        → length (d.bytes w) ≡ total
        → Writes fuel traversed w
    unfolding traverse with_block leave
    writes zero traversed w h enough e = absurd (omega arith)
    writes (suc fuel) traversed w h enough e = elim (dec_lt traversed size) [
      | yes more ↦
          let x = traversed + offset in
          let bs = state.block_size in
          let idx = x / bs in
          let jank = x % bs in
          let big = direct.words in
          let positive : 0 < bs = omega arith in
          let in_block : jank < bs = mod-lt x positive in
          let whole = div-add-mod x bs in
          let both : (idx < limit) ↔ (x < limit * bs) = div-lt_iff_lt-mul positive in
          let idx_in : idx < limit = both.1 (omega arith) in
          let n = min (bs - jank) (size - traversed) in
          let block = direct_block node bs idx in
          let inside = direct.block_inside idx idx_in in
          let small = direct.partition_small in
          let moved =
            write_callback-eq size block traversed jank n buffer w (omega arith) (omega arith)
              in_block more fits (omega arith) refl in
          let w1 = (ext2_write_callback v state size block traversed jank buffer w).1 in
          let swap : x ≡ offset + traversed = omega arith in
          let run =
            IsWritten-blit node bs offset buffer limit total direct (d.bytes w) traversed n e
              (subst (λ (y : ℕ). y / bs < limit) swap idx_in)
              (subst (λ (y : ℕ). y % bs + n ≤ bs) swap (omega arith)) (omega arith) in
          let stored : W traversed (traversed + n) (d.bytes w) (d.bytes w1) = rw moved.1 (
            subst
              (λ (y : ℕ).
                W traversed (traversed + n) (d.bytes w)
                  (blit (d.bytes w) (direct_place node bs y) (slice buffer traversed n)))
              (sym swap) run) in
          let kept = stored.same_length in
          let rest = writes fuel (traversed + n) w1 (omega arith) (omega arith) (omega arith) in
          let at_x : u64 x ≡ x = omega arith in
          let jank_x : sub64 x (u64 (idx * bs)) ≡ jank = omega (arith, mul_comm bs idx) in
          let next : u64 (traversed + n) ≡ traversed + n = omega arith in
          (
            rest.0,
            rw
                (
                  lt→ltb traversed size more,
                  ==_false bs 0 (omega arith),
                  at_x,
                  jank_x,
                  named idx w idx_in e,
                  moved.0,
                  next,
                )
                rest.1,
            IsWritten-trans node bs offset buffer limit total direct traversed (traversed + n) size
                (d.bytes w) (d.bytes w1) (d.bytes rest.0) (omega arith) (omega arith) in_file stored
                rest.2,
          )
      | no over ↦ finish fuel traversed w (omega arith)
    ]

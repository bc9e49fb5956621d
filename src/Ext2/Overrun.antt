-- ===== src/Ext2/Overrun.antt =====
-- src/c/sysfs/ext2/super.c: the bitmap of an unused group and the array for the result.
use kdrivers.Base.{
  sign_extend, u32, ℕ, zero, suc, ◌+◌, ◌-◌, ◌*◌, ◌/◌, ◌^◌, ◌≤◌, ◌<◌, ◌≡◌, refl, ap, ◌∙◌, min,
  Option, some, List, bit_or, get_elem?, get_or, get_elem?-eq-get_or, set, length, length-set,
  lt→leb_false, ==_false, le→ltb_false, lt→ltb, u64, sub32, done, fault, ◌<<◌, arith,
}
use kdrivers.Base.Masks.{Masks}
use kdrivers.Base.Memory.{load8, load16, load32, load64}
use kdrivers.Base.Slices.{slice, blit, blit_whole, length-slice, get_or-slice}
use kdrivers.Base.Vfs.{Vfs, IsDevice}
use kdrivers.Ext2.{GroupDesc, SuperState}
use kdrivers.Ext2.Allocate.{
  AllocateMemory, Picked, store_ret, pick_run, pick_words, base_block, pick_in, pick_from,
}
use native.Mathlib.Decide.{dec_lt}

-- Eight bytes that are 0 are a word that is 0.
load64_zero :
    (m : List ℕ) (p : ℕ)
    → p + 8 ≤ length m
    → ((i : ℕ) → p ≤ i → i < p + 8 → get_or m i 0 ≡ 0)
    → load64 m p ≡ done 0
unfolding load64 load32 load16 load8
load64_zero m p h zeros =
    let byte : (i : ℕ) → p ≤ i → i < p + 8 → get_elem? m i ≡ some 0 =
      λ i lo hi. get_elem?-eq-get_or m i 0 (omega arith) ∙ ap some (zeros i lo hi) in
    rw
      (
        byte p (omega arith) (omega arith),
        byte (p + 1) (omega arith) (omega arith),
        byte (p + 2) (omega arith) (omega arith),
        byte (p + 2 + 1) (omega arith) (omega arith),
        byte (p + 4) (omega arith) (omega arith),
        byte (p + 4 + 1) (omega arith) (omega arith),
        byte (p + 4 + 2) (omega arith) (omega arith),
        byte (p + 4 + 2 + 1) (omega arith) (omega arith),
      )
      refl

positive_int : (n : ℕ) → n < 2 ^ 31 → sign_extend (u32 n) ≡ n
positive_int n h = let e : u32 n ≡ n = omega arith in rw (e, lt→leb_false (2 ^ 31) n h) refl

module _ (masks : Masks) where
  run_stored :
      (start : ℕ) (p : Picked)
      → p.count < 64
      → p.next < length p.ret
      → (value : ℕ) × (pick_run masks start p
          ≡ done (record p { next = p.next + 1; ret = set p.ret p.next value }))
  unfolding pick_run store_ret
  run_stored start p h room = (
    bit_or (sub32 (min p.count 64) 1 << 32) start,
    rw (==_false (min p.count 64) 64 (omega arith), lt→ltb p.next (length p.ret) room) refl,
  )

  run_overruns :
      (start : ℕ) (p : Picked)
      → p.count < 64
      → length p.ret ≤ p.next
      → pick_run masks start p ≡ fault
  unfolding pick_run store_ret
  run_overruns start p h over =
      rw (==_false (min p.count 64) 64 (omega arith), le→ltb_false p.next (length p.ret) over) refl

  overruns :
      (left offset base : ℕ) (bmp : List ℕ) (p : Picked)
      → p.count < 64
      → p.next ≤ length p.ret
      → length p.ret < p.next + left
      → ((i : ℕ) → i < left → load64 bmp (8 * (offset + i)) ≡ done 0)
      → pick_words masks left offset bmp base p ≡ fault
  unfolding pick_words
  overruns zero offset base bmp p small inside more words = absurd (omega arith)
  overruns (suc left) offset base bmp p small inside more words =
      let start = u64 (base + u64 (offset << 3)) in
      let word : load64 bmp (8 * offset) ≡ done 0 =
        ap (load64 bmp) (let e : 8 * offset ≡ 8 * (offset + 0) = omega arith in e)
        ∙ words 0 (omega arith) in
      elim (dec_lt p.next (length p.ret)) [
        | yes room ↦
            let stored = run_stored start p small room in
            let p' : Picked = record p { next = p.next + 1; ret = set p.ret p.next stored.0 } in
            let same = length-set p.ret p.next stored.0 in
            rw (word, stored.1)
              (overruns left (offset + 1) base bmp p' small (omega (arith, same))
                (omega (arith, same))
                (λ i h.
                  ap (λ (k : ℕ). load64 bmp (8 * k))
                    (let e : offset + 1 + i ≡ offset + suc i = omega arith in e)
                  ∙ words (suc i) (omega arith)))
        | no full ↦ rw (word, run_overruns start p small (omega arith)) refl
      ]

  module _ (v : Vfs) (align_up : ℕ → ℕ → ℕ) (file : v.File) (d : IsDevice v file)
      (state : SuperState v.File) (memory : AllocateMemory) (table : List GroupDesc)
      (open_partition : state.basic.partition ≡ some file) where
    bitmap_read :
        (bmp : List ℕ) (place : ℕ) (w : v.World)
        → length bmp ≡ state.basic.block_size
        → place + state.basic.block_size ≤ length (d.bytes w)
        → (v.vfs_read bmp 0 1 state.basic.block_size
            (some file)
            (v.vfs_seek (some file) place w)).0.1
          ≡ slice (d.bytes w) place state.basic.block_size
    bitmap_read bmp place w whole inside =
        let size = state.basic.block_size in
        let w1 = v.vfs_seek (some file) place w in
        let once : 1 * size ≡ size = omega arith in
        let bytes_length = length-slice (d.bytes w) place size inside in
        let content : slice (d.bytes w1) (d.place w1) (1 * size) ≡ slice (d.bytes w) place size =
          rw (d.seek_place, d.seek_bytes) (ap (λ (k : ℕ). slice (d.bytes w) place k) once) in
        ap (λ (r : ℕ × List ℕ). r.1)
          (d.read_result bmp 0 1 size w1 (omega arith)
            (rw (d.seek_place, d.seek_bytes) (omega arith)))
        ∙ ap (λ (l : List ℕ). blit bmp 0 l) content
        ∙ blit_whole bmp (slice (d.bytes w) place size) (omega arith)

    pick_from_in :
        (group count : ℕ) (ret bmp : List ℕ) (w : v.World)
        → memory.for_ret ≡ some ret
        → memory.for_bmp ≡ some bmp
        → group < 2 ^ 31
        → pick_from masks v align_up state table memory count (some group) w
          ≡ pick_in masks v align_up state count ret bmp (get_elem? table group) w
    unfolding pick_from
    pick_from_in group count ret bmp w has_ret has_bmp h =
        rw (has_ret, has_bmp, ==_false (u32 group) (2 ^ 32 - 1) (omega arith), positive_int group h)
          refl

    -- The group that the blocks come from has no block in use, and the array for the result has
    -- an entry for each block that is asked for. Each word of the bitmap gives one entry of the
    -- result all the same, so that a bitmap of more words than that overruns the array.
    pub pick_from_fault :
        (group count : ℕ) (desc : GroupDesc) (ret bmp : List ℕ) (w : v.World)
        → get_elem? table group ≡ some desc
        → memory.for_ret ≡ some ret
        → memory.for_bmp ≡ some bmp
        → group < 2 ^ 31
        → count < 64
        → length ret ≡ count
        → length bmp ≡ state.basic.block_size
        → 8 * (count + 1) ≤ state.basic.block_size
        → let place = desc.usage_bmp_block * state.basic.block_size in
          place + state.basic.block_size ≤ length (d.bytes w)
          → length (d.bytes w) < 2 ^ 64
          → ((i : ℕ) → i < state.basic.block_size → get_or (d.bytes w) (place + i) 0 ≡ 0)
          → pick_from masks v align_up state table memory count (some group) w ≡ fault
    unfolding pick_from pick_in
    pick_from_fault group count desc ret bmp w at_group has_ret has_bmp positive small fits whole
          words inside no_wrap unused =
        let size = state.basic.block_size in
        let place = desc.usage_bmp_block * size in
        let at : u64 place ≡ place = omega arith in
        let w1 = v.vfs_seek (some file) place w in
        let read = bitmap_read bmp place w whole inside in
        let bytes_length = length-slice (d.bytes w) place size inside in
        let over =
          overruns (size / 8) 0 (base_block masks v align_up state desc)
            (slice (d.bytes w) place size) (record { count = count; next = 0; ret = ret }) small
            (omega arith) (omega arith)
            (λ i h.
              load64_zero (slice (d.bytes w) place size) (8 * (0 + i)) (omega (arith, bytes_length))
                (λ j lo hi.
                  get_or-slice (d.bytes w) place size j 0 (omega arith)
                  ∙ unused j (omega arith))) in
        let over' : pick_words masks (size / 8) 0 (v.vfs_read bmp 0 1 size (some file) w1).0.1
              (base_block masks v align_up state desc)
              (record { count = count; next = 0; ret = ret })
            ≡ fault =
          ap
            (λ (l : List ℕ).
              pick_words masks (size / 8) 0 l (base_block masks v align_up state desc)
                (record { count = count; next = 0; ret = ret }))
            read
          ∙ over in
        pick_from_in group count ret bmp w has_ret has_bmp positive
        ∙ ap (λ (g : Option GroupDesc). pick_in masks v align_up state count ret bmp g w) at_group
        ∙ rw (pick_in, open_partition, at, ==_false size 0 (omega arith), over') refl
